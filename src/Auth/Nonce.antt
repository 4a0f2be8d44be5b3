-- ===== src/Auth/Nonce.antt =====
-- The replay guard: packages/go/auth/nonce.go, and Verifier.ReserveNonce and Verify of signature.go.
use lab_kit.Prelude.{ℕ, String, List, ◌∷◌, Bool, true, false, any, if◌then◌else◌, str_eq}
use lab_kit.Prelude.Results.{Result, ok, err}
use lab_kit.Auth.{Error, nonce_replayed, Payload, Crypto, verify_signature}

-- MemoryNonceStore.Used
abbrev pub used : String → List String → Bool
used nonce store = any (λ n. str_eq n nonce) store

-- MemoryNonceStore.ReserveNonce
unfoldable pub reserve : String → List String → Bool × List String
reserve nonce store = if used nonce store then (false, store) else (true, nonce ∷ store)

-- Verifier.ReserveNonce, over a store in memory.
abbrev pub reserve_nonce : String → List String → Result Error (Unit {0}) × List String
reserve_nonce nonce store =
    let (fresh, store') = reserve nonce store in
    (if fresh then ok tt else err nonce_replayed, store')

-- Verifier.Verify
unfoldable pub verify :
    Crypto → ℕ → ℕ → List ℕ → Payload → List ℕ → List String → Result Error (Unit {0}) × List String
unfolding reserve
verify c now max_skew key p sig store = elim (verify_signature c now max_skew key p sig) [
  | err e ↦ (err e, store)
  | ok _ ↦ reserve_nonce p.nonce store
]
