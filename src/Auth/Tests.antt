-- ===== src/Auth/Tests.antt =====
-- A signed request that comes twice: packages/go/auth.
use lab_kit.Prelude.{
  ◌==◌, Bool, String, In, ◌≢◌, arith, ℕ, ◌≡◌, refl, ◌↔◌, some, List, [], ◌∷◌, true, false,
}
use lab_kit.Prelude.Results.{ok, err}
use lab_kit.Auth.{
  Error, nonce_replayed, Payload, Crypto, new_payload, verify_signature, fresh_within, sort,
}
use lab_kit.Auth.Nonce.{verify}
use lab_kit.Auth.Accepted.{IsSigned, IsFresh, allowed_skew, verify_once}

-- A signature is good if it begins as the signed bytes do.
abbrev same_start : List ℕ → List ℕ → Bool
same_start (a ∷ _) (b ∷ _) = a == b
same_start _ _ = false

abbrev toy : Crypto
toy = record {
  marshal = λ view. some (view.timestamp_ms ∷ []);
  verify = λ key bytes sig. same_start bytes sig;
  epoch = 0;
}

abbrev key : List ℕ
key =
    1 ∷ 2 ∷ 3 ∷ 4 ∷ 5 ∷ 6 ∷ 7 ∷ 8 ∷ 9 ∷ 10 ∷ 11 ∷ 12 ∷ 13 ∷ 14 ∷ 15 ∷ 16 ∷ 17 ∷ 18 ∷ 19 ∷ 20 ∷ 21
    ∷ 22 ∷ 23 ∷ 24 ∷ 25 ∷ 26 ∷ 27 ∷ 28 ∷ 29 ∷ 30 ∷ 31 ∷ 32 ∷ []

abbrev payload : Payload
payload = new_payload "malloc" 1000 "n1" ("mm.c" ∷ "a.c" ∷ [])

sorted : sort payload.files ≡ "a.c" ∷ "mm.c" ∷ []
unfolding sort
sorted = refl

accepted : verify toy 1500 600 key payload (0 ∷ []) [] ≡ (ok tt, "n1" ∷ [])
unfolding verify verify_signature
accepted = refl

forged : verify toy 1500 600 key payload (1 ∷ []) [] ≡ (err Error.invalid_signature, [])
unfolding verify verify_signature
forged = refl

too_old : verify toy 1601 600 key payload (0 ∷ []) [] ≡ (err Error.expired_timestamp, [])
unfolding verify verify_signature
too_old = refl

verify_once_example :
    let (r, store') = verify toy 1500 600 key payload (0 ∷ []) [] in
    let (again, store'') = verify toy 1550 600 key payload (0 ∷ []) store' in
    ((r ≡ ok tt) ↔ (
      IsSigned toy key payload (0 ∷ [])
      × IsFresh 1500 1000 (allowed_skew 600)
      × (¬ In {A = String} "n1" [])))
    × (r ≡ ok tt → store' ≡ "n1" ∷ [])
    × ((e : Error) → r ≡ err e → store' ≡ [])
    × (r ≡ ok tt → again ≢ ok tt)
    × (r ≡ ok tt
        → IsFresh 1550 1000 (allowed_skew 600)
        → (again ≡ err nonce_replayed) × (store'' ≡ store'))
verify_once_example = verify_once toy 1500 1550 600 key payload (0 ∷ []) [] (omega arith)

-- 2^63 nanoseconds ahead is as good as now.
far_ahead : fresh_within 1500 9_223_372_036_854_777_308 600 ≡ true
unfolding fresh_within
far_ahead = refl

ahead : fresh_within 1500 9_223_372_036_854_777_307 600 ≡ false
unfolding fresh_within
ahead = refl
