-- ===== src/Auth/Accepted.antt =====
-- When a signed request is accepted: Verifier.Verify of packages/go/auth/signature.go with the store
-- of nonces in memory.
use lab_kit.Prelude.{
  ℕ, ◌≡◌, ◌≢◌, refl, ap, ◌↔◌, ◌≤◌, ◌<◌, ◌+◌, ◌-◌, ◌/◌, ◌⊎◌, inl, inr, String, some, List, ◌∷◌, Bool,
  true, false, arith, length, In, ◌==◌, if◌then◌else◌, Bool-cases, Option-cases,
}
use lab_kit.Prelude.Members.{any_iff}
use lab_kit.Prelude.Results.{Result, ok, err}
use lab_kit.Auth.{
  Error, nonce_replayed, Payload, Crypto, canonical, sort, verify_signature, max_duration,
  fresh_within,
}
use lab_kit.Auth.Nonce.{used, reserve, verify}

-- A time that is close enough, on either side; and one so far ahead, by 2^63 nanoseconds, that the
-- distance is no duration.
abbrev pub IsFresh : ℕ → ℕ → ℕ → Type 0
IsFresh now ts skew = ((now ≤ ts + skew) × (ts ≤ now + skew)) ⊎ (now + max_duration < ts)

pub fresh_within_iff :
    (now ts skew : ℕ)
    → skew < max_duration
    → (fresh_within now ts skew ≡ true) ↔ IsFresh now ts skew
unfolding fresh_within
fresh_within_iff now ts skew small = (λ h. ground arith, λ h. ground arith)

-- The allowed distance: five minutes if none is set.
abbrev pub allowed_skew : ℕ → ℕ
allowed_skew max_skew = if max_skew == 0 then 300_000_000_000 else max_skew

-- The signature is by the key over the encoded content of the payload.
abbrev pub IsSigned : Crypto → List ℕ → Payload → List ℕ → Type 0
IsSigned c key p sig =
    (length key ≡ 32)
    × ((bytes : List ℕ) × (c.marshal (record {
      content_hash = p.content_hash;
      files = sort p.files;
      lab_id = p.lab_id;
      nonce = p.nonce;
      timestamp_ms = (p.timestamp - c.epoch) / 1_000_000;
    })
          ≡ some bytes)
        × (c.verify key bytes sig ≡ true))

allowed_small : (max_skew : ℕ) → max_skew < max_duration → allowed_skew max_skew < max_duration
allowed_small max_skew small = ground arith

pub verify_signature_iff :
    (c : Crypto) (now max_skew : ℕ) (key : List ℕ) (p : Payload) (sig : List ℕ)
    → max_skew < max_duration
    → (verify_signature c now max_skew key p sig ≡ ok tt)
      ↔ (IsSigned c key p sig × IsFresh now p.timestamp (allowed_skew max_skew))
unfolding verify_signature canonical
verify_signature_iff c now max_skew key p sig small =
    let fresh =
      fresh_within_iff now p.timestamp (allowed_skew max_skew) (allowed_small max_skew small) in
    elim (Option-cases (c.marshal (canonical c.epoch p))) [
      | inl h ↦ (
        λ e. absurd (ground arith),
        λ ((size, (bytes, made, good)), close). absurd (ground arith),
      )
      | inr (bytes, h) ↦ (
        λ e. ((ground arith, (bytes, h, ground arith)), fresh.0 (ground arith)),
        λ ((size, (bytes', made, good)), close).
            let near = fresh.1 close in
            let same : bytes ≡ bytes' = ground arith in
            let its : c.verify key bytes sig ≡ true = rw same good in ground arith,
      )
    ]

used_iff : (nonce : String) (store : List String) → (used nonce store ≡ true) ↔ In nonce store
used_iff nonce store = any_iff nonce store

module _ (c : Crypto) (now max_skew : ℕ) (key : List ℕ) (p : Payload) (sig : List ℕ)
    (store : List String) where
  verify_ok :
      (verify c now max_skew key p sig store).0 ≡ ok tt
      → (verify_signature c now max_skew key p sig ≡ ok tt)
        × (used p.nonce store ≡ false)
        × ((verify c now max_skew key p sig store).1 ≡ p.nonce ∷ store)
  unfolding verify reserve
  verify_ok h = (ground arith, ground arith, ground arith)

  verify_new :
      verify_signature c now max_skew key p sig ≡ ok tt
      → used p.nonce store ≡ false
      → (verify c now max_skew key p sig store).0 ≡ ok tt
  unfolding verify reserve
  verify_new h new = ground arith

  verify_used :
      verify_signature c now max_skew key p sig ≡ ok tt
      → used p.nonce store ≡ true
      → verify c now max_skew key p sig store ≡ (err nonce_replayed, store)
  unfolding verify reserve
  verify_used h old = ground arith

  verify_err :
      (e : Error)
      → (verify c now max_skew key p sig store).0 ≡ err e
      → (verify c now max_skew key p sig store).1 ≡ store
  unfolding verify reserve
  verify_err e h = ground arith

-- With a skew below the longest duration, Verify accepts a request exactly if the key has its size
-- and has signed the content of the payload, the time is fresh and the nonce was not used. Then the
-- nonce, and no other, is used in addition, and the same request is never accepted again, at any
-- time: it is refused as a replay as long as its time is fresh, and changes nothing. A request that
-- is refused uses no nonce.
pub verify_once :
    (c : Crypto) (now now' max_skew : ℕ) (key : List ℕ) (p : Payload) (sig : List ℕ)
    (store : List String)
    → max_skew < max_duration
    → let (r, store') = verify c now max_skew key p sig store in
      let (again, store'') = verify c now' max_skew key p sig store' in
      ((r ≡ ok tt) ↔ (
        IsSigned c key p sig
        × IsFresh now p.timestamp (allowed_skew max_skew)
        × (¬ In p.nonce store)))
      × (r ≡ ok tt → store' ≡ p.nonce ∷ store)
      × ((e : Error) → r ≡ err e → store' ≡ store)
      × (r ≡ ok tt → again ≢ ok tt)
      × (r ≡ ok tt
          → IsFresh now' p.timestamp (allowed_skew max_skew)
          → (again ≡ err nonce_replayed) × (store'' ≡ store'))
verify_once c now now' max_skew key p sig store small =
    let good = verify_signature_iff c now max_skew key p sig small in
    let listed : used p.nonce (p.nonce ∷ store) ≡ true =
      (used_iff p.nonce (p.nonce ∷ store)).1 (inl refl) in
    (
      (
        λ h.
            let (signed, new, _) = verify_ok c now max_skew key p sig store h in
            let (its, close) = good.0 signed in
            (its, close, λ m. new_old new ((used_iff p.nonce store).1 m)),
        λ (its, close, new).
            verify_new c now max_skew key p sig store (good.1 (its, close))
              (elim (Bool-cases (used p.nonce store)) [
                | inl old ↦ absurd (new ((used_iff p.nonce store).0 old))
                | inr free ↦ free
              ]),
      ),
      (λ h. (verify_ok c now max_skew key p sig store h).2),
      (λ e h. verify_err c now max_skew key p sig store e h),
      (λ h again.
          let (_, _, after) = verify_ok c now max_skew key p sig store h in
          let (_, new, _) = verify_ok c now' max_skew key p sig _ again in
          new_old new (rw after listed)),
      λ h close.
          let (signed, _, after) = verify_ok c now max_skew key p sig store h in
          let (its, _) = good.0 signed in
          let result =
            verify_used c now' max_skew key p sig (verify c now max_skew key p sig store).1
              ((verify_signature_iff c now' max_skew key p sig small).1 (its, close))
              (rw after listed) in
          (
            ap (λ (r : Result Error (Unit {0}) × List String). r.0) result,
            ap (λ (r : Result Error (Unit {0}) × List String). r.1) result,
          ),
    )
  where
    new_old : {b : Bool} → b ≡ false → b ≡ true → ⊥
    new_old f t = ground arith
