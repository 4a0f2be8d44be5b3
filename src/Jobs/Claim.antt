-- ===== src/Jobs/Claim.antt =====
-- What a claim hands out: packages/go/jobs/claim.go.
use lab_kit.Prelude.{
  ℕ, ◌≡◌, refl, inl, inr, Option, none, some, List, [], ◌∷◌, Bool, true, false, arith, All, All-imp,
  In, Bool-cases,
}
use lab_kit.Db.{Job}
use lab_kit.Db.Jobs.{is_eligible, is_before, earlier, next_queued}

-- The row that the query picks is eligible, stands in the table, and no eligible row is before it.
pub record IsNext (locked : ℕ → Bool) (now : ℕ) (jobs : List Job) (j : Job) : Type 0 where
  pub listed : In j jobs
  pub eligible : is_eligible locked now j ≡ true
  pub first : All (λ k. is_eligible locked now k ≡ true → is_before k j ≡ false) jobs

is_before_irrefl : (j : Job) → is_before j j ≡ false
is_before_irrefl j = ground arith

is_before_asym : (j k : Job) → is_before k j ≡ true → is_before j k ≡ false
is_before_asym j k p = ground arith

not-before_trans :
    (i j k : Job) → is_before i j ≡ false → is_before j k ≡ false → is_before i k ≡ false
not-before_trans i j k p q = ground arith

module _ (locked : ℕ → Bool) (now : ℕ) where
  -- Nothing is picked exactly where no row is eligible.
  pub next_queued-none :
      (jobs : List Job)
      → next_queued locked now jobs ≡ none
      → All (λ k. is_eligible locked now k ≡ false) jobs
  unfolding next_queued
  next_queued-none [] h = tt
  next_queued-none (j ∷ jobs) h = elim (Bool-cases (is_eligible locked now j)) [
    | inl e ↦ cc (rw e at h)
    | inr e ↦ (e, next_queued-none jobs (rw e at h))
  ]

  earlier-IsNext :
      (j : Job) (jobs : List Job) (rest : Option Job)
      → is_eligible locked now j ≡ true
      → (rest ≡ none → All (λ k. is_eligible locked now k ≡ false) jobs)
      → ((k : Job) → rest ≡ some k → IsNext locked now jobs k)
      → IsNext locked now (j ∷ jobs) (earlier j rest)
  earlier-IsNext j jobs none e no_more next = record {
    listed = inl refl;
    eligible = e;
    first =
        (λ _. is_before_irrefl j, All-imp (λ k no_k yes_k. cc (no_k, yes_k)) jobs (no_more refl));
  }
  earlier-IsNext j jobs (some k) e no_more next = elim (Bool-cases (is_before k j)) [
    | inl b ↦
        let n = next k refl in
        rw b (record {
          listed = inr n.listed;
          eligible = n.eligible;
          first = (λ _. is_before_asym j k b, n.first);
        })
    | inr b ↦ rw b (record {
      listed = inl refl;
      eligible = e;
      first = (
        λ _. is_before_irrefl j,
        All-imp (λ i h p. not-before_trans i k j (h p) b) jobs (next k refl).first,
      );
    })
  ]

  pub next_queued-IsNext :
      (jobs : List Job) (j : Job) → next_queued locked now jobs ≡ some j → IsNext locked now jobs j
  unfolding next_queued
  next_queued-IsNext [] j h = cc
  next_queued-IsNext (i ∷ jobs) j h = elim (Bool-cases (is_eligible locked now i)) [
    | inl e ↦
        let same : earlier i (next_queued locked now jobs) ≡ j = ground arith in
        rw (← same) (
          earlier-IsNext i jobs (next_queued locked now jobs) e (next_queued-none jobs)
            (next_queued-IsNext jobs))
    | inr e ↦
        let n = next_queued-IsNext jobs j (rw e at h) in
        record { listed = inr n.listed; eligible = n.eligible; first = (λ p. cc (e, p), n.first) }
  ]
