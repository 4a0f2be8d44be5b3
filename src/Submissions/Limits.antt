-- ===== src/Submissions/Limits.antt =====
-- What Intake limits over time, one use of a nonce and the quota of a day:
-- apps/api/internal/service/submissions/service.go.
use lab_kit.Prelude.{
  ℕ, ◌+◌, ◌≤◌, ◌<◌, ◌≡◌, String, some, List, [], ◌∷◌, ◌++◌, Bool, true, false, arith, count, eq_iff,
  inl, inr, ◌⊎◌, ap, sym, ◌∙◌, count-append, leb,
}
use lab_kit.Prelude.Int.{pos}
use lab_kit.Prelude.Dict.{lookup}
use lab_kit.Prelude.Results.{ok}
use lab_kit.Manifest.{Manifest}
use lab_kit.Db.{UserKey, State, Submission}
use lab_kit.Db.Submissions.{count_quota_usage, counts}
use lab_kit.Db.Bonus.{consume_bonus}
use lab_kit.Submissions.Keys.{get_user_key}
use lab_kit.Submissions.Quota.{quota_window}
use lab_kit.Submissions.Intake.{
  Call, SubmitInput, Env, World, Receipt, Checked, intake, check_daily_quota,
}
use lab_kit.Submissions.Accept.{is_used, IsAccepted, inserted}
use lab_kit.Submissions.Entry.{intake-IsAccepted, with_keys}

is_used-last : (n : String) (ns : List String) → is_used n (ns ++ n ∷ []) ≡ true
is_used-last n [] = ground (arith, eq_iff n n)
is_used-last n (m ∷ ns) = ground (arith, is_used-last n ns)

some_inj : {A : Type 0} {a b : A} → some a ≡ some b → a ≡ b
some_inj e = cc

count-last :
    (p : Submission → Bool) (rows : List Submission) (row : Submission)
    → count p (rows ++ row ∷ []) ≤ count p rows + 1
count-last p rows row = ground (arith, count-append p rows (row ∷ []))

module _ {F V : Type 0} where
  accepted_used :
      (env : Env F) (fails : Call → Bool) (i : SubmitInput) (c : Checked) (res : Receipt)
      (w w' : World V)
      → IsAccepted env fails i c res w w'
      → is_used i.nonce w'.db.nonces ≡ true
  accepted_used env fails i c res w w' a =
      rw (ap (λ x. x.nonces) a.tables) (is_used-last i.nonce a.paid.nonces)

  -- A nonce is accepted at most once: a request that comes right after an accepted one with the same
  -- nonce is not accepted, whatever its other fields, the readings of the clock and the failures of
  -- the two calls are.
  pub intake-once :
      (env env' : Env F) (fails fails' : Call → Bool) (i i' : SubmitInput) (w w' : World V)
      (res : Receipt)
      → intake env fails i w ≡ (ok res, w')
      → i'.nonce ≡ i.nonce
      → (res' : Receipt) → ¬ ((intake env' fails' i' w').0 ≡ ok res')
  intake-once env env' fails fails' i i' w w' res e same res' h =
      let (c, _, _, a) = intake-IsAccepted env fails i w w' res e in
      let (c', _, _, a') =
        intake-IsAccepted env' fails' i' w' (intake env' fails' i' w').1 res' (ground arith) in
      let used = accepted_used env fails i c res (with_keys env fails i w) w' a in
      let new = a'.nonce_new in ground arith

module _ {F : Type 0} (env : Env F) (fails : Call → Bool) where
  bonus_free :
      (c : Checked) (lab : String) (rows : List Submission) (b : Bool)
      → b ≡ true
      → count
          (counts c.key.user_id lab
            (quota_window env.counted env.location).0
            (quota_window env.counted env.location).1)
          (rows ++ inserted env fails c lab b ∷ [])
        ≡ count
            (counts c.key.user_id lab
              (quota_window env.counted env.location).0
              (quota_window env.counted env.location).1)
            rows
  bonus_free c lab rows true e = ground (
    arith,
    count-append
        (counts c.key.user_id lab (quota_window env.counted env.location).0
          (quota_window env.counted env.location).1)
        rows (inserted env fails c lab true ∷ []),
  )
  bonus_free c lab rows false e = ground arith

module _ {F V : Type 0} (env : Env F) (fails : Call → Bool) where
  -- The submissions of a user and a lab that count in the window of the request.
  abbrev pub counted : ℕ → String → State V → ℕ
  counted user lab st =
      count_quota_usage user lab (quota_window env.counted env.location).0
        (quota_window env.counted env.location).1 st.submissions

  check_daily_quota_inv :
      (m : Manifest) (user d used : ℕ) (lab : String) (st : State V) (b : Bool)
      → m.quota.daily ≡ pos d
      → 0 < d
      → check_daily_quota env fails m user lab st ≡ ok (used, b)
      → (used ≡ counted user lab st) × (b ≡ leb d used)
  unfolding check_daily_quota
  check_daily_quota_inv m user d used lab st b e p h = (ground arith, ground arith)

  quota_of_accepted :
      (i : SubmitInput) (c : Checked) (res : Receipt) (w w' : World V) (d : ℕ)
      → c.manifest.quota.daily ≡ pos d
      → 0 < d
      → IsAccepted env fails i c res w w'
      → ((counted c.key.user_id i.lab_id w'.db ≤ d) × (w'.db.bonus ≡ w.db.bonus))
        ⊎ ((d ≤ counted c.key.user_id i.lab_id w.db)
            × (counted c.key.user_id i.lab_id w'.db ≡ counted c.key.user_id i.lab_id w.db)
            × (left : ℕ) × (consume_bonus c.key.user_id i.lab_id w.db.bonus
                ≡ some (left, w'.db.bonus)))
  unfolding count_quota_usage
  quota_of_accepted i c res w w' d e p a =
      let (h, branch) = a.spends in
      let (before, full) =
        check_daily_quota_inv c.manifest c.key.user_id d a.reserved.used i.lab_id w.db
          a.reserved.bonus_used e p h in
      let rows = ap (λ x. x.submissions) a.tables in
      let bonus = ap (λ x. x.bonus) a.tables in
      let p =
        counts c.key.user_id i.lab_id (quota_window env.counted env.location).0
          (quota_window env.counted env.location).1 in
      let row = inserted env fails c i.lab_id a.reserved.bonus_used in
      elim branch [
        | inl (b, s) ↦
            let grows = count-last p a.paid.submissions row in
            let same = ap (λ x. count p x.submissions) s in
            let total = ap (count p) rows in inl (ground arith, bonus ∙ ap (λ x. x.bonus) s)
        | inr (b, bs, u, s) ↦
            let same = ap (λ x. count p x.submissions) s in
            let total = ap (count p) rows in
            let free = bonus_free env fails c i.lab_id a.paid.submissions a.reserved.bonus_used b in
            let spent = bonus ∙ ap (λ x. x.bonus) s in
            inr (
              ground arith,
              total ∙ free ∙ same,
              a.reserved.bonus_left,
              u ∙ ap (λ x. some (a.reserved.bonus_left, x)) (sym spent),
            )
      ]

  -- A bonus row does not count: for a lab with a daily quota of `d` the submissions that count in the
  -- day of the request, after an accepted request, are at most `d` and the bonus is untouched; or
  -- there were `d` or more before, they are no more than before, and the user's bonus went down.
  pub intake-quota :
      (i : SubmitInput) (res : Receipt) (w w' : World V) (raw : List ℕ) (m : Manifest)
      (key : UserKey) (d : ℕ)
      → intake env fails i w ≡ (ok res, w')
      → lookup i.lab_id w.labs ≡ some raw
      → env.parse_manifest raw ≡ some m
      → (get_user_key env.codec (fails Call.set_key) i.key_fingerprint w.keys).0 ≡ some key
      → m.quota.daily ≡ pos d
      → 0 < d
      → ((counted key.user_id i.lab_id w'.db ≤ d) × (w'.db.bonus ≡ w.db.bonus))
        ⊎ ((d ≤ counted key.user_id i.lab_id w.db)
            × (counted key.user_id i.lab_id w'.db ≡ counted key.user_id i.lab_id w.db)
            × (left : ℕ) × (consume_bonus key.user_id i.lab_id w.db.bonus
                ≡ some (left, w'.db.bonus)))
  intake-quota i res w w' raw m key d e l r k q p =
      let (c, checked, found, a) = intake-IsAccepted env fails i w w' res e in
      let same_key : c.key ≡ key = some_inj (sym found ∙ k) in
      let same_raw : checked.raw ≡ raw = some_inj (sym checked.lab_found ∙ l) in
      let same : c.manifest ≡ m =
        some_inj (sym checked.parsed ∙ ap env.parse_manifest same_raw ∙ r) in
      rw (sym same_key) (
        quota_of_accepted i c res (with_keys env fails i w) w' d (ap (λ x. x.quota.daily) same ∙ q)
          p a)
