-- ===== src/Board/Sorted.antt =====
-- In which order the rows of a leaderboard stand: the sort of GetBoard in
-- apps/api/internal/service/leaderboard/service.go.
use lab_kit.Prelude.{
  ◌≡◌, ◌≢◌, ◌≤◌, ◌<◌, List, [], ◌∷◌, Bool, true, false, arith, All, All-imp, count, Bool-cases, inl,
  inr, ltb,
}
use lab_kit.Manifest.{MetricSort, asc, desc, other}
use lab_kit.Board.{Float, Entry, is_asc, is_before, sort_entries}
use lab_kit.Board.Order.{IsOrder, IsOrdered, sorted, count-sort}

-- Where an entry stands against one behind it. Ascending: a smaller value first, then the earlier
-- update; otherwise a larger value first, then the later update; then the smaller user id.
module _ {V : Type 0} (float : Float V) where
  abbrev pub IsTied : Entry V → Entry V → Type 0
  IsTied a b =
      (float.lt a.selected_value b.selected_value ≡ false)
      × (float.lt b.selected_value a.selected_value ≡ false)

  pub data Precedes : MetricSort → Entry V → Entry V → Type 0 where
    smaller : (a b : Entry V) → float.lt a.selected_value b.selected_value ≡ true → Precedes asc a b
    earlier : (a b : Entry V) → IsTied a b → a.updated_at < b.updated_at → Precedes asc a b
    larger :
        (direction : MetricSort) (a b : Entry V)
        → direction ≢ asc
        → float.lt b.selected_value a.selected_value ≡ true
        → Precedes direction a b
    later :
        (direction : MetricSort) (a b : Entry V)
        → direction ≢ asc
        → IsTied a b
        → b.updated_at < a.updated_at
        → Precedes direction a b
    lower_id :
        (direction : MetricSort) (a b : Entry V)
        → IsTied a b
        → a.updated_at ≡ b.updated_at
        → a.user_id ≤ b.user_id
        → Precedes direction a b

  -- Every entry precedes those behind it.
  abbrev pub IsSorted : MetricSort → List (Entry V) → Type 0
  IsSorted direction [] = Unit
  IsSorted direction (e ∷ entries) =
      All (λ f. Precedes direction e f) entries × IsSorted direction entries

  module _ (o : IsOrder float) where
    up_Precedes : (a b : Entry V) → is_before float true b a ≡ false → Precedes asc a b
    up_Precedes a b h =
        let these = o.differs_iff b.selected_value a.selected_value in
        elim (Bool-cases (float.lt a.selected_value b.selected_value)) [
          | inl l ↦ smaller a b l
          | inr l ↦
              let tied : float.lt b.selected_value a.selected_value ≡ false =
                ground (arith, these) in
              let same : float.differs b.selected_value a.selected_value ≡ false =
                ground (arith, these) in
              elim (Bool-cases (ltb a.updated_at b.updated_at)) [
                | inl t ↦ earlier a b (l, tied) (ground arith)
                | inr t ↦ lower_id asc a b (l, tied) (ground arith) (ground arith)
              ]
        ]

    down_Precedes :
        (direction : MetricSort) (a b : Entry V)
        → direction ≢ asc
        → is_before float false b a ≡ false
        → Precedes direction a b
    down_Precedes direction a b unlike h =
        let these = o.differs_iff b.selected_value a.selected_value in
        elim (Bool-cases (float.lt b.selected_value a.selected_value)) [
          | inl l ↦ larger direction a b unlike l
          | inr l ↦
              let tied : float.lt a.selected_value b.selected_value ≡ false =
                ground (arith, these) in
              let same : float.differs b.selected_value a.selected_value ≡ false =
                ground (arith, these) in
              elim (Bool-cases (ltb b.updated_at a.updated_at)) [
                | inl t ↦ later direction a b unlike (tied, l) (ground arith)
                | inr t ↦ lower_id direction a b (tied, l) (ground arith) (ground arith)
              ]
        ]

    not_before-Precedes :
        (direction : MetricSort) (a b : Entry V)
        → is_before float (is_asc direction) b a ≡ false
        → Precedes direction a b
    not_before-Precedes asc a b h = up_Precedes a b h
    not_before-Precedes desc a b h = down_Precedes desc a b (λ e. cc) h
    not_before-Precedes (other s) a b h = down_Precedes (other s) a b (λ e. cc) h

    IsOrdered-IsSorted :
        (direction : MetricSort) (entries : List (Entry V))
        → IsOrdered float (is_asc direction) entries
        → IsSorted direction entries
    IsOrdered-IsSorted direction [] h = tt
    IsOrdered-IsSorted direction (e ∷ entries) (h, t) = (
      All-imp (λ f k. not_before-Precedes direction e f k) entries h,
      IsOrdered-IsSorted direction entries t,
    )

    -- Without NaN, each row of a board precedes those behind it: by the value in the direction of the
    -- metric, then by the time of the update, the earlier first if the metric is ascending and else
    -- the later, and then by the smaller user id. The rows are the rows that were given: every test
    -- holds of as many of them as before.
    pub sort_entries-IsSorted :
        (direction : MetricSort) (entries : List (Entry V))
        → IsSorted direction (sort_entries float (is_asc direction) entries)
          × ((p : Entry V → Bool)
              → count p (sort_entries float (is_asc direction) entries) ≡ count p entries)
    sort_entries-IsSorted direction entries = (
      IsOrdered-IsSorted direction (sort_entries float (is_asc direction) entries)
          (sorted float o (is_asc direction) entries),
      λ p. count-sort float o (is_asc direction) p entries,
    )
