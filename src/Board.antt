-- ===== src/Board.antt =====
-- The order and the ranks of a leaderboard: GetBoard and its helpers in
-- apps/api/internal/service/leaderboard/service.go. float32 is the parameter `V` with its tests `<`
-- and `!=`, and strings.EqualFold a parameter.
pub mod Order
pub mod Sorted
mod Tests
use lab_kit.Prelude.{
  ℕ, suc, String, Option, none, some, List, [], ◌∷◌, Bool, true, false, ◌||◌, not, map, ◌==◌, ltb,
  if◌then◌else◌, find, str_eq,
}
use lab_kit.Prelude.Text.{is_empty, trim_space}
use lab_kit.Prelude.Results.{Result, ok, err}
use lab_kit.Manifest.{Manifest, MetricSort, asc, MetricSection, ScheduleSection, is_zero}

pub data Error : Type 0 where
  metric_not_found : Error

pub record Float (V : Type 0) : Type 0 where
  pub lt : V → V → Bool
  pub differs : V → V → Bool

-- boardEntry, with the track of its row.
pub record Entry (V : Type 0) : Type 0 where
  pub user_id : ℕ
  pub selected_value : V
  pub updated_at : ℕ
  pub track : String

-- resolveMetric
unfoldable pub resolve_metric : Manifest → String → Result Error MetricSection
unfolding trim_space
resolve_metric m by =
    let wanted = if is_empty (trim_space by) then m.board.rank_by else trim_space by in
    elim (find (λ metric. str_eq metric.id wanted) m.metrics) [
      | none ↦ err metric_not_found
      | some metric ↦ ok metric
    ]

-- isVisible
unfoldable pub is_visible : ScheduleSection → ℕ → Bool
is_visible s now = if is_zero s.visible then true else not (ltb now s.visible)

abbrev pub is_asc : MetricSort → Bool
is_asc asc = true
is_asc _ = false

module _ {V : Type 0} (float : Float V) where
  -- The comparison of sort.SliceStable.
  abbrev pub is_before : Bool → Entry V → Entry V → Bool
  is_before ascending a b =
      if float.differs a.selected_value b.selected_value
      then (if ascending
          then float.lt a.selected_value b.selected_value
          else float.lt b.selected_value a.selected_value)
      else if not (a.updated_at == b.updated_at)
      then (if ascending then ltb a.updated_at b.updated_at else ltb b.updated_at a.updated_at)
      else ltb a.user_id b.user_id

  unfoldable pub insert_entry : Bool → Entry V → List (Entry V) → List (Entry V)
  insert_entry ascending e [] = e ∷ []
  insert_entry ascending e (f ∷ entries) =
      let rest = insert_entry ascending e entries in
      if is_before ascending f e then f ∷ rest else e ∷ f ∷ entries

  -- sort.SliceStable
  unfoldable pub sort_entries : Bool → List (Entry V) → List (Entry V)
  sort_entries ascending [] = []
  sort_entries ascending (e ∷ entries) = insert_entry ascending e (sort_entries ascending entries)

module _ {V : Type 0} (equal_fold : String → String → Bool) where
  -- trackMatches
  abbrev pub track_matches : Bool → String → Entry V → Bool
  track_matches pick metric e = not pick || equal_fold e.track metric

  -- The loop that gives the ranks; a row without one has rank 0.
  unfoldable pub assign_ranks : Bool → Bool → String → ℕ → List (Entry V) → List (Entry V × ℕ)
  assign_ranks rank_all pick metric next [] = []
  assign_ranks rank_all pick metric next (e ∷ entries) =
      if rank_all || track_matches pick metric e
      then (e, next) ∷ assign_ranks rank_all pick metric (suc next) entries
      else (e, 0) ∷ assign_ranks rank_all pick metric next entries

  -- The same from `nextRank := 1` on.
  abbrev pub rank_rows : Bool → Bool → String → List (Entry V) → List (Entry V × ℕ)
  rank_rows rank_all pick metric entries = assign_ranks rank_all pick metric 1 entries
