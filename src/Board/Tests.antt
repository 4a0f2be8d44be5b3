-- ===== src/Board/Tests.antt =====
-- Small boards: apps/api/internal/service/leaderboard.
use lab_kit.Prelude.{
  ℕ, ◌≡◌, refl, [], ◌∷◌, Bool, true, false, ◌||◌, not, map, keep, count, ◌==◌, ltb, str_eq, arith,
}
use lab_kit.Board.{Float, Entry, sort_entries, insert_entry, rank_rows, track_matches}
use lab_kit.Manifest.{MetricSort}
use lab_kit.Board.Sorted.{IsSorted, sort_entries-IsSorted}
use lab_kit.Board.Order.{IsOrder, assign_ranks-numbers, numbers, is_ranked}

abbrev points : Float ℕ
points = record { lt = ltb; differs = λ v w. not (v == w) }

points-IsOrder : IsOrder points
points-IsOrder = record {
  differs_iff = λ v w. ground arith;
  asym = λ v w h. ground arith;
  negative = λ u v w h k. ground arith;
}

abbrev ann : Entry ℕ
ann = record { user_id = 1; selected_value = 80; updated_at = 10; track = "speed" }

abbrev ben : Entry ℕ
ben = record { user_id = 2; selected_value = 95; updated_at = 30; track = "size" }

sorts : sort_entries points false (ann ∷ ben ∷ []) ≡ ben ∷ ann ∷ []
unfolding sort_entries insert_entry
sorts = refl

sort_entries-IsSorted_example :
    IsSorted points MetricSort.desc (sort_entries points false (ann ∷ ben ∷ []))
    × ((p : Entry ℕ → Bool)
        → count p (sort_entries points false (ann ∷ ben ∷ [])) ≡ count p (ann ∷ ben ∷ []))
sort_entries-IsSorted_example =
    sort_entries-IsSorted points points-IsOrder MetricSort.desc (ann ∷ ben ∷ [])

assign_ranks-numbers_example :
    (map (λ r. r.0) (rank_rows str_eq false true "speed" (ben ∷ ann ∷ [])) ≡ ben ∷ ann ∷ [])
    × (keep is_ranked (map (λ r. r.1) (rank_rows str_eq false true "speed" (ben ∷ ann ∷ [])))
        ≡ numbers 1 (count (λ e. false || track_matches str_eq true "speed" e) (ben ∷ ann ∷ [])))
assign_ranks-numbers_example = assign_ranks-numbers str_eq false true "speed" (ben ∷ ann ∷ [])
