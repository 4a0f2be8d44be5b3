-- ===== src/Board/Order.antt =====
-- The sort and the ranks of a leaderboard: apps/api/internal/service/leaderboard/service.go.
use lab_kit.Prelude.{
  ℕ, zero, suc, ◌≡◌, refl, String, List, [], ◌∷◌, Bool, true, false, ◌||◌, arith, All, All-imp, map,
  keep, count, Bool-cases, inl, inr, ap,
}
use lab_kit.Board.{
  Float, Entry, is_before, insert_entry, sort_entries, track_matches, assign_ranks, rank_rows,
}

-- What the documentation of Go says of `<` and `!=` on floats that are not NaN.
pub record IsOrder {V : Type 0} (float : Float V) : Type 0 where
  pub differs_iff : (v w : V) → float.differs v w ≡ (float.lt v w || float.lt w v)
  pub asym : (v w : V) → float.lt v w ≡ true → float.lt w v ≡ false
  pub negative : (u v w : V) → float.lt u v ≡ false → float.lt v w ≡ false → float.lt u w ≡ false

module _ {V : Type 0} (float : Float V) (ascending : Bool) where
  -- No entry is before one that stands ahead of it.
  abbrev pub IsOrdered : List (Entry V) → Type 0
  IsOrdered [] = Unit
  IsOrdered (e ∷ entries) =
      All (λ f. is_before float ascending f e ≡ false) entries × IsOrdered entries

module _ {V : Type 0} (float : Float V) (o : IsOrder float) (ascending : Bool) where
  before_asym :
      (a b : Entry V) → is_before float ascending a b ≡ true → is_before float ascending b a ≡ false
  before_asym a b h = ground (
    arith,
    o.differs_iff a.selected_value b.selected_value,
    o.differs_iff b.selected_value a.selected_value,
    o.asym a.selected_value b.selected_value,
    o.asym b.selected_value a.selected_value,
  )

  before_negative :
      (a b c : Entry V)
      → is_before float ascending a b ≡ false
      → is_before float ascending b c ≡ false
      → is_before float ascending a c ≡ false
  before_negative a b c h k = ground (
    arith,
    o.differs_iff a.selected_value b.selected_value,
    o.differs_iff b.selected_value c.selected_value,
    o.differs_iff a.selected_value c.selected_value,
    o.asym a.selected_value b.selected_value,
    o.asym b.selected_value a.selected_value,
    o.asym b.selected_value c.selected_value,
    o.asym c.selected_value b.selected_value,
    o.negative a.selected_value b.selected_value c.selected_value,
    o.negative c.selected_value b.selected_value a.selected_value,
    o.negative b.selected_value a.selected_value c.selected_value,
    o.negative a.selected_value c.selected_value b.selected_value,
    o.negative c.selected_value a.selected_value b.selected_value,
    o.negative b.selected_value c.selected_value a.selected_value,
  )

  insert-All :
      (P : Entry V → Type 0) (e : Entry V) (entries : List (Entry V))
      → P e
      → All P entries
      → All P (insert_entry float ascending e entries)
  unfolding insert_entry
  insert-All P e [] p h = (p, tt)
  insert-All P e (f ∷ entries) p (q, h) = elim (Bool-cases (is_before float ascending f e)) [
    | inl b ↦ rw b (q, insert-All P e entries p h)
    | inr b ↦ rw b (p, (q, h))
  ]

  insert-IsOrdered :
      (e : Entry V) (entries : List (Entry V))
      → IsOrdered float ascending entries
      → IsOrdered float ascending (insert_entry float ascending e entries)
  unfolding insert_entry
  insert-IsOrdered e [] s = (tt, tt)
  insert-IsOrdered e (f ∷ entries) (h, s) = elim (Bool-cases (is_before float ascending f e)) [
    | inl b ↦ rw b (
      insert-All (λ g. is_before float ascending g f ≡ false) e entries (before_asym f e b) h,
      insert-IsOrdered e entries s,
    )
    | inr b ↦ rw b ((b, All-imp (λ g k. before_negative g f e k b) entries h), (h, s))
  ]

  count-insert :
      (p : Entry V → Bool) (e : Entry V) (entries : List (Entry V))
      → count p (insert_entry float ascending e entries) ≡ count p (e ∷ entries)
  unfolding insert_entry
  count-insert p e [] = refl
  count-insert p e (f ∷ entries) = ground (arith, count-insert p e entries)

  pub count-sort :
      (p : Entry V → Bool) (entries : List (Entry V))
      → count p (sort_entries float ascending entries) ≡ count p entries
  unfolding sort_entries
  count-sort p [] = refl
  count-sort p (e ∷ entries) =
      ground (arith, count-sort p entries, count-insert p e (sort_entries float ascending entries))

  pub sorted :
      (entries : List (Entry V)) → IsOrdered float ascending (sort_entries float ascending entries)
  unfolding sort_entries
  sorted [] = tt
  sorted (e ∷ entries) = insert-IsOrdered e (sort_entries float ascending entries) (sorted entries)

-- `size` numbers from `first` on.
abbrev pub numbers : ℕ → ℕ → List ℕ
numbers first zero = []
numbers first (suc size) = first ∷ numbers (suc first) size

abbrev pub is_ranked : ℕ → Bool
is_ranked zero = false
is_ranked (suc _) = true

module _ {V : Type 0} (equal_fold : String → String → Bool) (rank_all pick : Bool)
    (metric : String) where
  ranks_from :
      (next : ℕ) (entries : List (Entry V))
      → keep is_ranked
          (map (λ r. r.1) (assign_ranks equal_fold rank_all pick metric (suc next) entries))
        ≡ numbers
            (suc next)
            (count (λ e. rank_all || track_matches equal_fold pick metric e) entries)
  unfolding assign_ranks
  ranks_from next [] = refl
  ranks_from next (e ∷ entries) =
      elim (Bool-cases (rank_all || track_matches equal_fold pick metric e)) [
        | inl b ↦ rw b (ap (λ rest. suc next ∷ rest) (ranks_from (suc next) entries))
        | inr b ↦ rw b (ranks_from next entries)
      ]

  same_rows :
      (next : ℕ) (entries : List (Entry V))
      → map (λ r. r.0) (assign_ranks equal_fold rank_all pick metric next entries) ≡ entries
  unfolding assign_ranks
  same_rows next [] = refl
  same_rows next (e ∷ entries) =
      elim (Bool-cases (rank_all || track_matches equal_fold pick metric e)) [
        | inl b ↦ rw b (ap (λ rest. e ∷ rest) (same_rows (suc next) entries))
        | inr b ↦ rw b (ap (λ rest. e ∷ rest) (same_rows next entries))
      ]

  -- The loop keeps the rows and their order, and the ranks that it gives are 1, 2, 3 and so on
  -- without a gap, one for each row that is ranked: all of them with rank_all or without pick, else
  -- those whose track is the metric.
  pub assign_ranks-numbers :
      (entries : List (Entry V))
      → (map (λ r. r.0) (rank_rows equal_fold rank_all pick metric entries) ≡ entries)
        × (keep is_ranked (map (λ r. r.1) (rank_rows equal_fold rank_all pick metric entries))
            ≡ numbers 1 (count (λ e. rank_all || track_matches equal_fold pick metric e) entries))
  assign_ranks-numbers entries = (same_rows 1 entries, ranks_from 0 entries)
