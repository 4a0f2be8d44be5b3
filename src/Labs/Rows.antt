-- ===== src/Labs/Rows.antt =====
-- The rows of labs and one update of them: apps/api/internal/service/labs/service.go.
use lab_kit.Prelude.{
  ℕ, ◌≡◌, ◌≢◌, refl, ◌∙◌, sym, String, some, List, [], ◌∷◌, ◌++◌, true, false, arith, map, any, All,
  All-append, All-In, In, if◌then◌else◌, str_eq, eq_iff, Bool-cases, inl, inr, ◌⊎◌,
}
use lab_kit.Prelude.Results.{ok}
use lab_kit.Manifest.{Manifest}
use lab_kit.Manifest.Validate.{parse}
use lab_kit.Manifest.Correct.{IsCorrect}
use lab_kit.Db.Labs.{LabRow, get_lab, rewrite_lab}
use lab_kit.Labs.{Codec}
use lab_kit.Labs.Structure.{structure_of}

module _ (codec : Codec) where
  -- json.Unmarshal undoes json.Marshal on what Parse returns.
  abbrev pub ReadsBack : Type 0
  ReadsBack =
      (raw : String) (m : Manifest) (text : String)
      → parse codec.toml codec.json raw ≡ ok m
      → codec.marshal m ≡ some text
      → codec.unmarshal text ≡ some m

  -- The row holds a correct manifest with its id and name.
  pub record IsLab (r : LabRow) : Type 0 where
    pub manifest : Manifest
    pub decoded : codec.unmarshal r.manifest ≡ some manifest
    pub correct : IsCorrect manifest
    pub its_id : manifest.lab.id ≡ r.id
    pub its_name : manifest.lab.name ≡ r.name

  abbrev pub AreLabs : List LabRow → Type 0
  AreLabs [] = Unit
  AreLabs (r ∷ rows) = IsLab r × All (λ q. q.id ≢ r.id) rows × AreLabs rows

  -- Each lab is still there, with a manifest of the same structure.
  abbrev pub KeepsStructures : List LabRow → List LabRow → Type 0
  KeepsStructures rows rows' =
      (r : LabRow) (m : Manifest)
      → In r rows
      → codec.unmarshal r.manifest ≡ some m
      → (r' : LabRow) × (m' : Manifest) × In r' rows'
        × (r'.id ≡ r.id)
        × (codec.unmarshal r'.manifest ≡ some m')
        × (structure_of m' ≡ structure_of m)

  abbrev pub Keeps : List LabRow → List LabRow → Type 0
  Keeps rows rows' = AreLabs rows' × KeepsStructures rows rows'

  pub Keeps-refl : (rows : List LabRow) → AreLabs rows → Keeps rows rows
  Keeps-refl rows v = (v, λ r m i e. (r, m, i, refl, e, refl))

  pub get_lab_listed :
      (r : LabRow) (rows : List LabRow) → AreLabs rows → In r rows → get_lab r.id rows ≡ some r
  unfolding get_lab
  get_lab_listed r [] v i = absurd i
  get_lab_listed r (q ∷ rows) v (inl e) = rw e (rw ((eq_iff q.id q.id).1 refl) refl)
  get_lab_listed r (q ∷ rows) v (inr i) =
      let other : str_eq q.id r.id ≡ false = alone (Bool-cases (str_eq q.id r.id)) in
      rw other (get_lab_listed r rows v.2 i)
    where
      alone : (str_eq q.id r.id ≡ true) ⊎ (str_eq q.id r.id ≡ false) → str_eq q.id r.id ≡ false
      alone (inr h) = h
      alone (inl h) =
          absurd (All-In (λ (x : LabRow). x.id ≢ q.id) r rows i v.1 (sym ((eq_iff q.id r.id).0 h)))

  pub AreLabs-snoc :
      (r : LabRow) (rows : List LabRow)
      → IsLab r
      → any (λ q. str_eq q.id r.id) rows ≡ false
      → AreLabs rows
      → AreLabs (rows ++ r ∷ [])
  AreLabs-snoc r [] l a v = (l, tt, tt)
  AreLabs-snoc r (q ∷ rows) l a (h, alone, rest) = (
    h,
    All-append (λ x. x.id ≢ q.id) rows (r ∷ []) alone ((λ e. differ (sym e)), tt),
    AreLabs-snoc r rows l (ground arith) rest,
  )
    where
      differ : q.id ≡ r.id → ⊥
      differ e = let same = (eq_iff q.id r.id).1 e in ground arith

  module _ (reads : ReadsBack) where
    module _ (now : ℕ) (id : String) (m : Manifest) (text : String) where
      abbrev pub rewritten : LabRow → LabRow
      rewritten r = if str_eq r.id id then rewrite_lab now m.lab.name text r else r

      rewritten_id : (r : LabRow) → (rewritten r).id ≡ r.id
      rewritten_id r = elim (Bool-cases (str_eq r.id id)) [ inl h ↦ rw h refl | inr h ↦ rw h refl ]

      rewritten-IsLab :
          (r : LabRow)
          → IsCorrect m
          → codec.unmarshal text ≡ some m
          → m.lab.id ≡ id
          → IsLab r
          → IsLab (rewritten r)
      rewritten-IsLab r correct stored named l = elim (Bool-cases (str_eq r.id id)) [
        | inr h ↦ rw h l
        | inl h ↦ rw h (record {
          manifest = m;
          decoded = stored;
          correct = correct;
          its_id = named ∙ sym ((eq_iff r.id id).0 h);
          its_name = refl;
        })
      ]

      pub AreLabs-map :
          (rows : List LabRow)
          → IsCorrect m
          → codec.unmarshal text ≡ some m
          → m.lab.id ≡ id
          → AreLabs rows
          → AreLabs (map rewritten rows)
      AreLabs-map [] correct stored named v = tt
      AreLabs-map (r ∷ rows) correct stored named (l, alone, rest) = (
        rewritten-IsLab r correct stored named l,
        alone_map rows alone,
        AreLabs-map rows correct stored named rest,
      )
        where
          alone_map :
              (qs : List LabRow)
              → All (λ q. q.id ≢ r.id) qs
              → All (λ q. q.id ≢ (rewritten r).id) (map rewritten qs)
          alone_map [] h = tt
          alone_map (q ∷ qs) (h, t) =
              (λ e. h (sym (rewritten_id q) ∙ e ∙ rewritten_id r), alone_map qs t)
