-- ===== src/Labs/Stored.antt =====
-- What the rows of labs keep under any calls: apps/api/internal/service/labs/service.go.
use lab_kit.Prelude.{
  ℕ, ◌≡◌, refl, ap, ◌∙◌, sym, String, Option, none, some, List, [], ◌∷◌, Bool, true, arith, any,
  if◌then◌else◌, str_eq, eq_iff, Bool-cases, Option-cases, inl, inr,
}
use lab_kit.Prelude.Members.{In-append, In-map}
use lab_kit.Prelude.Results.{Result, ok, err, Result-cases, >>=-eq-ok}
use lab_kit.Manifest.{Manifest}
use lab_kit.Manifest.Validate.{parse}
use lab_kit.Manifest.Correct.{IsCorrect}
use lab_kit.Manifest.Normal.{parse_iff}
use lab_kit.Db.Labs.{LabRow, create_lab, get_lab, update_lab_manifest, rewrite_lab}
use lab_kit.Labs.{
  Call, Error, Codec, parse_and_marshal, create_row, create_checked, update_checked, check_new,
  register_lab, check_update, update_lab, same_structure, call, found, lab_not_found,
  structural_update, undecodable,
}
use lab_kit.Labs.Structure.{structure_of, same_structure_iff}
use lab_kit.Labs.Rows.{
  ReadsBack, AreLabs, KeepsStructures, Keeps, Keeps-refl, get_lab_listed, AreLabs-snoc, rewritten,
  AreLabs-map,
}

module _ (codec : Codec) where
  parse_and_marshal_inv :
      (raw : String) (m : Manifest) (text : String)
      → ReadsBack codec
      → parse_and_marshal codec raw ≡ ok (m, text)
      → IsCorrect m × (codec.unmarshal text ≡ some m)
  unfolding parse_and_marshal
  parse_and_marshal_inv raw m text reads e = elim (Result-cases (parse codec.toml codec.json raw)) [
    | inr (x, h) ↦ ground arith
    | inl (k, h) ↦ elim (Option-cases (codec.marshal k)) [
      | inl g ↦ ground arith
      | inr (t, g) ↦
          let same : k ≡ m = ground arith in
          let texts : t ≡ text = ground arith in
          let (raw_m, _, _, correct, _) = (parse_iff codec.toml codec.json raw k).0 h in
          (rw same at correct, rw (sym same, sym texts) (reads raw k t h g))
    ]
  ]

  module _ (reads : ReadsBack codec) where
    -- An insert of a correct manifest.
    created-Keeps :
        (now : ℕ) (m : Manifest) (text : String) (rows : List LabRow) (fails : Call → Bool)
        → IsCorrect m
        → codec.unmarshal text ≡ some m
        → AreLabs codec rows
        → Keeps codec rows (create_row codec fails now (m, text) rows).1
    unfolding create_lab
    created-Keeps now m text rows fails correct stored v =
        elim (Bool-cases (any (λ q. str_eq q.id m.lab.id) rows)) [
          | inl taken ↦ rw (taken, create_row) (Keeps-refl codec rows v)
          | inr free ↦
              let new : LabRow = record {
                id = m.lab.id;
                name = m.lab.name;
                manifest = text;
                manifest_updated_at = now;
                created_at = now;
              } in
              rw (free, create_row)
                (
                  AreLabs-snoc codec new rows
                      (record {
                        manifest = m;
                        decoded = stored;
                        correct = correct;
                        its_id = refl;
                        its_name = refl;
                      })
                      free v,
                  λ r k i e. (r, k, In-append r rows (new ∷ []) i, refl, e, refl),
                )
        ]

    check_new_inv :
        (fails : Call → Bool) (now : ℕ) (raw : String) (rows : List LabRow) (p : Manifest × String)
        → check_new codec fails now raw rows ≡ ok p
        → parse_and_marshal codec raw ≡ ok p
    unfolding check_new
    check_new_inv fails now raw rows p e =
        let (q, parsed, e1) = >>=-eq-ok (parse_and_marshal codec raw) _ e in
        let (_, _, e2) = >>=-eq-ok (call codec fails now Call.look_up) _ e1 in
        let (_, _, e3) = >>=-eq-ok (is_new (get_lab q.0.lab.id rows)) _ e2 in
        let (_, _, e4) = >>=-eq-ok (call codec fails now Call.create) _ e3 in
        let same : q ≡ p = ok_inj e4 in parsed ∙ ap ok same
      where
        is_new : Option LabRow → Result Error (Unit {0})
        is_new o = elim o [ none ↦ ok tt | some row ↦ err Error.lab_already_exists ]

        ok_inj :
            {a b : Manifest × String}
            → ◌≡◌ {A = Result Error (Manifest × String)} (ok a) (ok b)
            → a ≡ b
        ok_inj h = ground arith

    register-Keeps :
        (fails : Call → Bool) (now : ℕ) (raw : String) (rows : List LabRow)
        → AreLabs codec rows
        → Keeps codec rows (register_lab codec fails now raw rows).1
    unfolding register_lab
    register-Keeps fails now raw rows v = by_check (check_new codec fails now raw rows) refl
      where
        by_check :
            (c : Result Error (Manifest × String))
            → check_new codec fails now raw rows ≡ c
            → Keeps codec rows (create_checked codec fails now c rows).1
        by_check (err x) e = Keeps-refl codec rows v
        by_check (ok (m, text)) e =
            let (correct, stored) =
              parse_and_marshal_inv raw m text reads
                (check_new_inv fails now raw rows (m, text) e) in
            created-Keeps now m text rows fails correct stored v

    -- What the checks of an update found.
    record IsAllowed (id : String) (rows : List LabRow) (m : Manifest) (text : String)
        : Type 0 where
      correct : IsCorrect m
      stored : codec.unmarshal text ≡ some m
      named : m.lab.id ≡ id
      row : LabRow
      listed : get_lab id rows ≡ some row
      current : Manifest
      decoded : codec.unmarshal row.manifest ≡ some current
      alike : structure_of m ≡ structure_of current

    check_update-IsAllowed :
        (fails : Call → Bool) (now : ℕ) (id raw : String) (rows : List LabRow) (m : Manifest)
        (text : String)
        → check_update codec fails now id raw rows ≡ ok (m, text)
        → IsAllowed id rows m text
    unfolding check_update
    check_update-IsAllowed fails now id raw rows m text e =
        let (q, parsed, e1) = >>=-eq-ok (parse_and_marshal codec raw) _ e in
        let (_, named, e2) = >>=-eq-ok (test (str_eq q.0.lab.id id)) _ e1 in
        let (_, _, e3) = >>=-eq-ok (call codec fails now Call.look_up) _ e2 in
        let (row, listed, e4) = >>=-eq-ok (found lab_not_found (get_lab id rows)) _ e3 in
        let (current, decoded, e5) =
          >>=-eq-ok (found undecodable (codec.unmarshal row.manifest)) _ e4 in
        let (_, alike, e6) = >>=-eq-ok (test (same_structure current q.0)) _ e5 in
        let (_, _, e7) = >>=-eq-ok (call codec fails now Call.update) _ e6 in
        of_parts q row current (ok_inj e7) parsed (passed (str_eq q.0.lab.id id) named)
          (found_ok lab_not_found _ row listed) (found_ok undecodable _ current decoded)
          (passed (same_structure current q.0) alike)
      where
        test : Bool → Result Error (Unit {0})
        test b = if b then ok tt else err structural_update

        passed :
            (b : Bool)
            → ◌≡◌ {A = Result Error (Unit {0})} (if b then ok tt else err structural_update) (ok tt)
            → b ≡ true
        passed b h = ground arith

        ok_inj :
            {a b : Manifest × String}
            → ◌≡◌ {A = Result Error (Manifest × String)} (ok a) (ok b)
            → a ≡ b
        ok_inj h = ground arith

        found_ok : {A : Type 0} (x : Error) (o : Option A) (a : A) → found x o ≡ ok a → o ≡ some a
        found_ok x none a h = absurd (ground arith)
        found_ok x (some b) a h = ground arith

        of_parts :
            (q : Manifest × String) (row : LabRow) (current : Manifest)
            → q ≡ (m, text)
            → parse_and_marshal codec raw ≡ ok q
            → str_eq q.0.lab.id id ≡ true
            → get_lab id rows ≡ some row
            → codec.unmarshal row.manifest ≡ some current
            → same_structure current q.0 ≡ true
            → IsAllowed id rows m text
        of_parts q row current same parsed named listed decoded alike =
            let (correct, stored) = parse_and_marshal_inv raw m text reads (parsed ∙ ap ok same) in
            let first : q.0 ≡ m = ap (λ (p : Manifest × String). p.0) same in
            record {
              correct = correct;
              stored = stored;
              named = sym (ap (λ (k : Manifest). k.lab.id) first) ∙ (eq_iff q.0.lab.id id).0 named;
              row = row;
              listed = listed;
              current = current;
              decoded = decoded;
              alike = sym (ap structure_of first) ∙ sym ((same_structure_iff current q.0).0 alike);
            }

    updated-Keeps :
        (now : ℕ) (id : String) (m : Manifest) (text : String) (rows : List LabRow)
        → IsAllowed id rows m text
        → AreLabs codec rows
        → Keeps codec rows (update_lab_manifest now id m.lab.name text rows)
    unfolding update_lab_manifest
    updated-Keeps now id m text rows a v = (
      AreLabs-map codec reads now id m text rows a.correct a.stored a.named v,
      λ r k i e. elim (Bool-cases (str_eq r.id id)) [
        | inr h ↦
            let same : rewritten codec reads now id m text r ≡ r = rw h refl in
            (
              r,
              k,
              rw same at (In-map (rewritten codec reads now id m text) r rows i),
              refl,
              e,
              refl,
            )
        | inl h ↦
            let its_id : r.id ≡ id = (eq_iff r.id id).0 h in
            let it : r ≡ a.row = some_inj (
              sym (get_lab_listed codec r rows v i)
              ∙ ap (λ (x : String). get_lab x rows) its_id
              ∙ a.listed) in
            let old : k ≡ a.current =
              some_inj (sym e ∙ ap (λ (x : LabRow). codec.unmarshal x.manifest) it ∙ a.decoded) in
            let same : rewritten codec reads now id m text r ≡ rewrite_lab now m.lab.name text r =
              rw h refl in
            (
              rewrite_lab now m.lab.name text r,
              m,
              rw same at (In-map (rewritten codec reads now id m text) r rows i),
              refl,
              a.stored,
              a.alike ∙ ap structure_of (sym old),
            )
      ],
    )
      where
        some_inj : {A : Type 0} {x y : A} → some x ≡ some y → x ≡ y
        some_inj h = ground arith

    update-Keeps :
        (fails : Call → Bool) (now : ℕ) (id raw : String) (rows : List LabRow)
        → AreLabs codec rows
        → Keeps codec rows (update_lab codec fails now id raw rows).1
    unfolding update_lab
    update-Keeps fails now id raw rows v = by_check (check_update codec fails now id raw rows) refl
      where
        by_check :
            (c : Result Error (Manifest × String))
            → check_update codec fails now id raw rows ≡ c
            → Keeps codec rows (update_checked codec fails now id c rows).1
        by_check (err x) e = Keeps-refl codec rows v
        by_check (ok (m, text)) e =
            updated-Keeps now id m text rows (check_update-IsAllowed fails now id raw rows m text e)
              v

  -- A call that registers or updates a lab, with any text and failures.
  pub data Step (rows rows' : List LabRow) : Type 0 where
    registered :
        (fails : Call → Bool) (now : ℕ) (raw : String)
        → rows' ≡ (register_lab codec fails now raw rows).1
        → Step rows rows'
    updated :
        (fails : Call → Bool) (now : ℕ) (id raw : String)
        → rows' ≡ (update_lab codec fails now id raw rows).1
        → Step rows rows'

  pub data Reach (rows : List LabRow) : List LabRow → Type 0 where
    here : Reach rows rows
    next :
        {some_rows more_rows : List LabRow}
        → Reach rows some_rows
        → Step some_rows more_rows
        → Reach rows more_rows

  Step-Keeps :
      {rows rows' : List LabRow}
      → ReadsBack codec
      → Step rows rows'
      → AreLabs codec rows
      → Keeps codec rows rows'
  Step-Keeps {rows} reads (registered fails now raw e) v =
      rw e (register-Keeps reads fails now raw rows v)
  Step-Keeps {rows} reads (updated fails now id raw e) v =
      rw e (update-Keeps reads fails now id raw rows v)

  -- Whatever labs are registered and updated, with any texts and failures, and if json.Unmarshal undoes
  -- json.Marshal on parsed manifests: ids stay unique, every row holds a correct manifest with the id and the name of the
  -- row, and each lab that was there is still there, with a manifest of the same structure.
  pub Reach-AreLabs :
      {rows rows' : List LabRow}
      → ReadsBack codec
      → AreLabs codec rows
      → Reach rows rows'
      → AreLabs codec rows' × KeepsStructures codec rows rows'
  Reach-AreLabs {rows} reads v here = Keeps-refl codec rows v
  Reach-AreLabs reads v (next reach step) =
      let (v', before) = Reach-AreLabs reads v reach in
      let (v'', after) = Step-Keeps reads step v' in
      (
        v'',
        λ r m i e.
            let (q, k, j, same, d, alike) = before r m i e in
            let (q', k', j', same', d', alike') = after q k j d in
            (q', k', j', same' ∙ same, d', alike' ∙ alike),
      )
