-- ===== src/Db/Board.antt =====
-- The queries on `scores`, `leaderboard` and `used_nonces`:
-- packages/go/db/sqlc/{submissions,leaderboard}.sql.go and the statements in the repositories.
use lab_kit.Prelude.{
  String, List, [], ◌∷◌, ◌++◌, Bool, true, false, ◌&&◌, ◌==◌, any, ltb, if◌then◌else◌, str_eq,
}
use lab_kit.Db.Rows.{Score, BoardRow}

-- CreateScore, with ON CONFLICT DO UPDATE.
unfoldable pub create_score : {V : Type 0} → Score V → List (Score V) → List (Score V)
create_score s [] = s ∷ []
create_score s (t ∷ ts) =
    if t.submission_id == s.submission_id && str_eq t.metric_id s.metric_id
    then s ∷ ts
    else t ∷ create_score s ts

-- UpsertLeaderboardEntry
unfoldable pub upsert_entry : BoardRow → List BoardRow → List BoardRow
upsert_entry r [] = r ∷ []
upsert_entry r (q ∷ qs) =
    if q.user_id == r.user_id && str_eq q.lab_id r.lab_id then r ∷ qs else q ∷ upsert_entry r qs

-- ORDER BY updated_at DESC; ties in the order of insertion.
unfoldable pub insert_recent : BoardRow → List BoardRow → List BoardRow
insert_recent r [] = r ∷ []
insert_recent r (q ∷ qs) =
    if ltb r.updated_at q.updated_at then q ∷ insert_recent r qs else r ∷ q ∷ qs

-- ListLeaderboardByLab
unfoldable pub list_leaderboard : String → List BoardRow → List BoardRow
list_leaderboard lab [] = []
list_leaderboard lab (r ∷ rows) =
    let rest = list_leaderboard lab rows in
    if str_eq r.lab_id lab then insert_recent r rest else rest

-- INSERT INTO used_nonces … ON CONFLICT DO NOTHING: whether a row was added, and the table.
unfoldable pub reserve_nonce : String → List String → Bool × List String
reserve_nonce nonce used =
    if any (λ n. str_eq n nonce) used then (false, used) else (true, used ++ nonce ∷ [])
