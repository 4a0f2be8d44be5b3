-- ===== src/Submissions/Keys.antt =====
-- GetUserKeyByFingerprint of apps/api/internal/service/submissions/service.go, with its queries on
-- `user_keys` (packages/go/db/sqlc/auth.sql.go). The table is given newest first, the order of
-- ListActiveUserKeys.
use lab_kit.Prelude.{
  ℕ, String, Option, none, some, List, Bool, false, ◌&&◌, not, map, find, ◌==◌, if◌then◌else◌,
  str_eq,
}
use lab_kit.Db.{UserKey}
use lab_kit.Prelude.Text.{is_empty, trim_space}

-- ssh.ParseAuthorizedKey with the casts of parseAuthorizedKey, and auth.PublicKeyFingerprint.
pub record KeyCodec : Type 0 where
  pub parse : String → Option (List ℕ)
  pub fingerprint : List ℕ → String

abbrev pub has_text : Option String → Bool
has_text none = false
has_text (some s) = not (is_empty (trim_space s))

-- The parameter `fingerprintText` against the column: NULL is equal to nothing.
abbrev pub is_keyed : String → UserKey → Bool
is_keyed fingerprint key = elim key.fingerprint [
  | none ↦ false
  | some f ↦ not (is_empty (trim_space fingerprint)) && str_eq f fingerprint && not key.is_revoked
]

-- UpdateUserKeyFingerprint
abbrev pub set_fingerprint : ℕ → String → List UserKey → List UserKey
set_fingerprint id fingerprint = map (λ key. elim key.fingerprint [
  | some _ ↦ key
  | none ↦
      if key.id == id
      then record key {
        fingerprint = if is_empty (trim_space fingerprint) then none else some fingerprint;
      }
      else key
])

-- A key without a stored fingerprint whose own fingerprint is the one asked for.
abbrev pub is_match : KeyCodec → String → UserKey → Bool
is_match codec fingerprint key =
    if key.is_revoked
    then false
    else if has_text key.fingerprint
    then false
    else elim (codec.parse key.public_key) [
      | none ↦ false
      | some k ↦ str_eq (codec.fingerprint k) fingerprint
    ]

-- GetUserKeyByFingerprint; none is pgx.ErrNoRows, and an error of the update is ignored.
unfoldable pub get_user_key :
    KeyCodec → Bool → String → List UserKey → Option UserKey × List UserKey
unfolding trim_space
get_user_key codec update_fails fingerprint keys = elim (find (is_keyed fingerprint) keys) [
  | some key ↦ (some key, keys)
  | none ↦ (elim (find (is_match codec fingerprint) keys) [
    | none ↦ (none, keys)
    | some key ↦ (some key, if update_fails then keys else set_fingerprint key.id fingerprint keys)
  ])
]
