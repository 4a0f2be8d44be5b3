-- ===== src/Sessions.antt =====
-- Tickets that carry a session from the terminal to the browser:
-- apps/api/internal/service/websession/service.go with a repository, and the queries of
-- packages/go/db/sqlc/web_session_tickets.sql.go. `now` is NOW() of the transaction, `clock` the
-- service's clock; the hash and url.Parse are parameters.
pub mod Ticket
mod Tests
use Prim.Native.String.{◌++◌ as append}
use Prim.Native.Char.{code}
use lab_kit.Prelude.{
  ℕ, ◌+◌, String, Option, none, some, List, [], ◌∷◌, ◌++◌, Bool, true, false, ◌&&◌, ◌||◌, not, any,
  keep, count, find, ◌==◌, leb, ltb, if◌then◌else◌, str_eq,
}
use lab_kit.Prelude.Int.{ℤ, pos, leb_ℤ}
use lab_kit.Prelude.Text.{is_empty, trim_space}
use lab_kit.Prelude.Results.{Result, ok, err, ◌>>=◌, ◌>>◌, guard}

pub data Call : Type 0 where
  token begin lock cleanup count_active insert consume commit : Call

pub data Error : Type 0 where
  invalid_ticket invalid_redirect_path limit_reached unique_violation : Error
  driver : Call → Error

-- url.URL, as far as it is read.
pub record Url : Type 0 where
  pub scheme : String
  pub host : String
  pub path : String

pub record Web : Type 0 where
  pub hash : String → String
  pub parse : String → Option Url

-- A row of `web_session_tickets`.
pub record Row : Type 0 where
  pub ticket_hash : String
  pub user_id : ℤ
  pub key_id : ℤ
  pub redirect_path : String
  pub expires_at : ℕ

-- CreateSessionTicketInput
pub record CreateInput : Type 0 where
  pub user_id : ℤ
  pub key_id : ℤ
  pub redirect_path : String

-- CreateSessionTicketResult
pub record Created : Type 0 where
  pub ticket : String
  pub redirect_url : String
  pub expires_at : ℕ

-- ConsumeSessionTicketResult
pub record Consumed : Type 0 where
  pub user_id : ℤ
  pub key_id : ℤ
  pub redirect_path : String

abbrev pub is_active : ℕ → Row → Bool
is_active now r = ltb now r.expires_at

-- CleanupExpiredWebSessionTickets
unfoldable pub cleanup_expired : ℕ → List Row → List Row
cleanup_expired now rows = keep (is_active now) rows

-- CreateWebSessionTicket; `none` is the violation of the primary key.
unfoldable pub create_row : Row → List Row → Option (List Row)
create_row r rows =
    if any (λ q. str_eq q.ticket_hash r.ticket_hash) rows then none else some (rows ++ r ∷ [])

abbrev pub is_ticket : String → ℕ → Row → Bool
is_ticket hash now r = str_eq r.ticket_hash hash && is_active now r

-- ConsumeWebSessionTicket
unfoldable pub consume_row : String → ℕ → List Row → Option (Row × List Row)
consume_row hash now rows = elim (find (is_ticket hash now) rows) [
  | none ↦ none
  | some r ↦ some (r, keep (λ q. not (is_ticket hash now q)) rows)
]

abbrev pub starts_with : ℕ → String → Bool
starts_with c String.[] = false
starts_with c (String.◌∷◌ d s) = code d == c

abbrev pub starts_twice : ℕ → String → Bool
starts_twice c String.[] = false
starts_twice c (String.◌∷◌ d s) = code d == c && starts_with c s

-- validateRedirectPath
unfoldable pub valid_redirect_path : Web → String → Bool
unfolding trim_space
valid_redirect_path web path =
    if is_empty (trim_space path)
    then false
    else if not (starts_with b'/' path) || starts_twice b'/' path
    then false
    else (elim (web.parse path) [
      | none ↦ false
      | some u ↦ is_empty u.scheme && is_empty u.host && not (is_empty u.path)
    ])

-- The limit of a service: one that is not positive is 64.
abbrev pub limit_of : ℕ → ℕ
limit_of max = if max == 0 then 64 else max

module _ (web : Web) (fails : Call → Bool) where
  abbrev pub call : Call → Result Error (Unit {0})
  call c = if fails c then err (driver c) else ok tt

  abbrev pub row_of : CreateInput → String → ℕ → Row
  row_of i ticket expires_at = record {
    ticket_hash = web.hash ticket;
    user_id = i.user_id;
    key_id = i.key_id;
    redirect_path = trim_space i.redirect_path;
    expires_at = expires_at;
  }

  -- The transaction of CreateTicket.
  unfoldable pub create_in_tx :
      CreateInput → String → ℕ → ℕ → ℕ → List Row → Result Error (List Row)
  create_in_tx i ticket max now expires_at rows = do
    call Call.begin
    call Call.lock
    call Call.cleanup
    call Call.count_active
    guard (ltb (count (is_active now) (cleanup_expired now rows)) (limit_of max)) limit_reached
    call Call.insert
    rows' ← elim (create_row (row_of i ticket expires_at) (cleanup_expired now rows)) [
      | none ↦ err unique_violation
      | some rows' ↦ ok rows'
    ]
    call Call.commit
    ok rows'

  -- Service.CreateTicket, with a new token and a time to live.
  unfoldable pub create_ticket :
      CreateInput → String → ℕ → ℕ → ℕ → ℕ → List Row → Result Error Created × List Row
  create_ticket i ticket max now clock ttl rows =
      if leb_ℤ i.user_id (pos 0) || leb_ℤ i.key_id (pos 0)
      then (err invalid_ticket, rows)
      else if not (valid_redirect_path web (trim_space i.redirect_path))
      then (err invalid_redirect_path, rows)
      else if fails Call.token
      then (err (driver Call.token), rows)
      else (elim (create_in_tx i ticket max now (clock + ttl) rows) [
        | err e ↦ (err e, rows)
        | ok rows' ↦ (
          ok (record {
            ticket = ticket;
            redirect_url = append "/auth/session#ticket=" ticket;
            expires_at = clock + ttl;
          }),
          rows',
        )
      ])

  -- Service.ConsumeTicket; an error rolls the clean-up back.
  unfoldable pub consume_ticket : String → ℕ → List Row → Result Error Consumed × List Row
  consume_ticket ticket now rows =
      if is_empty (trim_space ticket)
      then (err invalid_ticket, rows)
      else if fails Call.begin
      then (err (driver Call.begin), rows)
      else if fails Call.cleanup
      then (err (driver Call.cleanup), rows)
      else if fails Call.consume
      then (err (driver Call.consume), rows)
      else (elim (consume_row (web.hash (trim_space ticket)) now (cleanup_expired now rows)) [
        | none ↦ (err invalid_ticket, rows)
        | some (r, rows') ↦ if fails Call.commit then (err (driver Call.commit), rows) else (
          ok (record { user_id = r.user_id; key_id = r.key_id; redirect_path = r.redirect_path }),
          rows',
        )
      ])
