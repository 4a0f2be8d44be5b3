-- ===== src/Sessions/Tests.antt =====
-- Tickets on small tables: apps/api/internal/service/websession.
use lab_kit.Prelude.{◌≤◌, ◌≡◌, refl, some, [], ◌∷◌, ◌++◌, Bool, false, length, arith}
use lab_kit.Prelude.Int.{pos}
use lab_kit.Prelude.Text.{trim_space}
use lab_kit.Prelude.Results.{ok, err}
use lab_kit.Sessions.{
  Call, Error, Web, Row, CreateInput, Created, Consumed, create_ticket, create_in_tx, create_row,
  consume_ticket, consume_row, cleanup_expired, valid_redirect_path, row_of, limit_of,
}
use lab_kit.Sessions.Ticket.{
  create_ticket-le-limit, consume_ticket-once, consume_ticket-create_ticket,
}

abbrev plain : Web
plain = record { hash = λ s. s; parse = λ s. some (record { scheme = ""; host = ""; path = s }) }

abbrev up : Call → Bool
up c = false

abbrev input : CreateInput
input = record { user_id = pos 4; key_id = pos 3; redirect_path = " /admin" }

abbrev expired : Row
expired = record {
  ticket_hash = "old";
  user_id = pos 9;
  key_id = pos 9;
  redirect_path = "/";
  expires_at = 100;
}

abbrev fresh : Row
fresh = record {
  ticket_hash = "t1";
  user_id = pos 4;
  key_id = pos 3;
  redirect_path = "/admin";
  expires_at = 260;
}

abbrev answer : Created
answer = record { ticket = "t1"; redirect_url = "/auth/session#ticket=t1"; expires_at = 260 }

creates : create_ticket plain up input "t1" 1 200 200 60 (expired ∷ []) ≡ (ok answer, fresh ∷ [])
unfolding create_ticket create_in_tx create_row cleanup_expired valid_redirect_path trim_space
creates = refl

over_limit :
    create_ticket plain up input "t2" 1 210 210 60 (fresh ∷ [])
    ≡ (err Error.limit_reached, fresh ∷ [])
unfolding create_ticket create_in_tx create_row cleanup_expired valid_redirect_path trim_space
over_limit = refl

abbrev session : Consumed
session = record { user_id = pos 4; key_id = pos 3; redirect_path = "/admin" }

consumes : consume_ticket plain up "t1" 250 (fresh ∷ []) ≡ (ok session, [])
unfolding consume_ticket consume_row cleanup_expired trim_space
consumes = refl

create_ticket-le-limit_example :
    (length (fresh ∷ []) ≤ limit_of 1)
    × ((fresh ∷ []) ≡ cleanup_expired 200 (expired ∷ []) ++ row_of plain up input "t1" 260 ∷ [])
create_ticket-le-limit_example =
    create_ticket-le-limit plain up input "t1" 1 200 200 60 (expired ∷ []) (fresh ∷ []) answer
      creates

consume_ticket-once_example : ¬ ((consume_ticket plain up "t1" 251 []).0 ≡ ok session)
consume_ticket-once_example =
    consume_ticket-once plain up up "t1" 250 251 (fresh ∷ []) [] session consumes session

trimmed : trim_space "t1" ≡ "t1"
unfolding trim_space
trimmed = refl

consume_ticket-create_ticket_example :
    (consume_ticket plain up "t1" 250 (fresh ∷ [])).0
    ≡ ok (record { user_id = pos 4; key_id = pos 3; redirect_path = trim_space " /admin" })
consume_ticket-create_ticket_example =
    consume_ticket-create_ticket plain up up input "t1" 1 200 200 60 250 (expired ∷ []) (fresh ∷ [])
      answer creates trimmed refl (ground arith) (λ k. refl)
