-- ===== src/Sessions/Ticket.antt =====
-- What a ticket is good for: apps/api/internal/service/websession/service.go.
use lab_kit.Prelude.{
  ℕ, ◌+◌, ◌≤◌, ◌<◌, ◌≡◌, refl, String, none, some, List, [], ◌∷◌, ◌++◌, Bool, true, false, not,
  arith, any, keep, count, find, length, length-append, str_eq, eq_iff, ap, ◌∙◌,
}
use lab_kit.Prelude.Text.{is_empty, trim_space}
use lab_kit.Prelude.Results.{ok}
use lab_kit.Sessions.{
  Call, Web, Row, CreateInput, Created, Consumed, is_active, cleanup_expired, create_row, is_ticket,
  consume_row, limit_of, row_of, create_in_tx, create_ticket, consume_ticket,
}

keep_all :
    (now : ℕ) (rows : List Row)
    → count (is_active now) (keep (is_active now) rows) ≡ length (keep (is_active now) rows)
keep_all now [] = refl
keep_all now (r ∷ rows) = ground (arith, keep_all now rows)

find-none :
    (hash : String) (now now' : ℕ) (rows : List Row)
    → find
        (is_ticket hash now')
        (keep (is_active now') (keep (λ q. not (is_ticket hash now q)) (keep (is_active now) rows)))
      ≡ none
find-none hash now now' [] = refl
find-none hash now now' (r ∷ rows) = ground (arith, find-none hash now now' rows)

module _ (web : Web) (fails : Call → Bool) where
  create_in_tx_inv :
      (i : CreateInput) (ticket : String) (max now expires_at : ℕ) (rows rows' : List Row)
      → create_in_tx web fails i ticket max now expires_at rows ≡ ok rows'
      → (count (is_active now) (cleanup_expired now rows) < limit_of max)
        × (rows' ≡ cleanup_expired now rows ++ row_of web fails i ticket expires_at ∷ [])
        × (any (λ q. str_eq q.ticket_hash (web.hash ticket)) (cleanup_expired now rows) ≡ false)
  unfolding create_in_tx create_row
  create_in_tx_inv i ticket max now expires_at rows rows' e =
      (ground arith, ground arith, ground arith)

  create_ticket_inv :
      (i : CreateInput) (ticket : String) (max now clock ttl : ℕ) (rows rows' : List Row)
      (c : Created)
      → create_ticket web fails i ticket max now clock ttl rows ≡ (ok c, rows')
      → create_in_tx web fails i ticket max now (clock + ttl) rows ≡ ok rows'
  unfolding create_ticket
  create_ticket_inv i ticket max now clock ttl rows rows' c e = ground arith

  -- A ticket that is created is one of at most the limit, whatever stood in the table before: the
  -- expired tickets are gone, and the new one is the last row.
  pub create_ticket-le-limit :
      (i : CreateInput) (ticket : String) (max now clock ttl : ℕ) (rows rows' : List Row)
      (c : Created)
      → create_ticket web fails i ticket max now clock ttl rows ≡ (ok c, rows')
      → (length rows' ≤ limit_of max)
        × (rows' ≡ cleanup_expired now rows ++ row_of web fails i ticket (clock + ttl) ∷ [])
  unfolding cleanup_expired
  create_ticket-le-limit i ticket max now clock ttl rows rows' c e =
      let (few, all_rows, _) =
        create_in_tx_inv i ticket max now (clock + ttl) rows rows'
          (create_ticket_inv i ticket max now clock ttl rows rows' c e) in
      let size = ap (λ r. length r) all_rows in
      let parts =
        length-append (keep (is_active now) rows) (row_of web fails i ticket (clock + ttl) ∷ []) in
      let kept = keep_all now rows in (ground arith, all_rows)

  consume_ticket_inv :
      (ticket : String) (now : ℕ) (rows rows' : List Row) (c : Consumed)
      → consume_ticket web fails ticket now rows ≡ (ok c, rows')
      → rows'
        ≡ keep
            (λ q. not (is_ticket (web.hash (trim_space ticket)) now q))
            (cleanup_expired now rows)
  unfolding consume_ticket consume_row
  consume_ticket_inv ticket now rows rows' c e = ground arith

-- A ticket is good once: after it was consumed, no call with the same ticket gets a session, at
-- whatever time and with whatever failures.
pub consume_ticket-once :
    (web : Web) (fails fails' : Call → Bool) (ticket : String) (now now' : ℕ)
    (rows rows' : List Row) (c : Consumed)
    → consume_ticket web fails ticket now rows ≡ (ok c, rows')
    → (c' : Consumed) → ¬ ((consume_ticket web fails' ticket now' rows').0 ≡ ok c')
unfolding consume_ticket consume_row cleanup_expired
consume_ticket-once web fails fails' ticket now now' rows rows' c e c' h =
    let left = consume_ticket_inv web fails ticket now rows rows' c e in
    let gone =
      ap (λ r. find (is_ticket (web.hash (trim_space ticket)) now') (keep (is_active now') r)) left
      ∙ find-none (web.hash (trim_space ticket)) now now' rows in
    ground arith

find_last :
    (hash : String) (now : ℕ) (rows : List Row) (r : Row)
    → any (λ q. str_eq q.ticket_hash hash) rows ≡ false
    → is_ticket hash now r ≡ true
    → find (is_ticket hash now) (keep (is_active now) (rows ++ r ∷ [])) ≡ some r
find_last hash now [] r free it = ground arith
find_last hash now (q ∷ rows) r free it = ground (arith, find_last hash now rows r)

consume_found :
    (web : Web) (fails : Call → Bool) (ticket : String) (now : ℕ) (rows : List Row) (r : Row)
    → ((k : Call) → fails k ≡ false)
    → is_empty (trim_space ticket) ≡ false
    → find (is_ticket (web.hash (trim_space ticket)) now) (keep (is_active now) rows) ≡ some r
    → (consume_ticket web fails ticket now rows).0
      ≡ ok (record { user_id = r.user_id; key_id = r.key_id; redirect_path = r.redirect_path })
unfolding consume_ticket consume_row cleanup_expired
consume_found web fails ticket now rows r up named found =
    ground (arith, up Call.begin, up Call.cleanup, up Call.consume, up Call.commit)

-- A ticket that was created gives, when it is consumed before it expires and no call fails, the
-- session that it was created for: the user, the key and the trimmed path.
pub consume_ticket-create_ticket :
    (web : Web) (fails fails' : Call → Bool) (i : CreateInput) (ticket : String)
    (max now clock ttl now' : ℕ) (rows rows' : List Row) (c : Created)
    → create_ticket web fails i ticket max now clock ttl rows ≡ (ok c, rows')
    → trim_space ticket ≡ ticket
    → is_empty ticket ≡ false
    → now' < clock + ttl
    → ((k : Call) → fails' k ≡ false)
    → (consume_ticket web fails' ticket now' rows').0
      ≡ ok (record {
        user_id = i.user_id;
        key_id = i.key_id;
        redirect_path = trim_space i.redirect_path;
      })
consume_ticket-create_ticket web fails fails' i ticket max now clock ttl now' rows rows' c e trimmed
      named soon up =
    let (_, all_rows, free) =
      create_in_tx_inv web fails i ticket max now (clock + ttl) rows rows'
        (create_ticket_inv web fails i ticket max now clock ttl rows rows' c e) in
    let r = row_of web fails i ticket (clock + ttl) in
    let it : is_ticket (web.hash ticket) now' r ≡ true =
      ground (arith, eq_iff (web.hash ticket) (web.hash ticket)) in
    consume_found web fails' ticket now' rows' r up (rw trimmed named) (
      rw (trimmed, all_rows)
        (find_last (web.hash ticket) now' (cleanup_expired now rows) r free it))
