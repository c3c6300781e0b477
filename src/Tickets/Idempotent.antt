-- ===== src/Tickets/Idempotent.antt =====
-- A ticket that is created again.
use dtlab_control_center.Prelude.{
  Distinct, ℕ, ◌≡◌, refl, sym, ◌∙◌, ap, Bool, false, Option, none, some, List, [], ◌∷◌, ◌++◌, Text,
  ok, find, arith, Bool-cases, inl, inr, text_eq, text_eq_refl, text_eq_sound, find-append,
  find_test, at_key, All-find,
}
use dtlab_control_center.Tickets.Model.{Ticket, Priority, Db, Signal}
use dtlab_control_center.Tickets.Validation.{required_text, optional_text, normalize_priority}
use dtlab_control_center.Tickets.Sla.{Env, sla_due_at}
use dtlab_control_center.Tickets.Tables.{
  pure, gets, modify, ◌>>=◌, select_ticket_for, insert_ticket, audit, breaks_ticket_keys,
  for_signal, ticket_at, signal_at,
}
use dtlab_control_center.Tickets.Operations.{
  NewTicket, find_or_open, open_ticket, new_ticket, create_ticket_from_signal,
}
use dtlab_control_center.Tickets.Runs.{
  step, lift_ok, by_lift, by_step, by_signal, require_signal_found, require_ticket_found,
  require_ticket_finds,
}
use dtlab_control_center.Tickets.Keys.{IsKeyed}

-- A row that is found by any test is found by its key.
find-Distinct :
    {A : Type 0} (key : A → Text) (test : A → Bool) (xs : List A) (a : A)
    → Distinct key xs
    → find test xs ≡ some a
    → find (at_key key (key a)) xs ≡ some a
unfolding find
find-Distinct key test [] a d h = h
find-Distinct key test (x ∷ xs) a d h = elim (Bool-cases (test x)) [
  | inl here ↦ let e : x ≡ a = ground arith in rw (ap key e, text_eq_refl (key a)) (ap some e)
  | inr later ↦
      let h' : find test xs ≡ some a = ground arith in
      rw (All-find (λ y. text_eq (key x) (key y) ≡ false) test xs a d.0 h')
        (find-Distinct key test xs a d.1 h')
]

some_inj : {A : Type 0} {a b : A} → some a ≡ some b → a ≡ b
some_inj h = ground arith

find_new :
    {A : Type 0} (key : A → Text) (xs : List A) (row : A)
    → find (at_key key (key row)) xs ≡ none
    → find (at_key key (key row)) (xs ++ row ∷ []) ≡ some row
unfolding find
find_new key xs row h = rw (find-append, h, text_eq_refl) refl

opened :
    (t : Ticket) (db end : Db)
    → open_ticket t db ≡ ok (tt, end)
    → (end.tickets ≡ db.tickets ++ t ∷ [])
      × (end.signals ≡ db.signals)
      × (breaks_ticket_keys t db ≡ false)
unfolding open_ticket insert_ticket audit modify ◌>>=◌
opened t db end h = elim (Bool-cases (breaks_ticket_keys t db)) [
  | inl taken ↦ absurd (ground arith)
  | inr free ↦ (ground arith, ground arith, free)
]

opened_found :
    (row : Ticket) (db mid end : Db) {key : Text} (t : Ticket) {id : Text}
    → row.signal_id ≡ id
    → find (for_signal id) db.tickets ≡ none
    → open_ticket row db ≡ ok (tt, mid)
    → key ≡ row.id
    → end ≡ mid
    → find (ticket_at key) end.tickets ≡ some t
    → (find (for_signal id) end.tickets ≡ some t) × (end.signals ≡ db.signals)
opened_found row db mid end t about fresh run k e has =
    let (tickets, signals, free) = opened row db mid run in
    let rows : end.tickets ≡ db.tickets ++ row ∷ [] = ap (λ (x : Db). x.tickets) e ∙ tickets in
    let by_id : find (ticket_at row.id) end.tickets ≡ some row =
      ap (find (ticket_at row.id)) rows
      ∙ find_new (λ (t : Ticket). t.id) db.tickets row (ground arith) in
    let same : row ≡ t =
      some_inj (sym by_id ∙ ap (λ (x : Text). find (ticket_at x) end.tickets) (sym k) ∙ has) in
    (
      ap (find (for_signal _)) rows
          ∙ ap (λ (x : Text). find (for_signal x) (db.tickets ++ row ∷ [])) (sym about)
          ∙ find_new (λ (t : Ticket). t.signal_id) db.tickets row
              (ap (λ (x : Text). find (for_signal x) db.tickets) about ∙ fresh)
          ∙ ap some same,
      ap (λ (x : Db). x.signals) e ∙ signals,
    )

-- Behind `find_or_open` the ticket that it names is the signal's ticket.
find_or_open_lem :
    (env : Env) (input : NewTicket) (s : Signal) (id actor : Text) (p : Priority) (o : Option Text)
    (due : ℕ) (old : Option Ticket) (db end : Db) (key : Text) (t : Ticket)
    → IsKeyed db
    → find (for_signal id) db.tickets ≡ old
    → find_or_open env input s id actor p o due old db ≡ ok (key, end)
    → find (ticket_at key) end.tickets ≡ some t
    → (find (for_signal id) end.tickets ≡ some t) × (end.signals ≡ db.signals)
unfolding find_or_open pure new_ticket
find_or_open_lem env input s id actor p o due (some e) db end key t keyed found run has =
    let k : e.id ≡ key = ground arith in
    let d : end ≡ db = ground arith in
    let mine : find (ticket_at e.id) db.tickets ≡ some e =
      find-Distinct (λ (t : Ticket). t.id) (for_signal id) db.tickets e keyed.ids found in
    let same : find (ticket_at key) db.tickets ≡ some t =
      rw (ap (λ (x : Db). x.tickets) d) at has in
    (rw (ap (λ (x : Db). x.tickets) d) (found ∙ sym mine ∙ rw k same), ap (λ (x : Db). x.signals) d)
find_or_open_lem env input s id actor p o due none db end key t keyed found run has =
    by_lift _ _ _ run λ title r1 run1. by_lift _ _ _ run1 λ description r2 run2.
      by_step _ _ _ run2 λ u mid r3 run3.
        opened_found (new_ticket env s id actor p o title description due) db mid end t refl found
          r3 (ground arith) (ground arith) has

-- What a creation that succeeded leaves behind, with its normalised arguments.
record Created (input : NewTicket) (end : Db) (t : Ticket) : Type 0 where
  id : Text
  actor : Text
  priority : Priority
  owner : Option Text
  signal : Signal
  id_ok : required_text input.signal_id 128 ≡ ok id
  actor_ok : required_text input.actor 256 ≡ ok actor
  priority_ok : normalize_priority input.priority ≡ ok priority
  owner_ok : optional_text input.owner 256 ≡ ok owner
  signal_found : find (signal_at id) end.signals ≡ some signal
  of_signal : find (for_signal id) end.tickets ≡ some t
  by_id : find (ticket_at t.id) end.tickets ≡ some t

selected :
    (id : Text) (db : Db) (old : Option Ticket) (mid : Db)
    → select_ticket_for id db ≡ ok (old, mid)
    → (find (for_signal id) db.tickets ≡ old) × (mid ≡ db)
unfolding select_ticket_for gets
selected id db old mid h = (ground arith, ground arith)

create-Created :
    (env : Env) (input : NewTicket) (db end : Db) (t : Ticket)
    → IsKeyed db
    → create_ticket_from_signal env input db ≡ ok (t, end)
    → Created input end t
unfolding create_ticket_from_signal
create-Created env input db end t keyed run = by_lift _ _ _ run λ id r1 run1.
    by_lift _ _ _ run1 λ actor r2 run2. by_lift _ _ _ run2 λ p r3 run3.
      by_lift _ _ _ run3 λ o r4 run4. by_lift _ _ _ run4 λ due r5 run5.
        by_signal _ _ _ run5 λ s found run6. by_step _ _ _ run6 λ old mid1 r7 run7.
          by_step _ _ _ run7 λ key mid r8 run8.
            let (has, e) = require_ticket_finds key mid run8 in
            let (mine, signals) =
              find_or_open_lem env input s id actor p o due old db mid key t keyed
                (selected id db old mid1 r7).0 (rw (selected id db old mid1 r7).1 at r8) has in
            record {
              id = id;
              actor = actor;
              priority = p;
              owner = o;
              signal = s;
              id_ok = r1;
              actor_ok = r2;
              priority_ok = r3;
              owner_ok = r4;
              signal_found = rw (ap (λ (x : Db). x.signals) e ∙ signals) found;
              of_signal = ap (λ (x : Db). find (for_signal id) x.tickets) e ∙ mine;
              by_id =
                  ap (λ (x : Db). find (ticket_at t.id) x.tickets) e
                  ∙ ap (λ (x : Text). find (ticket_at x) mid.tickets)
                      (text_eq_sound t.id key (find_test (ticket_at key) mid.tickets t has))
                  ∙ has;
            }

create-existing :
    (env : Env) (input : NewTicket) (db : Db) {t : Ticket} (c : Created input db t) (due : ℕ)
    → sla_due_at env c.priority env.now ≡ ok due
    → create_ticket_from_signal env input db ≡ ok (t, db)
unfolding create_ticket_from_signal select_ticket_for
create-existing env input db {t} c due deadline = step _ _ (lift_ok db c.id_ok) (
    step _ _ (lift_ok db c.actor_ok) (
      step _ _ (lift_ok db c.priority_ok) (
        step _ _ (lift_ok db c.owner_ok) (
          step _ _ (lift_ok db deadline) (
            step _ _ (require_signal_found c.id db c.signal c.signal_found) (
              step _ _ (gets_ok c.of_signal)
                (step _ _ (same_ticket due) (require_ticket_found t.id db t c.by_id))))))))
  where
    gets_ok :
        find (for_signal c.id) db.tickets ≡ some t
        → gets (λ d. find (for_signal c.id) d.tickets) db ≡ ok (some t, db)
    gets_ok h = unfold gets in rw h refl

    same_ticket :
        (due : ℕ)
        → find_or_open env input c.signal c.id c.actor c.priority c.owner due (some t) db
          ≡ ok (t.id, db)
    same_ticket due = unfold find_or_open pure in refl

-- In a database with the keys in order, when create_ticket_from_signal has succeeded, the same
-- call at any later time under settings that give a deadline returns the same ticket and changes
-- nothing.
pub create_again :
    (env again : Env) (input : NewTicket) (db end : Db) (t : Ticket)
    → IsKeyed db
    → create_ticket_from_signal env input db ≡ ok (t, end)
    → ((p : Priority) → (due : ℕ) × (sla_due_at again p again.now ≡ ok due))
    → create_ticket_from_signal again input end ≡ ok (t, end)
create_again env again input db end t keyed run deadlines =
    let c : Created input end t = create-Created env input db end t keyed run in
    create-existing again input end c (deadlines c.priority).0 (deadlines c.priority).1
