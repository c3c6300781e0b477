-- ===== src/Tickets/Keys.antt =====
-- The keys of the tables: one row for a ticket id, one ticket for a signal, every ticket with its
-- signal, and audit events numbered without a gap.
use dtlab_control_center.Prelude.{
  ℕ, ◌+◌, ◌≡◌, refl, ap, true, false, none, List, [], ◌∷◌, ◌++◌, Text, is_some, find, update, All,
  All-append, All-Unit, arith, find-append, find-update, Distinct, Distinct-append, All-update_key,
  Distinct-update,
}
use dtlab_control_center.Tickets.Model.{Ticket, Signal, Db, Details, AuditEvent, empty_db}
use dtlab_control_center.Tickets.Sla.{Env}
use dtlab_control_center.Tickets.Tables.{
  ticket_at, signal_at, for_signal, breaks_ticket_keys, update_ticket, touch_ticket, audit,
  update_task,
}
use dtlab_control_center.Tickets.Operations.{open_ticket}
use dtlab_control_center.Tickets.Workflow.{
  change_status, write_owner, write_priority, reschedule, set_task_status,
}
use dtlab_control_center.Tickets.Signals.{
  Runtime, insert_signal, update_signal, seen_again, insert_occurrence, insert_ingest,
}
use dtlab_control_center.Tickets.History.{Request, serve}
use dtlab_control_center.Tickets.Keeps.{
  Keeps-open_ticket, Keeps-modify, Keeps-insert_task, Keeps-insert_comment, Keeps, Keeps-bind,
}
use dtlab_control_center.Tickets.Rules.{Rules, serve-Keeps}

-- Numbered from `n + 1` up to `m`.
abbrev pub NumberedFrom : ℕ → List AuditEvent → ℕ → Type 0
NumberedFrom n [] m = n ≡ m
NumberedFrom n (e ∷ rest) m = (e.sequence ≡ n + 1) × NumberedFrom (n + 1) rest m

NumberedFrom-append :
    (n m : ℕ) (es : List AuditEvent) (e : AuditEvent)
    → NumberedFrom n es m
    → e.sequence ≡ m + 1
    → NumberedFrom n (es ++ e ∷ []) (m + 1)
NumberedFrom-append n m [] e h s = (rw h s, ap (λ (k : ℕ). k + 1) h)
NumberedFrom-append n m (x ∷ es) e h s = (h.0, NumberedFrom-append (n + 1) m es e h.1 s)

abbrev HasSignal : List Signal → Text → Type 0
HasSignal signals id = is_some (find (signal_at id) signals) ≡ true

pub record IsKeyed (db : Db) : Type 0 where
  pub ids : Distinct (λ (t : Ticket). t.id) db.tickets
  pub one_per_signal : Distinct (λ (t : Ticket). t.signal_id) db.tickets
  pub linked : All (λ t. HasSignal db.signals t.signal_id) db.tickets
  pub numbered : NumberedFrom 0 db.audit db.audit_sequence

update-IsKeyed :
    (id : Text) (change : Ticket → Ticket)
    → ((t : Ticket) → (change t).id ≡ t.id)
    → ((t : Ticket) → (change t).signal_id ≡ t.signal_id)
    → Keeps IsKeyed (update_ticket id change)
unfolding update_ticket
update-IsKeyed id change keep keep_signal = Keeps-modify _ λ db h. record {
  ids = Distinct-update (λ (t : Ticket). t.id) (ticket_at id) change keep db.tickets h.ids;
  one_per_signal =
      Distinct-update (λ (t : Ticket). t.signal_id) (ticket_at id) change keep_signal db.tickets
        h.one_per_signal;
  linked =
      All-update_key (λ (t : Ticket). t.signal_id) (HasSignal db.signals) (ticket_at id) change
        keep_signal db.tickets h.linked;
  numbered = h.numbered;
}

audit-IsKeyed : (id actor : Text) (now : ℕ) (d : Details) → Keeps IsKeyed (audit id actor now d)
unfolding audit
audit-IsKeyed id actor now d = Keeps-modify _ λ db h. record {
  ids = h.ids;
  one_per_signal = h.one_per_signal;
  linked = h.linked;
  numbered = NumberedFrom-append 0 db.audit_sequence db.audit _ h.numbered refl;
}

All-mono :
    {A : Type 0} (P Q : A → Type 0) → ((a : A) → P a → Q a) → (xs : List A) → All P xs → All Q xs
All-mono P Q f [] h = tt
All-mono P Q f (x ∷ xs) h = (f x h.0, All-mono P Q f xs h.1)

HasSignal-append :
    (xs : List Signal) (row : Signal) (id : Text) → HasSignal xs id → HasSignal (xs ++ row ∷ []) id
HasSignal-append xs row id h = rw find-append (ground arith)

HasSignal-update :
    (xs : List Signal) (key id : Text) (change : Signal → Signal)
    → ((s : Signal) → (change s).id ≡ s.id)
    → HasSignal xs id
    → HasSignal (update (signal_at key) change xs) id
HasSignal-update xs key id change keep h =
    rw (find-update (λ (s : Signal). s.id) change keep id key xs) (ground arith)

signals-IsKeyed :
    (f : List Signal → List Signal)
    → ((xs : List Signal) (id : Text) → HasSignal xs id → HasSignal (f xs) id)
    → (db : Db) → IsKeyed db
    → IsKeyed (record db { signals = f db.signals })
signals-IsKeyed f grow db h = record {
  ids = h.ids;
  one_per_signal = h.one_per_signal;
  linked = All-mono _ _ (λ t p. grow db.signals t.signal_id p) db.tickets h.linked;
  numbered = h.numbered;
}

same-IsKeyed :
    (db db' : Db)
    → db'.tickets ≡ db.tickets
    → db'.signals ≡ db.signals
    → db'.audit ≡ db.audit
    → db'.audit_sequence ≡ db.audit_sequence
    → IsKeyed db
    → IsKeyed db'
same-IsKeyed db db' t s a n h = record {
  ids = rw t h.ids;
  one_per_signal = rw t h.one_per_signal;
  linked = rw (t, s) h.linked;
  numbered = rw (a, n) h.numbered;
}

free_keys :
    (t : Ticket) (db : Db)
    → breaks_ticket_keys t db ≡ false
    → (find (ticket_at t.id) db.tickets ≡ none)
      × (find (for_signal t.signal_id) db.tickets ≡ none)
      × HasSignal db.signals t.signal_id
free_keys t db free = (ground arith, ground arith, ground arith)

open_ticket-IsKeyed : (t : Ticket) → Keeps IsKeyed (open_ticket t)
open_ticket-IsKeyed t = Keeps-open_ticket t λ db h free.
    let (id, signal, has) = free_keys t db free in
    record {
      ids = Distinct-append (λ (t : Ticket). t.id) t db.tickets h.ids id;
      one_per_signal =
          Distinct-append (λ (t : Ticket). t.signal_id) t db.tickets h.one_per_signal signal;
      linked =
          All-append (λ t. HasSignal db.signals t.signal_id) db.tickets (t ∷ []) h.linked (has, tt);
      numbered = NumberedFrom-append 0 db.audit_sequence db.audit _ h.numbered refl;
    }

Keyed-rules : Rules IsKeyed (λ t. Unit {0})
unfolding change_status insert_signal update_signal seen_again insert_ingest insert_occurrence
    write_owner write_priority reschedule touch_ticket set_task_status update_task
Keyed-rules = record {
  rows = λ db h. All-Unit db.tickets;
  opens = λ t _ _ _. open_ticket-IsKeyed t;
  moves = λ env row target actor note _ _.
      Keeps-bind _ _ (update-IsKeyed row.id _ (λ t. refl) (λ t. refl))
        λ _. audit-IsKeyed row.id actor env.now _;
  owns = λ env row owner actor.
      Keeps-bind _ _ (update-IsKeyed row.id _ (λ t. refl) (λ t. refl))
        λ _. audit-IsKeyed row.id actor env.now _;
  ranks = λ env row p due actor.
      Keeps-bind _ _ (update-IsKeyed row.id _ (λ t. refl) (λ t. refl))
        λ _. audit-IsKeyed row.id actor env.now _;
  reschedules = λ env row due actor.
      Keeps-bind _ _ (update-IsKeyed row.id _ (λ t. refl) (λ t. refl))
        λ _. audit-IsKeyed row.id actor env.now _;
  touches = λ id now. update-IsKeyed id _ (λ t. refl) (λ t. refl);
  adds_task = λ t _ _. Keeps-insert_task t λ db h _. same-IsKeyed db _ refl refl refl refl h;
  adds_comment = λ c. Keeps-insert_comment c λ db h. same-IsKeyed db _ refl refl refl refl h;
  notes_comment = λ id actor now c. audit-IsKeyed id actor now _;
  notes_task = λ id actor now t n title. audit-IsKeyed id actor now _;
  completes = λ env row target actor.
      Keeps-bind _ _ (Keeps-modify _ λ db h. same-IsKeyed db _ refl refl refl refl h) λ _.
        Keeps-bind _ _ (update-IsKeyed row.ticket_id _ (λ t. refl) (λ t. refl))
          λ _. audit-IsKeyed row.ticket_id actor env.now _;
  adds_signal = λ rt row.
      Keeps-modify _ λ db h.
        signals-IsKeyed (λ xs. xs ++ row ∷ []) (λ xs id p. HasSignal-append xs row id p) db h;
  sees_signal = λ rt env id row c. Keeps-modify _ λ db h.
      signals-IsKeyed (λ xs. update (signal_at id) (λ old. seen_again rt env row old c) xs)
        (λ xs i p. HasSignal-update xs id i _ (λ s. refl) p) db h;
  adds_occurrence = λ o. Keeps-modify _ λ db h. same-IsKeyed db _ refl refl refl refl h;
  adds_ingest = λ rt i. Keeps-modify _ λ db h. same-IsKeyed db _ refl refl refl refl h;
}

-- After any history of calls ticket ids are distinct, no signal has two tickets, every ticket
-- has its signal, and the audit events are numbered 1, 2, 3, … without a gap.
pub serve-IsKeyed :
    (rt : Runtime) (calls : List (Env × Request)) → IsKeyed (serve rt calls empty_db)
serve-IsKeyed rt calls =
    serve-Keeps Keyed-rules rt calls empty_db
      (record { ids = tt; one_per_signal = tt; linked = tt; numbered = refl })
