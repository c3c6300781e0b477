-- ===== src/Tickets/Keeps.antt =====
-- Invariants of actions, one rule for each way to build an action.
use dtlab_control_center.Prelude.{
  is_some, find, [], ◌∷◌, ◌++◌, ◌≡◌, refl, Bool, true, false, Option, none, some, Result, ok, err,
  if◌then◌else◌,
}
use dtlab_control_center.Tickets.Model.{Db, Error, integrity, Ticket, Task, Comment, created}
use dtlab_control_center.Tickets.Validation.{Checked}
use dtlab_control_center.Tickets.Tables.{
  Action, pure, raise, lift, gets, or_raise, settle, proceed, transaction, ◌>>=◌, modify,
  insert_ticket, insert_task, insert_comment, breaks_ticket_keys, breaks_task_keys, comment_at,
  logged, audit,
}
use dtlab_control_center.Tickets.Operations.{open_ticket}

-- `P` after an outcome, if there is a state after it.
abbrev pub After : {A : Type 0} → (Db → Type 0) → Result Error (A × Db) → Type 0
After P (ok (a, db)) = P db
After P (err e) = Unit

-- A write behind a guard, alone and with a step behind it.
After-if :
    (P : Db → Type 0) (e : Error) (db : Db) (b : Bool)
    → (b ≡ false → P db)
    → After P (if◌then◌else◌ {A = Result Error (Unit {0} × Db)} b (err e) (ok (tt, db)))
After-if P e db true k = tt
After-if P e db false k = k refl

After-if_then :
    {A : Type 0} (P : Db → Type 0) (e : Error) (db : Db) (b : Bool) (next : Action A)
    → (b ≡ false → After P (next db))
    → After P (
        proceed
          (if◌then◌else◌ {A = Result Error (Unit {0} × Db)} b (err e) (ok (tt, db)))
          (λ _. next))
After-if_then P e db true next k = tt
After-if_then P e db false next k = k refl

-- `m` keeps `P`.
pub record Keeps {A : Type 0} (P : Db → Type 0) (m : Action A) : Type 0 where
  pub at : (db : Db) → P db → After P (m db)

module _ {A : Type 0} {P : Db → Type 0} where
  pub Keeps-pure : (a : A) → Keeps P (pure a)
  unfolding pure
  Keeps-pure a = record { at = λ db h. h }

  pub Keeps-raise : (e : Error) → Keeps P (raise {A = A} e)
  unfolding raise
  Keeps-raise e = record { at = λ db h. tt }

  pub Keeps-gets : (f : Db → A) → Keeps P (gets f)
  unfolding gets
  Keeps-gets f = record { at = λ db h. h }

  pub Keeps-lift : (c : Checked A) → Keeps P (lift c)
  unfolding lift
  Keeps-lift (ok a) = record { at = λ db h. h }
  Keeps-lift (err e) = record { at = λ db h. tt }

  pub Keeps-if : (b : Bool) (m n : Action A) → Keeps P m → Keeps P n → Keeps P (if b then m else n)
  Keeps-if true m n km kn = km
  Keeps-if false m n km kn = kn

  pub Keeps-or_raise : (e : Error) (o : Option A) → Keeps P (or_raise e o)
  unfolding or_raise
  Keeps-or_raise e none = Keeps-raise e
  Keeps-or_raise e (some a) = Keeps-pure a

module _ {A B : Type 0} {P : Db → Type 0} where
  bind_after :
      (r : Result Error (A × Db)) (f : A → Action B)
      → After P r
      → ((a : A) → Keeps P (f a))
      → After P (proceed r f)
  bind_after (ok (a, db)) f h kf = (kf a).at db h
  bind_after (err e) f h kf = tt

  pub Keeps-bind :
      (m : Action A) (f : A → Action B) → Keeps P m → ((a : A) → Keeps P (f a)) → Keeps P (m >>= f)
  unfolding ◌>>=◌
  Keeps-bind m f km kf = record { at = λ db h. bind_after (m db) f (km.at db h) kf }

pub ruleset keeps_rules =
    (Keeps-pure, Keeps-raise, Keeps-gets, Keeps-lift, Keeps-if, Keeps-or_raise, Keeps-bind)

module _ {A : Type 0} (P : Db → Type 0) where
  settled : (r : Result Error (A × Db)) (db : Db) → After P r → P db → P (settle r db).1
  settled (ok (a, db')) db h' h = h'
  settled (err e) db h' h = h

  pub transaction-Keeps : (m : Action A) → Keeps P m → (db : Db) → P db → P (transaction m db).1
  unfolding transaction
  transaction-Keeps m k db h = settled (m db) db (k.at db h) h

module _ {P : Db → Type 0} where
  pub Keeps-modify : (f : Db → Db) → ((db : Db) → P db → P (f db)) → Keeps P (modify f)
  unfolding modify
  Keeps-modify f k = record { at = k }

  -- A ticket is inserted only where its keys are free.
  pub Keeps-insert_ticket :
      (t : Ticket)
      → ((db : Db)
          → P db
          → breaks_ticket_keys t db ≡ false
          → P (record db { tickets = db.tickets ++ t ∷ [] }))
      → Keeps P (insert_ticket t)
  unfolding insert_ticket
  Keeps-insert_ticket t k = record {
    at = λ db h.
        After-if P integrity (record db { tickets = db.tickets ++ t ∷ [] })
          (breaks_ticket_keys t db) (k db h);
  }

  pub Keeps-insert_task :
      (t : Task)
      → ((db : Db)
          → P db
          → breaks_task_keys t db ≡ false
          → P (record db { tasks = db.tasks ++ t ∷ [] }))
      → Keeps P (insert_task t)
  unfolding insert_task
  Keeps-insert_task t k = record {
    at = λ db h.
        After-if P integrity (record db { tasks = db.tasks ++ t ∷ [] }) (breaks_task_keys t db)
          (k db h);
  }

  pub Keeps-insert_comment :
      (c : Comment)
      → ((db : Db) → P db → P (record db { comments = db.comments ++ c ∷ [] }))
      → Keeps P (insert_comment c)
  unfolding insert_comment
  Keeps-insert_comment c k = record {
    at = λ db h.
        After-if P integrity (record db { comments = db.comments ++ c ∷ [] })
          (is_some (find (comment_at c.id) db.comments)) (λ _. k db h);
  }

  -- The opening of a ticket, with its event.
  pub Keeps-open_ticket :
      (t : Ticket)
      → ((db : Db)
          → P db
          → breaks_ticket_keys t db ≡ false
          → P (
              logged t.id t.created_by t.created_at
                (created t.signal_id t.status t.priority t.owner t.sla_due_at)
                (record db { tickets = db.tickets ++ t ∷ [] })))
      → Keeps P (open_ticket t)
  unfolding open_ticket insert_ticket audit modify ◌>>=◌
  Keeps-open_ticket t k = record {
    at = λ db h.
        After-if_then P integrity (record db { tickets = db.tickets ++ t ∷ [] })
          (breaks_ticket_keys t db)
          (audit t.id t.created_by t.created_at
            (created t.signal_id t.status t.priority t.owner t.sla_due_at))
          (k db h);
  }
