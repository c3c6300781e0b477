-- ===== src/Tickets/Tables.antt =====
-- The transactions of ticket_store.py and the SQL statements inside them. An error leaves no state
-- behind: every method rolls back and raises again.
use dtlab_control_center.Prelude.{
  ℕ, ◌+◌, Bool, ◌&&◌, ◌||◌, not, Option, none, some, List, [], ◌∷◌, ◌++◌, Text, text_eq, Result, ok,
  err, any, ltb, is_some, find, update, at_key, if◌then◌else◌, ◌==◌,
}
use dtlab_control_center.Tickets.Model.{
  Signal, Ticket, Task, Comment, Details, Db, Error, ticket_not_found, task_not_found,
  signal_not_found, integrity,
}
use dtlab_control_center.Tickets.Validation.{Checked}

abbrev pub Action : Type 0 → Type 0
Action A = Db → Result Error (A × Db)

module _ {A : Type 0} where
  unfoldable pub pure : A → Action A
  pure a db = ok (a, db)

  unfoldable pub raise : Error → Action A
  raise e db = err e

  -- A check that reads no table.
  unfoldable pub lift : Checked A → Action A
  lift (ok a) db = ok (a, db)
  lift (err e) db = err e

  -- A SELECT.
  unfoldable pub gets : (Db → A) → Action A
  gets f db = ok (f db, db)

  -- BEGIN IMMEDIATE, then COMMIT, or ROLLBACK and `raise`
  abbrev pub settle : Result Error (A × Db) → Db → Result Error A × Db
  settle (ok (a, db')) db = (ok a, db')
  settle (err e) db = (err e, db)

  unfoldable pub transaction : Action A → Db → Result Error A × Db
  transaction m db = settle (m db) db

abbrev pub proceed : {A B : Type 0} → Result Error (A × Db) → (A → Action B) → Result Error (B × Db)
proceed (ok (a, db)) f = f a db
proceed (err e) f = err e

infixl 5 ◌>>=◌ ◌>>◌
unfoldable pub ◌>>=◌ : {A B : Type 0} → Action A → (A → Action B) → Action B
unfolding pure raise lift gets
◌>>=◌ m f db = proceed (m db) f

abbrev pub ◌>>◌ : {A B : Type 0} → Action A → Action B → Action B
m >> k = m >>= λ _. k

-- A write without a result.
unfoldable pub modify : (Db → Db) → Action (Unit {0})
modify f db = ok (tt, f db)

-- `if row is None: raise e`
unfoldable pub or_raise : {A : Type 0} → Error → Option A → Action A
or_raise e none = raise e
or_raise e (some a) = pure a

abbrev pub signal_at : Text → Signal → Bool
signal_at = at_key (λ (s : Signal). s.id)

abbrev pub ticket_at : Text → Ticket → Bool
ticket_at = at_key (λ (t : Ticket). t.id)

abbrev pub for_signal : Text → Ticket → Bool
for_signal = at_key (λ (t : Ticket). t.signal_id)

abbrev pub task_at : Text → Task → Bool
task_at = at_key (λ (t : Task). t.id)

abbrev pub comment_at : Text → Comment → Bool
comment_at = at_key (λ (c : Comment). c.id)

unfoldable pub require_signal : Text → Action Signal
require_signal id = gets (λ db. find (signal_at id) db.signals) >>= or_raise signal_not_found

unfoldable pub select_ticket_for : Text → Action (Option Ticket)
select_ticket_for signal_id = gets (λ db. find (for_signal signal_id) db.tickets)

-- _require_ticket
unfoldable pub require_ticket : Text → Action Ticket
require_ticket id = gets (λ db. find (ticket_at id) db.tickets) >>= or_raise ticket_not_found

unfoldable pub require_task : Text → Action Task
require_task id = gets (λ db. find (task_at id) db.tasks) >>= or_raise task_not_found

-- INSERT INTO tickets: the primary key, UNIQUE(signal_id) and the reference to `signals`.
abbrev pub breaks_ticket_keys : Ticket → Db → Bool
breaks_ticket_keys row db =
    is_some (find (ticket_at row.id) db.tickets)
    || is_some (find (for_signal row.signal_id) db.tickets)
    || not (is_some (find (signal_at row.signal_id) db.signals))

unfoldable pub insert_ticket : Ticket → Action (Unit {0})
insert_ticket row db =
    if breaks_ticket_keys row db
    then err integrity
    else ok (tt, record db { tickets = db.tickets ++ row ∷ [] })

unfoldable pub update_ticket : Text → (Ticket → Ticket) → Action (Unit {0})
update_ticket id change =
    modify (λ db. record db { tickets = update (ticket_at id) change db.tickets })

-- UPDATE tickets SET updated_at = ? WHERE id = ?
unfoldable pub touch_ticket : Text → ℕ → Action (Unit {0})
unfolding update_ticket
touch_ticket id now = update_ticket id (λ t. record t { updated_at = now })

-- _audit
abbrev pub logged : Text → Text → ℕ → Details → Db → Db
logged ticket_id actor occurred_at details db = record db {
  audit =
      db.audit
      ++ record {
        sequence = db.audit_sequence + 1;
        ticket_id = ticket_id;
        actor = actor;
        occurred_at = occurred_at;
        details = details;
      }
        ∷ [];
  audit_sequence = db.audit_sequence + 1;
}

unfoldable pub audit : Text → Text → ℕ → Details → Action (Unit {0})
audit ticket_id actor occurred_at details = modify (logged ticket_id actor occurred_at details)

-- SELECT title FROM ticket_tasks WHERE ticket_id = ?
unfoldable pub titles_of : Text → List Task → List Text
titles_of ticket_id [] = []
titles_of ticket_id (t ∷ rest) =
    let others = titles_of ticket_id rest in
    if text_eq t.ticket_id ticket_id then t.title ∷ others else others

-- SELECT COALESCE(MAX(position), 0) FROM ticket_tasks WHERE ticket_id = ?
unfoldable pub max_position : Text → List Task → ℕ
max_position ticket_id [] = 0
max_position ticket_id (t ∷ rest) =
    let others = max_position ticket_id rest in
    if text_eq t.ticket_id ticket_id && ltb others t.position then t.position else others

-- INSERT INTO ticket_tasks: the primary key, UNIQUE(ticket_id, position), CHECK (position >= 1)
abbrev pub same_place : Task → Task → Bool
same_place row t = text_eq t.ticket_id row.ticket_id && t.position == row.position

abbrev pub breaks_task_keys : Task → Db → Bool
breaks_task_keys row db =
    is_some (find (task_at row.id) db.tasks) || any (same_place row) db.tasks || (row.position == 0)

unfoldable pub insert_task : Task → Action (Unit {0})
insert_task row db =
    if breaks_task_keys row db
    then err integrity
    else ok (tt, record db { tasks = db.tasks ++ row ∷ [] })

unfoldable pub update_task : Text → (Task → Task) → Action (Unit {0})
update_task id change = modify λ db. record db { tasks = update (task_at id) change db.tasks }

unfoldable pub insert_comment : Comment → Action (Unit {0})
insert_comment row db =
    if is_some (find (comment_at row.id) db.comments)
    then err integrity
    else ok (tt, record db { comments = db.comments ++ row ∷ [] })
