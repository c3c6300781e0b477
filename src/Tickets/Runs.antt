-- ===== src/Tickets/Runs.antt =====
-- How an action that succeeds runs, step by step, forwards and backwards.
use dtlab_control_center.Prelude.{◌≡◌, refl, Option, none, some, Text, Result, ok, err, find, arith}
use dtlab_control_center.Tickets.Model.{
  Signal, Ticket, Db, Error, ticket_not_found, signal_not_found,
}
use dtlab_control_center.Tickets.Validation.{Checked}
use dtlab_control_center.Tickets.Tables.{
  Action, pure, lift, or_raise, raise, proceed, ◌>>=◌, require_signal, require_ticket, signal_at,
  ticket_at,
}

module _ {A B : Type 0} where
  pub step :
      (m : Action A) (f : A → Action B) {db db' : Db} {a : A} {r : Result Error (B × Db)}
      → m db ≡ ok (a, db')
      → f a db' ≡ r
      → (m >>= f) db ≡ r
  unfolding ◌>>=◌
  step m f e h = rw e h

  proceeded :
      (r : Result Error (A × Db)) (f : A → Action B) {b : B} {end : Db}
      → proceed r f ≡ ok (b, end)
      → (a : A) × (mid : Db) × (r ≡ ok (a, mid)) × (f a mid ≡ ok (b, end))
  proceeded (ok (a, mid)) f h = (a, mid, refl, h)
  proceeded (err e) f h = absurd (cc)

  -- The first action of a run that succeeds succeeds.
  pub unstep :
      (m : Action A) (f : A → Action B) (db : Db) {b : B} {end : Db}
      → (m >>= f) db ≡ ok (b, end)
      → (a : A) × (mid : Db) × (m db ≡ ok (a, mid)) × (f a mid ≡ ok (b, end))
  unfolding ◌>>=◌
  unstep m f db h = proceeded (m db) f h

pub lift_ok : {A : Type 0} {c : Checked A} {a : A} (db : Db) → c ≡ ok a → lift c db ≡ ok (a, db)
unfolding lift
lift_ok db e = rw e refl

pub unlift :
    {A : Type 0} (c : Checked A) (db : Db) {a : A} {end : Db}
    → lift c db ≡ ok (a, end)
    → (c ≡ ok a) × (end ≡ db)
unfolding lift
unlift (ok a) db h = (ground arith, ground arith)
unlift (err e) db h = absurd (ground arith)

pub require_signal_found :
    (id : Text) (db : Db) (s : Signal)
    → find (signal_at id) db.signals ≡ some s
    → require_signal id db ≡ ok (s, db)
unfolding require_signal or_raise ◌>>=◌
require_signal_found id db s e = rw (e, or_raise) refl

pub require_ticket_found :
    (id : Text) (db : Db) (t : Ticket)
    → find (ticket_at id) db.tickets ≡ some t
    → require_ticket id db ≡ ok (t, db)
unfolding require_ticket or_raise ◌>>=◌
require_ticket_found id db t e = rw (e, or_raise) refl

found_by :
    {A : Type 0} (o : Option A) (e : Error) (db : Db) {a : A} {end : Db}
    → or_raise e o db ≡ ok (a, end)
    → (o ≡ some a) × (end ≡ db)
unfolding or_raise pure raise
found_by none e db h = absurd (cc)
found_by (some a) e db h = (ground arith, ground arith)

pub require_signal_finds :
    (id : Text) (db : Db) {s : Signal} {end : Db}
    → require_signal id db ≡ ok (s, end)
    → (find (signal_at id) db.signals ≡ some s) × (end ≡ db)
unfolding require_signal ◌>>=◌
require_signal_finds id db h = found_by _ _ db h

pub require_ticket_finds :
    (id : Text) (db : Db) {t : Ticket} {end : Db}
    → require_ticket id db ≡ ok (t, end)
    → (find (ticket_at id) db.tickets ≡ some t) × (end ≡ db)
unfolding require_ticket ◌>>=◌
require_ticket_finds id db h = found_by _ _ db h

-- The same as rules that hand the parts on.
module _ {A B : Type 0} {G : Type 0} {b : B} {end : Db} where
  pub by_lift :
      (c : Checked A) (f : A → Action B) (db : Db)
      → (lift c >>= f) db ≡ ok (b, end)
      → ((a : A) → c ≡ ok a → f a db ≡ ok (b, end) → G)
      → G
  unfolding lift ◌>>=◌
  by_lift (ok a) f db h k = k a refl h
  by_lift (err e) f db h k = absurd (cc)

  by_result :
      (r : Result Error (A × Db)) (f : A → Action B)
      → proceed r f ≡ ok (b, end)
      → ((a : A) (mid : Db) → r ≡ ok (a, mid) → f a mid ≡ ok (b, end) → G)
      → G
  by_result (ok (a, mid)) f h k = k a mid refl h
  by_result (err e) f h k = absurd (cc)

  pub by_step :
      (m : Action A) (f : A → Action B) (db : Db)
      → (m >>= f) db ≡ ok (b, end)
      → ((a : A) (mid : Db) → m db ≡ ok (a, mid) → f a mid ≡ ok (b, end) → G)
      → G
  unfolding ◌>>=◌
  by_step m f db h k = by_result (m db) f h k

module _ {A B : Type 0} {G : Type 0} {b : B} {end : Db} where
  by_found :
      (o : Option A) (e : Error) (f : A → Action B) (db : Db)
      → (or_raise e o >>= f) db ≡ ok (b, end)
      → ((a : A) → o ≡ some a → f a db ≡ ok (b, end) → G)
      → G
  unfolding or_raise ◌>>=◌
  by_found none e f db h k = absurd (cc)
  by_found (some a) e f db h k = k a refl h

module _ {B : Type 0} {G : Type 0} {b : B} {end : Db} where
  pub by_ticket :
      (id : Text) (f : Ticket → Action B) (db : Db)
      → (require_ticket id >>= f) db ≡ ok (b, end)
      → ((t : Ticket) → find (ticket_at id) db.tickets ≡ some t → f t db ≡ ok (b, end) → G)
      → G
  unfolding require_ticket ◌>>=◌ or_raise
  by_ticket id f db h k = by_found (find (ticket_at id) db.tickets) ticket_not_found f db h k

  pub by_signal :
      (id : Text) (f : Signal → Action B) (db : Db)
      → (require_signal id >>= f) db ≡ ok (b, end)
      → ((s : Signal) → find (signal_at id) db.signals ≡ some s → f s db ≡ ok (b, end) → G)
      → G
  unfolding require_signal ◌>>=◌ or_raise
  by_signal id f db h k = by_found (find (signal_at id) db.signals) signal_not_found f db h k
