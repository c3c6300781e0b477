-- ===== src/Endpoint/Sender/Blocked.antt =====
-- An event that the receiver does not take holds back the events behind it.
use dtlab_control_center.Prelude.{
  ℕ, ◌≤◌, ◌≡◌, sym, ap, ◌∙◌, List, [], ◌∷◌, ◌++◌, Text, length, arith, Result, ok, err, All,
  All-append,
}
use dtlab_control_center.Json.{Members}
use dtlab_control_center.Endpoint.Spool.{Library}
use dtlab_control_center.Endpoint.Sender.{Deliver, event_of, Step, advance_all}
use dtlab_control_center.Endpoint.Sender.Delivery.{Delivered, nothing, accepted, refused}
use dtlab_control_center.Endpoint.Sender.Queue.{IsStep, advance_all-IsServed, new_system}

module _ {E R : Type 0} (deliver : Deliver E R) where
  abbrev IsTaken : Members → Type 0
  IsTaken line = (r : R) × ((deliver (event_of line) r).0 ≡ ok tt)

  Delivered-IsTaken :
      {lines : List Members} {r r1 : R} → Delivered deliver lines r r1 → All IsTaken lines
  Delivered-IsTaken nothing = tt
  Delivered-IsTaken (accepted line lines r1 before h) =
      All-append IsTaken lines (line ∷ []) (Delivered-IsTaken before) ((r1, ap (λ p. p.0) h), tt)
  Delivered-IsTaken (refused line r1 e before h) = Delivered-IsTaken before

  -- Whatever the receiver's state, it does not take the event of the line.
  abbrev pub NeverTaken : Members → Type 0
  NeverTaken line = (r : R) → (e : E) × ((deliver (event_of line) r).0 ≡ err e)

  blocked :
      (done todo before after : List Members) (line : Members)
      → All IsTaken done
      → NeverTaken line
      → done ++ todo ≡ before ++ line ∷ after
      → length done ≤ length before
  blocked [] todo before after line taken never split = omega arith
  blocked (x ∷ done) todo [] after line taken never split =
      let (r, took) = taken.0 in
      let (e, left) = never r in
      let same : x ≡ line = ground arith in
      absurd (
        let clash : Path (Result E (Unit {0})) (ok tt) (err e) = sym took ∙ rw same left in
        ground arith)
  blocked (x ∷ done) todo (y ∷ before) after line taken never split =
      let rest : done ++ todo ≡ before ++ line ∷ after = ground arith in
      omega (arith, blocked done todo before after line taken.1 never rest)

  -- While the receiver takes the event of some line in none of its states, no interleaving of
  -- appends of well-formed events and sends moves the cursor past that line: the lines behind it
  -- are held back.
  pub advance_all-Blocked :
      (c : Library) (start : R) (key_id key : Text) (max_bytes : ℕ) (steps : List Step)
      (before after : List Members) (line : Members)
      → All (IsStep c) steps
      → NeverTaken line
      → (advance_all deliver c steps (new_system deliver c start key_id key max_bytes)).spool.lines
        ≡ before ++ line ∷ after
      → (advance_all deliver c steps
          (new_system deliver c start key_id key max_bytes)).sender.cursor.offset
        ≤ length before
  advance_all-Blocked c start key_id key max_bytes steps before after line es never at =
      let p = (advance_all-IsServed deliver c start key_id key max_bytes steps es).progress in
      omega (
        arith,
        p.at,
        blocked p.done p.todo before after line (Delivered-IsTaken p.received) never
            (sym p.split ∙ at),
      )
