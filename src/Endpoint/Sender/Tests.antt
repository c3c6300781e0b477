-- ===== src/Endpoint/Sender/Tests.antt =====
-- A sensor and a sender with a receiver that keeps what it is given, and one that refuses everything.
use dtlab_control_center.Prelude.{
  ◌+◌, ◌≤◌, ◌≡◌, refl, List, [], ◌∷◌, ◌++◌, codes, length, arith, ok, err, All,
}
use dtlab_control_center.Json.{Json, Members}
use dtlab_control_center.Endpoint.Spool.{Library, zero_hash, str_of, record_hash_of, append}
use dtlab_control_center.Endpoint.Spool.Chain.{IsEvent, made, build-made}
use dtlab_control_center.Endpoint.Spool.Tests.{library, event, event-IsEvent}
use dtlab_control_center.Endpoint.Sender.{
  Deliver, System, Step, emit, send, send_pending, step_once, advance_all,
}
use dtlab_control_center.Endpoint.Sender.Queue.{IsStep, IsServed, new_system, advance_all-IsServed}
use dtlab_control_center.Endpoint.Sender.Drain.{
  SpoolReadable, sends, advance_all-length, sends-Drained, send_pending-SpoolReadable,
}
use dtlab_control_center.Endpoint.Sender.Blocked.{advance_all-Blocked}

abbrev keep_all : Deliver (Unit {0}) (List Json)
keep_all event received = (ok tt, received ++ event ∷ [])

abbrev refuse_all : Deliver (Unit {0}) (List Json)
refuse_all event received = (err tt, received)

abbrev steps : List Step
steps = emit (event (codes "1")) ∷ send 1 ∷ emit (event (codes "2")) ∷ emit (event (codes "3")) ∷ []

steps-IsStep : All (IsStep library) steps
steps-IsStep =
    (event-IsEvent (codes "1"), (tt, (event-IsEvent (codes "2"), (event-IsEvent (codes "3"), tt))))

abbrev kept_system : System keep_all library
kept_system =
    advance_all keep_all library steps
      (new_system keep_all library [] (codes "k") (codes "secret") 9000)

advance_all-IsServed_example : IsServed keep_all library [] (codes "secret") kept_system
advance_all-IsServed_example =
    advance_all-IsServed keep_all library [] (codes "k") (codes "secret") 9000 steps steps-IsStep

send_pending-SpoolReadable_example : SpoolReadable keep_all (
    (send_pending keep_all library kept_system.spool.key kept_system.spool.lines 5
      kept_system.sender).0)
send_pending-SpoolReadable_example =
    send_pending-SpoolReadable keep_all library [] (codes "k") (codes "secret") 9000 steps 5
      steps-IsStep

lines_of_steps : length kept_system.spool.lines ≤ kept_system.sender.cursor.offset + 4
lines_of_steps = omega (
  arith,
  advance_all-length keep_all library [] steps
      (new_system keep_all library [] (codes "k") (codes "secret") 9000) steps-IsStep,
)

sends-Drained_example :
    let z = advance_all keep_all library (sends 4 1) kept_system in
    (z.spool.lines ≡ kept_system.spool.lines)
    × (z.sender.cursor.offset ≡ length kept_system.spool.lines)
sends-Drained_example =
    sends-Drained keep_all library [] (λ event received. refl) (codes "k") (codes "secret") 9000
      steps 4 0 steps-IsStep lines_of_steps

-- The library of the tests, but for the size of a line
abbrev free_library : Library
free_library = record library { byte_length = λ line. 0 }

free-IsEvent : IsEvent free_library (event (codes "1"))
unfolding str_of
free-IsEvent =
    let e = event-IsEvent (codes "1") in
    record {
      event_id = e.event_id;
      has_event_id = e.has_event_id;
      revision = e.revision;
      has_revision = e.has_revision;
      is_integer = e.is_integer;
    }

abbrev line : Members
line = made free_library (event (codes "1")) (codes "k") (codes "secret") zero_hash free-IsEvent

abbrev refused_steps : List Step
refused_steps = emit (event (codes "1")) ∷ send 1 ∷ []

abbrev empty_system : System refuse_all free_library
empty_system = new_system refuse_all free_library [] (codes "k") (codes "secret") 9000

abbrev stuck_system : System refuse_all free_library
stuck_system = advance_all refuse_all free_library refused_steps empty_system

appended :
    (append free_library (event (codes "1")) empty_system.spool)
    ≡ ok (
      line,
      record empty_system.spool {
        lines = line ∷ [];
        size = 0;
        previous_hash = record_hash_of free_library line;
      },
    )
unfolding append
appended =
    rw
      (build-made free_library (event (codes "1")) (codes "k") (codes "secret") zero_hash
        free-IsEvent)
      refl

one_line : stuck_system.spool.lines ≡ line ∷ []
unfolding advance_all step_once
one_line = rw appended refl

advance_all-Blocked_example : stuck_system.sender.cursor.offset ≤ 0
advance_all-Blocked_example =
    advance_all-Blocked refuse_all free_library [] (codes "k") (codes "secret") 9000 refused_steps
      [] [] line (free-IsEvent, (tt, tt)) (λ received. (tt, refl)) one_line
