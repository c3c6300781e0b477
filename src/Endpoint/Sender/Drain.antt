-- ===== src/Endpoint/Sender/Drain.antt =====
-- What a send does to a sound file: how far the cursor moves, where it stops, and that it is never the file
-- that stops it.
use dtlab_control_center.Prelude.{
  ℕ, zero, suc, ◌+◌, ◌≤◌, ◌≡◌, refl, ap, ◌∙◌, some, List, [], ◌∷◌, ◌++◌, Text, length,
  length-append, drop, drop-length, arith, Result, ok, err, Result-cases, inl, inr, All, ◌⊎◌,
}
use dtlab_control_center.Json.{Json, Members}
use dtlab_control_center.Endpoint.Spool.{
  Library, zero_hash, verify_envelope, append, kept, verify_chain,
}
use dtlab_control_center.Endpoint.Spool.Chain.{append_step}
use dtlab_control_center.Endpoint.Sender.{
  Pending, read_lines, pending_envelopes, SendError, undelivered, Deliver, Sender, event_of,
  one_more_sent, send_records, send_pending, System, Step, emit, send, step_once, advance_all,
}
use dtlab_control_center.Endpoint.Sender.Delivery.{Follows, read_lines-Follows}
use dtlab_control_center.Endpoint.Sender.Queue.{
  IsStep, IsServed, advance_all-IsServed, step_once-IsServed, new_system,
}

module _ (c : Library) (key : Text) where
  verify_chain_rest :
      (p h1 h : Text) (xs ys : List Members)
      → verify_chain c key p xs ≡ ok h1
      → verify_chain c key p (xs ++ ys) ≡ ok h
      → verify_chain c key h1 ys ≡ ok h
  unfolding verify_chain
  verify_chain_rest p h1 h [] ys first all = let same : p ≡ h1 = cc first in rw same at all
  verify_chain_rest p h1 h (x ∷ xs) ys first all =
      elim (Result-cases (verify_envelope c x key (some p))) [
        | inl (h2, r) ↦ verify_chain_rest h2 h1 h xs ys (rw r at first) (rw r at all)
        | inr (bad, r) ↦ absurd (ground arith)
      ]

  -- The records that are read from lines that verify are as many as asked for, or all.
  read_lines_read :
      (limit : ℕ) (p h : Text) (k : ℕ) (lines : List Members)
      → verify_chain c key p lines ≡ ok h
      → (records : List Pending) × (read_lines c limit key p k lines ≡ ok records)
        × ((length records ≡ limit) ⊎ (length records ≡ length lines))
  unfolding read_lines verify_chain
  read_lines_read zero p h k lines v = ([], refl, inl refl)
  read_lines_read (suc limit) p h k [] v = ([], refl, inr refl)
  read_lines_read (suc limit) p h k (line ∷ lines) v =
      elim (Result-cases (verify_envelope c line key (some p))) [
        | inr (bad, r) ↦ absurd (ground arith)
        | inl (h1, r) ↦
            let (records, read, many) = read_lines_read limit h1 h (k + 1) lines (rw r at v) in
            (
              record { next_offset = k + 1; record_hash = h1; envelope = line } ∷ records,
              rw (r, read) refl,
              elim many [ inl full ↦ inl (ap suc full) | inr all ↦ inr (ap suc all) ],
            )
      ]

abbrev pub sends : ℕ → ℕ → List Step
sends zero limit = []
sends (suc k) limit = send limit ∷ sends k limit

module _ {E R : Type 0} (deliver : Deliver E R) where
  -- A receiver that accepts whatever it is given
  abbrev pub AcceptsAll : Type 0
  AcceptsAll = (event : Json) (r : R) → (deliver event r).0 ≡ ok tt

  -- The outcome of a send is a number of records, or what the receiver raised.
  abbrev pub SpoolReadable : Result (SendError E) ℕ → Type 0
  SpoolReadable outcome = ((n : ℕ) × (outcome ≡ ok n)) ⊎ ((e : E) × (outcome ≡ err (undelivered e)))

  one_more-SpoolReadable :
      (r : Result (SendError E) ℕ × Sender deliver)
      → SpoolReadable r.0
      → SpoolReadable (one_more_sent deliver r).0
  one_more-SpoolReadable (ok n, s) h = inl (n + 1, refl)
  one_more-SpoolReadable (err e, s) h = h

  send_records-SpoolReadable :
      (records : List Pending) (s : Sender deliver)
      → SpoolReadable (send_records deliver records s).0
  unfolding send_records
  send_records-SpoolReadable [] s = inl (0, refl)
  send_records-SpoolReadable (p ∷ rest) s =
      elim (Result-cases (deliver (event_of p.envelope) s.receiver).0) [
        | inr (e, refusal) ↦ rw (refusal, send_records) (inr (e, refl))
        | inl (u, acceptance) ↦
            rw (acceptance, send_records)
              (one_more-SpoolReadable _ (send_records-SpoolReadable rest _))
      ]

  one_more_sent_ok :
      (r : Result (SendError E) ℕ × Sender deliver) (n k : ℕ)
      → r.0 ≡ ok n
      → r.1.cursor.offset ≡ k
      → ((one_more_sent deliver r).0 ≡ ok (suc n)) × ((one_more_sent deliver r).1.cursor.offset ≡ k)
  one_more_sent_ok (ok m, s) n k sent at = (ground arith, at)
  one_more_sent_ok (err e, s) n k sent at = absurd (ground arith)

  send_records_all :
      (accepts : AcceptsAll) (c : Library) (key p : Text) (k : ℕ) (lines : List Members)
      (records : List Pending) (s : Sender deliver)
      → s.cursor.offset ≡ k
      → Follows c key p k lines records
      → ((send_records deliver records s).0 ≡ ok (length records))
        × ((send_records deliver records s).1.cursor.offset ≡ k + length records)
  unfolding send_records
  send_records_all accepts c key p k lines [] s at f = (refl, omega arith)
  send_records_all accepts c key p k [] (r ∷ rest) s at f = absurd f
  send_records_all accepts c key p k (line ∷ lines) (r ∷ rest) s at f =
      let others =
        send_records_all accepts c key r.record_hash (k + 1) lines rest
          (record {
            cursor = record { offset = r.next_offset; previous_record_sha256 = r.record_hash };
            receiver = (deliver (event_of r.envelope) s.receiver).1;
          })
          f.0 f.3 in
      rw (accepts (event_of r.envelope) s.receiver, send_records)
        (one_more_sent_ok _ (length rest) (k + suc (length rest)) others.0
          (omega (arith, others.1)))

  module _ (c : Library) (start : R) where
    -- The records that a send in a served system reads
    read_served :
        (key : Text) (limit : ℕ) (y : System deliver c)
        → (h : IsServed deliver c start key y)
        → (records : List Pending) × (pending_envelopes c y.spool.lines y.sender.cursor y.spool.key
              limit
            ≡ ok records)
          × Follows c y.spool.key y.sender.cursor.previous_record_sha256 y.sender.cursor.offset
              h.progress.todo records
          × ((length records ≡ limit) ⊎ (length records ≡ length h.progress.todo))
    unfolding pending_envelopes
    read_served key limit y h =
        let p = h.progress in
        let rest : drop y.sender.cursor.offset y.spool.lines ≡ p.todo =
          rw (p.at, p.split) (drop-length p.done p.todo) in
        let v : verify_chain c y.spool.key y.sender.cursor.previous_record_sha256 p.todo
            ≡ ok y.spool.previous_hash =
          verify_chain_rest c y.spool.key zero_hash _ _ p.done p.todo (rw h.key_kept p.chained)
            (rw p.split at h.sound.chained) in
        let (records, read, many) =
          read_lines_read c y.spool.key limit _ _ y.sender.cursor.offset p.todo v in
        (
          records,
          rw rest read,
          read_lines-Follows c limit y.spool.key _ _ p.todo records read,
          many,
        )

    -- After any interleaving of appends of well-formed events and sends, a send returns a number
    -- of records or raises what the receiver raised; it never fails on the spool.
    pub send_pending-SpoolReadable :
        (key_id key : Text) (max_bytes : ℕ) (steps : List Step) (limit : ℕ)
        → All (IsStep c) steps
        → SpoolReadable (
            let y = advance_all deliver c steps (new_system deliver c start key_id key max_bytes) in
            (send_pending deliver c y.spool.key y.spool.lines limit y.sender).0)
    unfolding send_pending
    send_pending-SpoolReadable key_id key max_bytes steps limit es =
        let y = advance_all deliver c steps (new_system deliver c start key_id key max_bytes) in
        let (records, read, _, _) =
          read_served key limit y
            (advance_all-IsServed deliver c start key_id key max_bytes steps es) in
        rw read (send_records-SpoolReadable records y.sender)

    -- A send moves the cursor on by the limit, or to the end.
    send_served :
        (accepts : AcceptsAll) (key : Text) (limit : ℕ) (y : System deliver c)
        → IsServed deliver c start key y
        → let z = step_once deliver c (send limit) y in
          (z.spool.lines ≡ y.spool.lines)
          × ((z.sender.cursor.offset ≡ y.sender.cursor.offset + limit)
              ⊎ (z.sender.cursor.offset ≡ length y.spool.lines))
    unfolding send_pending step_once
    send_served accepts key limit y h =
        let (records, read, follows, many) = read_served key limit y h in
        let (sent, at) =
          send_records_all accepts c y.spool.key _ _ h.progress.todo records y.sender refl
            follows in
        let total : length y.spool.lines ≡ y.sender.cursor.offset + length h.progress.todo =
          rw (h.progress.at, h.progress.split) (length-append h.progress.done h.progress.todo) in
        (
          refl,
          rw read (elim many [
            | inl full ↦ inl (omega (arith, at, full))
            | inr all ↦ inr (omega (arith, at, all, total))
          ]),
        )

    sends-Drained_from :
        (accepts : AcceptsAll) (key : Text) (k n : ℕ) (y : System deliver c)
        → IsServed deliver c start key y
        → length y.spool.lines ≤ y.sender.cursor.offset + k
        → let z = advance_all deliver c (sends k (suc n)) y in
          (z.spool.lines ≡ y.spool.lines) × (z.sender.cursor.offset ≡ length y.spool.lines)
    unfolding advance_all
    sends-Drained_from accepts key zero n y h room =
        let below = length-append h.progress.done h.progress.todo in
        (refl, omega (arith, room, h.progress.at, ap length h.progress.split, below))
    sends-Drained_from accepts key (suc k) n y h room =
        let z = step_once deliver c (send (suc n)) y in
        let (same, moved) = send_served accepts key (suc n) y h in
        let room_left : length z.spool.lines ≤ z.sender.cursor.offset + k = elim moved [
          | inl full ↦ omega (arith, full, room, ap length same)
          | inr all ↦ omega (arith, all, ap length same)
        ] in
        let rest =
          sends-Drained_from accepts key k n z
            (step_once-IsServed deliver c start key (send (suc n)) y tt h) room_left in
        (rest.0 ∙ same, rest.1 ∙ ap length same)

    -- With a receiver that accepts every event, after any interleaving of appends of well-formed
    -- events and sends, as many further sends of at least one record as there are lines behind
    -- the cursor leave the file as it is and the cursor at its end.
    pub sends-Drained :
        (accepts : AcceptsAll) (key_id key : Text) (max_bytes : ℕ) (steps : List Step) (k n : ℕ)
        → All (IsStep c) steps
        → length
            (advance_all deliver c steps
              (new_system deliver c start key_id key max_bytes)).spool.lines
          ≤ (advance_all deliver c steps
              (new_system deliver c start key_id key max_bytes)).sender.cursor.offset
            + k
        → let y = advance_all deliver c steps (new_system deliver c start key_id key max_bytes) in
          let z = advance_all deliver c (sends k (suc n)) y in
          (z.spool.lines ≡ y.spool.lines) × (z.sender.cursor.offset ≡ length y.spool.lines)
    sends-Drained accepts key_id key max_bytes steps k n es room =
        sends-Drained_from accepts key k n _
          (advance_all-IsServed deliver c start key_id key max_bytes steps es) room

    pub advance_all-length :
        (steps : List Step) (y : System deliver c)
        → All (IsStep c) steps
        → length (advance_all deliver c steps y).spool.lines ≤ length y.spool.lines + length steps
    unfolding advance_all step_once
    advance_all-length [] y es = omega arith
    advance_all-length (send limit ∷ rest) y es =
        omega (arith, advance_all-length rest (step_once deliver c (send limit) y) es.1)
    advance_all-length (emit event ∷ rest) y es =
        let later = advance_all-length rest (step_once deliver c (emit event) y) es.1 in
        elim (append_step c event y.spool es.0) [
          | inl full ↦
              let same : length (kept c y.spool (append c event y.spool)).lines
                  ≡ length y.spool.lines =
                rw full refl in
              omega (arith, later, same)
          | inr (envelope, bytes, done, _, _) ↦
              let more : length (kept c y.spool (append c event y.spool)).lines
                  ≡ length y.spool.lines + 1 =
                rw done (length-append y.spool.lines (envelope ∷ [])) in
              omega (arith, later, more)
        ]
