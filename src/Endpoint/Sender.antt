-- ===== src/Endpoint/Sender.antt =====
-- The sender of integrations/plc_endpoint_audit/dtlab_plc_audit/sender.py. The offset of the cursor counts lines, and a
-- line that is still being written is no line yet.
pub mod Blocked
pub mod Delivery
pub mod Drain
pub mod Queue
pub mod Tests
use dtlab_control_center.Prelude.{
  ℕ, zero, suc, ◌+◌, some, List, [], ◌∷◌, Text, codes, drop, Result, ok, err, ◌>>=◌,
}
use dtlab_control_center.Json.{Json, Members, get, get_value}
use dtlab_control_center.Endpoint.Spool.{
  Library, SpoolError, zero_hash, verify_envelope, Spool, append, kept,
}

-- SenderCursor
pub record Cursor : Type 0 where
  pub offset : ℕ
  pub previous_record_sha256 : Text

abbrev pub new_cursor : Cursor
new_cursor = record { offset = 0; previous_record_sha256 = zero_hash }

-- A verified record: the offset behind it, its hash and its envelope
pub record Pending : Type 0 where
  pub next_offset : ℕ
  pub record_hash : Text
  pub envelope : Members

module _ (c : Library) where
  -- The loop of pending_envelopes over the lines from the cursor on
  unfoldable pub read_lines : ℕ → Text → Text → ℕ → List Members → Result SpoolError (List Pending)
  unfolding verify_envelope
  read_lines zero key previous_hash offset lines = ok []
  read_lines (suc limit) key previous_hash offset [] = ok []
  read_lines (suc limit) key previous_hash offset (line ∷ rest) = do
    record_hash ← verify_envelope c line key (some previous_hash)
    records ← read_lines limit key record_hash (offset + 1) rest
    ok (record { next_offset = offset + 1; record_hash = record_hash; envelope = line } ∷ records)

  unfoldable pub pending_envelopes :
      List Members → Cursor → Text → ℕ → Result SpoolError (List Pending)
  unfolding read_lines
  pending_envelopes lines cursor key limit =
      read_lines limit key cursor.previous_record_sha256 cursor.offset (drop cursor.offset lines)

-- `envelope["event"]`
abbrev pub event_of : Members → Json
unfolding get_value
event_of envelope = get_value (codes "event") envelope

-- The exceptions of send_pending
pub data SendError (E : Type 0) : Type 0 where
  bad_spool : SpoolError → SendError E
  undelivered : E → SendError E

-- `_deliver`: posting or exporting an event, with what becomes of the receiver, also where it fails
abbrev pub Deliver : Type 0 → Type 0 → Type 0
Deliver E R = Json → R → Result E (Unit {0}) × R

-- What the two processes do: the sensor appends an event, the sender sends up to a number of records.
pub data Step : Type 0 where
  emit : Members → Step
  send : ℕ → Step

module _ {E R : Type 0} (deliver : Deliver E R) where
  pub record Sender : Type 0 where
    pub cursor : Cursor
    pub receiver : R

  abbrev pub one_more_sent : Result (SendError E) ℕ × Sender → Result (SendError E) ℕ × Sender
  one_more_sent (ok n, s) = (ok (n + 1), s)
  one_more_sent (err e, s) = (err e, s)

  -- The loop of send_pending over the records
  unfoldable pub send_records : List Pending → Sender → Result (SendError E) ℕ × Sender
  send_records [] s = (ok 0, s)
  send_records (p ∷ rest) s =
      let (outcome, receiver) = deliver (event_of p.envelope) s.receiver in
      elim outcome [
        | err e ↦ (err (undelivered e), record s { receiver = receiver })
        | ok _ ↦ one_more_sent (
            send_records rest (record {
              cursor = record { offset = p.next_offset; previous_record_sha256 = p.record_hash };
              receiver = receiver;
            }))
      ]

  abbrev after_reading : Result SpoolError (List Pending) → Sender → Result (SendError E) ℕ × Sender
  after_reading (ok records) s = send_records records s
  after_reading (err e) s = (err (bad_spool e), s)

  -- EventSender.send_pending
  unfoldable pub send_pending :
      (c : Library) → Text → List Members → ℕ → Sender → Result (SendError E) ℕ × Sender
  unfolding pending_envelopes send_records
  send_pending c key lines limit s = after_reading (pending_envelopes c lines s.cursor key limit) s

  -- The sensor, which appends events, and the sender beside it, which reads the file
  pub record System (c : Library) : Type 0 where
    pub spool : Spool c
    pub sender : Sender

  unfoldable pub step_once : (c : Library) → Step → System c → System c
  unfolding append send_pending
  step_once c (emit event) y = record y { spool = kept c y.spool (append c event y.spool) }
  step_once c (send limit) y = record y {
    sender = (send_pending c y.spool.key y.spool.lines limit y.sender).1;
  }

  unfoldable pub advance_all : (c : Library) → List Step → System c → System c
  unfolding step_once
  advance_all c [] y = y
  advance_all c (step ∷ rest) y = advance_all c rest (step_once c step y)
