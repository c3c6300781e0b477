-- ===== src/Endpoint/Sender/Delivery.antt =====
-- What the receiver has been given, over any interleaving of appends and sends.
use dtlab_control_center.Prelude.{
  ℕ, zero, suc, ◌+◌, ◌≡◌, refl, sym, ap, subst, some, List, [], ◌∷◌, ◌++◌, Text, append_assoc,
  length, length-append, drop, drop-length, arith, Result, ok, err, Result-cases, inl, inr,
}
use dtlab_control_center.Json.{Members}
use dtlab_control_center.Endpoint.Spool.{Library, zero_hash, verify_envelope, verify_chain}
use dtlab_control_center.Endpoint.Spool.Chain.{verify_chain-append}
use dtlab_control_center.Endpoint.Sender.{
  Pending, read_lines, pending_envelopes, SendError, Deliver, Sender, event_of, one_more_sent,
  send_records, send_pending,
}

-- The deliveries that lead the receiver from one state to another: those of the given lines, in order, each
-- of them accepted, with refused attempts in between.
pub data Delivered {E R : Type 0} (deliver : Deliver E R) : List Members → R → R → Type 0 where
  nothing : {r : R} → Delivered deliver [] r r
  accepted :
      (line : Members) (lines : List Members) {r : R} (r1 : R) {r2 : R}
      → Delivered deliver lines r r1
      → deliver (event_of line) r1 ≡ (ok tt, r2)
      → Delivered deliver (lines ++ line ∷ []) r r2
  refused :
      (line : Members) {lines : List Members} {r : R} (r1 : R) {r2 : R} (e : E)
      → Delivered deliver lines r r1
      → deliver (event_of line) r1 ≡ (err e, r2)
      → Delivered deliver lines r r2

-- Records that follow one another from a hash and an offset on, with the lines that they stand for
abbrev pub Follows : (c : Library) → Text → Text → ℕ → List Members → List Pending → Type 0
Follows c key p k lines [] = Unit
Follows c key p k [] (r ∷ rest) = ⊥
Follows c key p k (line ∷ lines) (r ∷ rest) =
    (r.next_offset ≡ k + 1)
    × (r.envelope ≡ line)
    × (verify_envelope c line key (some p) ≡ ok r.record_hash)
    × Follows c key r.record_hash (k + 1) lines rest

pub read_lines-Follows :
    (c : Library) (limit : ℕ) (key p : Text) (k : ℕ) (lines : List Members) (records : List Pending)
    → read_lines c limit key p k lines ≡ ok records
    → Follows c key p k lines records
unfolding read_lines
read_lines-Follows c zero key p k lines records h =
    let none_read : records ≡ [] = ground arith in rw none_read tt
read_lines-Follows c (suc limit) key p k [] records h =
    let none_read : records ≡ [] = ground arith in rw none_read tt
read_lines-Follows c (suc limit) key p k (line ∷ lines) records h =
    elim (Result-cases (verify_envelope c line key (some p))) [
      | inr (bad, v) ↦ absurd (ground arith)
      | inl (hash, v) ↦ elim (Result-cases (read_lines c limit key hash (k + 1) lines)) [
        | inr (bad, r) ↦ absurd (ground arith)
        | inl (rest, r) ↦
            let all_read : records
                ≡ record { next_offset = k + 1; record_hash = hash; envelope = line } ∷ rest =
              ground arith in
            rw all_read (refl, refl, v, read_lines-Follows c limit key hash (k + 1) lines rest r)
      ]
    ]

with_outcome : {A B : Type 0} (p : A × B) {a : A} → p.0 ≡ a → p ≡ (a, p.1)
with_outcome {A} {B} p h = ap {B = A × B} (λ o. (o, p.1)) h

module _ {E R : Type 0} (deliver : Deliver E R) (c : Library) (key : Text) (start : R) where
  -- The cursor stands behind lines that verify, and that are what the receiver has been given since the start.
  pub record Progress (lines : List Members) (s : Sender deliver) : Type 0 where
    pub done : List Members
    pub todo : List Members
    pub split : lines ≡ done ++ todo
    pub at : s.cursor.offset ≡ length done
    pub chained : verify_chain c key zero_hash done ≡ ok s.cursor.previous_record_sha256
    pub received : Delivered deliver done start s.receiver

  one_more_sent_state :
      (r : Result (SendError E) ℕ × Sender deliver) → (one_more_sent deliver r).1 ≡ r.1
  one_more_sent_state (ok n, s) = refl
  one_more_sent_state (err e, s) = refl

  abbrev moved_on : Pending → Sender deliver → Sender deliver
  moved_on p s = record {
    cursor = record { offset = p.next_offset; previous_record_sha256 = p.record_hash };
    receiver = (deliver (event_of p.envelope) s.receiver).1;
  }

  send_records_next :
      (p : Pending) (rest : List Pending) (s : Sender deliver) (u : Unit {0})
      → (deliver (event_of p.envelope) s.receiver).0 ≡ ok u
      → (send_records deliver (p ∷ rest) s).1 ≡ (send_records deliver rest (moved_on p s)).1
  unfolding send_records
  send_records_next p rest s u acceptance =
      rw (acceptance, send_records) (one_more_sent_state (send_records deliver rest (moved_on p s)))

  send_records-Progress :
      (records : List Pending) (done todo : List Members) (s : Sender deliver)
      → s.cursor.offset ≡ length done
      → verify_chain c key zero_hash done ≡ ok s.cursor.previous_record_sha256
      → Delivered deliver done start s.receiver
      → Follows c key s.cursor.previous_record_sha256 s.cursor.offset todo records
      → Progress (done ++ todo) (send_records deliver records s).1
  unfolding send_records
  send_records-Progress [] done todo s at chained received f = record {
    done = done;
    todo = todo;
    split = refl;
    at = at;
    chained = chained;
    received = received;
  }
  send_records-Progress (p ∷ rest) done [] s at chained received f = absurd f
  send_records-Progress (p ∷ rest) done (line ∷ todo) s at chained received f =
      let (next, same, verified, follows) = f in
      elim (Result-cases (deliver (event_of p.envelope) s.receiver).0) [
        | inr (e, refusal) ↦
            rw (refusal, send_records)
              record {
                done = done;
                todo = line ∷ todo;
                split = refl;
                at = at;
                chained = chained;
                received = refused line s.receiver e received (
                    rw (sym same)
                      (with_outcome (deliver (event_of p.envelope) s.receiver) refusal));
              }
        | inl (u, acceptance) ↦ rw (send_records_next p rest s u acceptance) (
            subst (λ lines. Progress lines (send_records deliver rest (moved_on p s)).1)
              (append_assoc done (line ∷ []) todo)
              (send_records-Progress rest (done ++ line ∷ []) todo (moved_on p s)
                (omega (arith, next, at, length-append done (line ∷ [])))
                (verify_chain-append c key zero_hash s.cursor.previous_record_sha256 p.record_hash
                  done line chained verified)
                (accepted line done s.receiver received (
                  rw (sym same)
                    (with_outcome (deliver (event_of p.envelope) s.receiver) acceptance)))
                (rw next follows)))
      ]

  pub send_pending-Progress :
      (lines : List Members) (limit : ℕ) (s : Sender deliver)
      → Progress lines s
      → Progress lines (send_pending deliver c key lines limit s).1
  unfolding send_pending pending_envelopes
  send_pending-Progress lines limit s h =
      elim (Result-cases (
        read_lines c limit key s.cursor.previous_record_sha256 s.cursor.offset
          (drop s.cursor.offset lines))) [
            | inr (e, bad) ↦ rw bad h
            | inl (records, good) ↦
                let rest : drop s.cursor.offset lines ≡ h.todo =
                  rw (h.at, h.split) (drop-length h.done h.todo) in
                rw (good, h.split)
                  (send_records-Progress records h.done h.todo s h.at h.chained h.received (
                    read_lines-Follows c limit key s.cursor.previous_record_sha256 s.cursor.offset
                      h.todo records (rw rest at good)))
          ]

  pub emit-Progress :
      (lines : List Members) (line : Members) (s : Sender deliver)
      → Progress lines s
      → Progress (lines ++ line ∷ []) s
  emit-Progress lines line s h = record {
    done = h.done;
    todo = h.todo ++ line ∷ [];
    split = rw h.split (append_assoc h.done h.todo (line ∷ []));
    at = h.at;
    chained = h.chained;
    received = h.received;
  }
