-- ===== src/Endpoint/Sender/Queue.antt =====
-- The sensor and the sender together: the spool as a queue that is emptied from its head.
use dtlab_control_center.Prelude.{ℕ, ◌≡◌, refl, List, [], ◌∷◌, Text, arith, inl, inr, All}
use dtlab_control_center.Endpoint.Spool.{Library, verify_chain, new_spool, last_record_hash}
use dtlab_control_center.Endpoint.Spool.Chain.{IsEvent, IsSound, append-IsSound, append_step}
use dtlab_control_center.Endpoint.Sender.{
  new_cursor, Deliver, System, Step, emit, send, step_once, advance_all,
}
use dtlab_control_center.Endpoint.Sender.Delivery.{
  nothing, Progress, send_pending-Progress, emit-Progress,
}

-- A step that emits emits an event.
abbrev pub IsStep : Library → Step → Type 0
IsStep c (emit event) = IsEvent c event
IsStep c (send limit) = Unit

module _ {E R : Type 0} (deliver : Deliver E R) (c : Library) (start : R) where
  -- The file is a sound chain, and the sender has given the receiver the lines before its cursor.
  pub record IsServed (key : Text) (y : System deliver c) : Type 0 where
    pub key_kept : y.spool.key ≡ key
    pub sound : IsSound c y.spool
    pub progress : Progress deliver c key start y.spool.lines y.sender

  pub step_once-IsServed :
      (key : Text) (step : Step) (y : System deliver c)
      → IsStep c step
      → IsServed key y
      → IsServed key (step_once deliver c step y)
  unfolding step_once
  step_once-IsServed key (emit event) y e h =
      let sound = append-IsSound c event y.spool e h.sound in
      elim (append_step c event y.spool e) [
        | inl full ↦ rw full h
        | inr (envelope, bytes, done, fits, accepted) ↦ record {
          key_kept = rw done h.key_kept;
          sound = sound;
          progress =
              rw done
                (emit-Progress deliver c key start y.spool.lines envelope y.sender h.progress);
        }
      ]
  step_once-IsServed key (send limit) y e h = record {
    key_kept = h.key_kept;
    sound = h.sound;
    progress =
        rw h.key_kept
          (send_pending-Progress deliver c key start y.spool.lines limit y.sender h.progress);
  }

  pub advance_all-IsServed_from :
      (key : Text) (steps : List Step) (y : System deliver c)
      → All (IsStep c) steps
      → IsServed key y
      → IsServed key (advance_all deliver c steps y)
  unfolding advance_all
  advance_all-IsServed_from key [] y es h = h
  advance_all-IsServed_from key (step ∷ rest) y es h =
      advance_all-IsServed_from key rest (step_once deliver c step y) es.1
        (step_once-IsServed key step y es.0 h)

  abbrev pub new_system : Text → Text → ℕ → System deliver c
  new_system key_id key max_bytes = record {
    spool = new_spool c key_id key max_bytes;
    sender = record { cursor = new_cursor; receiver = start };
  }

  -- After any interleaving of appends of well-formed events, full spools included, and of sends
  -- to any receiver, the spool is a sound chain, and the receiver has been led to its state by
  -- accepting exactly the lines before the cursor, in order, with refused attempts in between,
  -- while the cursor stands behind lines that verify up to its hash.
  pub advance_all-IsServed :
      (key_id key : Text) (max_bytes : ℕ) (steps : List Step)
      → All (IsStep c) steps
      → IsServed key (advance_all deliver c steps (new_system key_id key max_bytes))
  advance_all-IsServed key_id key max_bytes steps es =
      advance_all-IsServed_from key steps (new_system key_id key max_bytes) es record {
        key_kept = refl;
        sound = record {
          chained = unfold verify_chain in refl;
          fits = omega arith;
          reopens = unfold last_record_hash in refl;
        };
        progress = record {
          done = [];
          todo = [];
          split = refl;
          at = refl;
          chained = unfold verify_chain in refl;
          received = nothing;
        };
      }
