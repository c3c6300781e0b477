-- ===== src/Ingress/Agreement.antt =====
-- Which events of the endpoint sensor the receiver's checks accept.
use dtlab_control_center.Prelude.{
  ℕ, ◌<◌, ◌≡◌, ◌↔◌, refl, Bool, true, false, not, List, [], ◌∷◌, ◌++◌, Text, codes, text_eq,
  text_eq_refl, arith, inl, inr, All, Bool-cases, if◌then◌else◌,
}
use dtlab_control_center.Endpoint.Episodes.{
  Outcome, processed, rejected, unknown, Observation, Operation, Bucket, Outcomes, Episode,
  Settings, new_episode, count_outcome, is_shutdown_write, update_shutdown, update_episode,
}
use dtlab_control_center.Endpoint.Aggregator.{Event, truth_of, render, Input, run, no_episodes}
use dtlab_control_center.Endpoint.Balance.{BalancedEvent, counted}
use dtlab_control_center.Endpoint.Carried.{Carried, run-Carried}
use dtlab_control_center.Endpoint.Counts.{run-Balanced}
use dtlab_control_center.Ingress.Compared.{TimesFit, times_lem, has_code, same_codes_lem}
use dtlab_control_center.Ingress.Checks.{
  codes_differ, write_event, Parsed, SemanticError, error_if, is_shutdown_sequence, codes_of,
  total_count, time_errors, identity_errors, detection_errors, truth_errors, count_errors,
  semantic_errors, document_of,
}

abbrev count_of : Outcome → Outcomes → ℕ
count_of processed s = s.processed_count
count_of rejected s = s.rejected_count
count_of unknown s = s.unknown_count

-- The outcome that an episode names as its last has been counted.
abbrev LastCounted : Episode → Type 0
LastCounted e = 0 < count_of e.last_outcome_state e.outcome_states

-- The detection of an event is one of two, and its truth that of its last outcome.
pub record IsReport (v : Event) : Type 0 where
  pub shutdown : Bool
  pub classified :
      v.classification
      ≡ (if shutdown then codes "process_shutdown_sequence" else codes "modbus_write")
  pub grave : v.severity ≡ (if shutdown then codes "critical" else codes "high")
  pub urgent : v.priority ≡ (if shutdown then codes "p1" else codes "p2")
  pub true_to : v.truth ≡ truth_of v.last_state
  pub last_counted : 0 < count_of v.last_state v.outcome_states

counts-last : (o : Outcome) (s : Outcomes) → 0 < count_of o (count_outcome o s)
unfolding count_outcome
counts-last processed s = omega arith
counts-last rejected s = omega arith
counts-last unknown s = omega arith

update_shutdown-LastCounted :
    (c : Settings) (e : Episode) (o : Operation) (now : ℕ)
    → LastCounted e
    → LastCounted (update_shutdown c e o now).0
unfolding update_shutdown
update_shutdown-LastCounted c e o now h = elim (Bool-cases (is_shutdown_write o)) [
  | inl part ↦ rw part h
  | inr other ↦ rw other h
]

update_episode-LastCounted :
    (c : Settings) (e : Episode) (o : Observation) → LastCounted (update_episode c e o).0
unfolding update_episode
update_episode-LastCounted c e o =
    update_shutdown-LastCounted c _ o.operation o.observed_epoch
      (counts-last o.outcome_state e.outcome_states)

reports : (c : Settings) → Carried c LastCounted IsReport
unfolding render
reports c = record {
  starts = λ n o. update_episode-LastCounted c (new_episode c n o) o;
  goes_on = λ e o _. update_episode-LastCounted c e o;
  renders = λ e h. (
    h,
    record {
      shutdown = e.shutdown;
      classified = refl;
      grave = refl;
      urgent = refl;
      true_to = refl;
      last_counted = h;
    },
  );
}

none_in : {A : Type 0} (xs ys : List A) → (xs ++ ys ≡ []) ↔ ((xs ≡ []) × (ys ≡ []))
none_in [] ys = (λ h. (refl, h), λ h. h.1)
none_in (x ∷ xs) ys = (λ h. absurd (cc), λ h. absurd (cc (h.0)))

no_error : (b : Bool) (e : SemanticError) → (error_if b e ≡ []) ↔ (b ≡ false)
no_error b e = ground arith

detection_lem :
    (s b : Bool) (v : Event)
    → v.classification ≡ (if b then codes "process_shutdown_sequence" else codes "modbus_write")
    → v.severity ≡ (if b then codes "critical" else codes "high")
    → v.priority ≡ (if b then codes "p1" else codes "p2")
    → (detection_errors s v.classification v.severity v.priority ≡ [])
      ↔ (s ≡ text_eq v.classification (codes "process_shutdown_sequence"))
unfolding detection_errors text_eq
detection_lem true true v c s p = rw (c, s, p) (λ h. refl, λ h. refl)
detection_lem false false v c s p = rw (c, s, p) (λ h. refl, λ h. refl)
detection_lem true false v c s p = rw (c, s, p) (λ h. absurd (cc), λ h. absurd (cc))
detection_lem false true v c s p = rw (c, s, p) (λ h. absurd (cc), λ h. absurd (cc))

truth_lem :
    (o : Outcome) (s : Outcomes) (t : Text)
    → t ≡ truth_of o
    → 0 < count_of o s
    → (truth_errors t s ≡ []) ↔ (o ≡ unknown → (s.processed_count ≡ 0) × (s.rejected_count ≡ 0))
unfolding truth_errors truth_of text_eq
truth_lem processed s t e h = rw e (λ _ u. absurd (cc u), λ _. ground arith)
truth_lem rejected s t e h = rw e (λ _ u. absurd (cc u), λ _. ground arith)
truth_lem unknown s t e h = rw e (λ k _. ground arith, λ k. let both = k refl in ground arith)

total_lem : (ws : List Bucket) → total_count ws ≡ counted ws
unfolding total_count
total_lem [] = refl
total_lem (w ∷ ws) = omega (arith, total_lem ws)

count_lem : (c : Settings) (v : Event) → BalancedEvent c v → count_errors (document_of v) ≡ []
unfolding count_errors document_of
count_lem c v h =
    rw (total_lem v.writes) (let a = h.in_buckets in let b = h.by_outcome in ground (arith, a, b))

identity_lem :
    (time : Text → Parsed) (v : Event)
    → identity_errors time v.event_id v.event_id v.event_id v.first_observed_at v.last_observed_at
      ≡ time_errors (time v.first_observed_at) (time v.last_observed_at)
unfolding identity_errors
identity_lem time v = rw text_eq_refl refl

-- Where the receiver's view of an event agrees with the sensor's.
pub record IsAcceptable (time : Text → Parsed) (v : Event) : Type 0 where
  pub in_order : TimesFit (time v.first_observed_at) (time v.last_observed_at)
  pub same_codes : (n : ℕ) → has_code n v.function_codes ≡ has_code n (codes_of v.writes)
  pub same_verdict :
      is_shutdown_sequence v.writes ≡ text_eq v.classification (codes "process_shutdown_sequence")
  pub clear_outcome :
      v.last_state ≡ unknown
      → (v.outcome_states.processed_count ≡ 0) × (v.outcome_states.rejected_count ≡ 0)

not-true : (b : Bool) → (not b ≡ false) ↔ (b ≡ true)
not-true b = ground arith

all_none :
    {A : Type 0} (a b c d e : List A)
    → (a ++ b ++ c ++ d ++ e ≡ []) ↔ ((a ≡ []) × (b ≡ []) × (c ≡ []) × (d ≡ []) × (e ≡ []))
all_none a b c d e = (
  λ h.
      let (h1, he) = (none_in (a ++ b ++ c ++ d) e).0 h in
      let (h2, hd) = (none_in (a ++ b ++ c) d).0 h1 in
      let (h3, hc) = (none_in (a ++ b) c).0 h2 in
      let (ha, hb) = (none_in a b).0 h3 in (ha, hb, hc, hd, he),
  λ h. let (ha, hb, hc, hd, he) = h in rw (ha, hb, hc, hd, he) refl,
)

accepted_iff :
    (c : Settings) (time : Text → Parsed) (v : Event)
    → BalancedEvent c v
    → IsReport v
    → (semantic_errors time (write_event (document_of v)) ≡ []) ↔ IsAcceptable time v
unfolding semantic_errors document_of
accepted_iff c time v balanced report =
    let detection =
      detection_lem (is_shutdown_sequence v.writes) report.shutdown v report.classified report.grave
        report.urgent in
    let truth =
      truth_lem v.last_state v.outcome_states v.truth report.true_to report.last_counted in
    (
      λ none.
          let (times, same, _, verdict, clear) = (all_none _ _ _ _ _).0 none in
          record {
            in_order = (times_lem _ _).0 (rw⁻¹ (identity_lem time v) times);
            same_codes = (same_codes_lem _ _).0 ((not-true _).0 ((no_error _ codes_differ).0 same));
            same_verdict = detection.0 verdict;
            clear_outcome = truth.0 clear;
          },
      λ h. (all_none _ _ _ _ _).1 (
        rw (identity_lem time v) ((times_lem _ _).1 h.in_order),
        (no_error _ codes_differ).1 ((not-true _).1 ((same_codes_lem _ _).1 h.same_codes)),
        count_lem c v balanced,
        detection.1 h.same_verdict,
        truth.1 h.clear_outcome,
      ),
    )

All-both :
    {A : Type 0} (P Q R : A → Type 0)
    → ((a : A) → P a → Q a → R a)
    → (xs : List A) → All P xs
    → All Q xs
    → All R xs
All-both P Q R f [] p q = tt
All-both P Q R f (x ∷ xs) p q = (f x p.0 q.0, All-both P Q R f xs p.1 q.1)

-- For every event of any history of calls of the episode aggregator, the content checks of the
-- receiver find nothing exactly when neither time is read as one without a zone, the last is not
-- before the first where both are read, the function codes of the event and of its writes are
-- the same set, the receiver finds a shutdown in the writes exactly when the event says so, and
-- an event whose last outcome is unknown counts none processed or rejected.
pub run-accepted :
    (c : Settings) (inputs : List Input) (time : Text → Parsed)
    → All
        (λ v. (semantic_errors time (write_event (document_of v)) ≡ []) ↔ IsAcceptable time v)
        (run c inputs no_episodes).1
run-accepted c inputs time =
    All-both (BalancedEvent c) IsReport _ (accepted_iff c time) _ (run-Balanced c inputs)
      (run-Carried (reports c) inputs)
