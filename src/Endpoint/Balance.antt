-- ===== src/Endpoint/Balance.antt =====
-- The counters of an episode under one observation, and under the sorting of its writes.
use dtlab_control_center.Prelude.{
  ℕ, suc, ◌+◌, ◌≤◌, ◌≡◌, refl, true, List, [], ◌∷◌, ◌++◌, arith, inl, inr, length, length-append,
  any, Bool-cases, leb,
}
use dtlab_control_center.Endpoint.Episodes.{
  Outcome, processed, rejected, unknown, Observation, Operation, Bucket, Outcomes, Episode,
  Settings, same_write, bump, count_outcome, count_write, is_shutdown_write, update_shutdown,
  update_episode,
}
use dtlab_control_center.Endpoint.Aggregator.{Event, write_before, insert_bucket, sort_writes}

-- The requests that the buckets count
abbrev pub counted : List Bucket → ℕ
counted [] = 0
counted (b ∷ rest) = b.count + counted rest

abbrev pub all_outcomes : Outcomes → ℕ
all_outcomes s = s.processed_count + (s.rejected_count + s.unknown_count)

-- Every request is in a bucket or dropped, every request has an outcome, and the buckets are bounded.
pub record Balanced (limit : ℕ) (requests : ℕ) (writes : List Bucket) (dropped : ℕ)
    (outcomes : Outcomes) : Type 0 where
  pub in_buckets : requests ≡ counted writes + dropped
  pub by_outcome : requests ≡ all_outcomes outcomes
  pub bounded : length writes ≤ limit

abbrev pub BalancedEpisode : Settings → Episode → Type 0
BalancedEpisode c e =
    Balanced c.max_operation_buckets e.request_count e.writes e.dropped_operation_buckets
      e.outcome_states

abbrev pub BalancedEvent : Settings → Event → Type 0
BalancedEvent c v =
    Balanced c.max_operation_buckets v.request_count v.writes v.dropped_operation_buckets
      v.outcome_states

counted-append : (xs ys : List Bucket) → counted (xs ++ ys) ≡ counted xs + counted ys
counted-append [] ys = omega arith
counted-append (x ∷ xs) ys = omega (arith, counted-append xs ys)

counted-bump :
    (o : Operation) (xs : List Bucket)
    → any (same_write o) xs ≡ true
    → counted (bump o xs) ≡ counted xs + 1
unfolding bump
counted-bump o [] h = cc
counted-bump o (b ∷ xs) h = elim (Bool-cases (same_write o b)) [
  | inl same ↦ rw same (omega arith)
  | inr other ↦ (let rest = counted-bump o xs (ground arith) in rw other (omega (arith, rest)))
]

length-bump : (o : Operation) (xs : List Bucket) → length (bump o xs) ≡ length xs
unfolding bump
length-bump o [] = refl
length-bump o (b ∷ xs) = elim (Bool-cases (same_write o b)) [
  | inl same ↦ rw same refl
  | inr other ↦ rw other (omega (arith, length-bump o xs))
]

all_outcomes-count :
    (o : Outcome) (s : Outcomes) → all_outcomes (count_outcome o s) ≡ all_outcomes s + 1
unfolding count_outcome
all_outcomes-count processed s = omega arith
all_outcomes-count rejected s = omega arith
all_outcomes-count unknown s = omega arith

count_write-Balanced :
    (c : Settings) (o : Operation) (state : Outcome) (requests : ℕ) (writes : List Bucket)
    (dropped : ℕ) (s : Outcomes)
    → Balanced c.max_operation_buckets requests writes dropped s
    → Balanced c.max_operation_buckets
        (requests + 1)
        (count_write c o writes dropped).0
        (count_write c o writes dropped).1
        (count_outcome state s)
unfolding count_write
count_write-Balanced c o state requests writes dropped s h =
    elim (Bool-cases (any (same_write o) writes)) [
      | inl known ↦ rw known record {
        in_buckets = omega (arith, counted-bump o writes known, h.in_buckets);
        by_outcome = omega (arith, all_outcomes-count state s, h.by_outcome);
        bounded = omega (arith, length-bump o writes, h.bounded);
      }
      | inr new ↦ elim (Bool-cases (leb c.max_operation_buckets (length writes))) [
        | inl full ↦
            rw (new, full)
              record {
                in_buckets = omega (arith, h.in_buckets);
                by_outcome = omega (arith, all_outcomes-count state s, h.by_outcome);
                bounded = h.bounded;
              }
        | inr room ↦
            rw (new, room)
              record {
                in_buckets = omega (
                  arith,
                  counted-append writes (record { operation = o; count = 1 } ∷ []),
                  h.in_buckets,
                );
                by_outcome = omega (arith, all_outcomes-count state s, h.by_outcome);
                bounded =
                    (let grown = length-append writes (record { operation = o; count = 1 } ∷ []) in
                      ground (arith, grown));
              }
      ]
    ]

update_shutdown-counters :
    (c : Settings) (e : Episode) (o : Operation) (now : ℕ)
    → BalancedEpisode c e
    → BalancedEpisode c (update_shutdown c e o now).0
unfolding update_shutdown
update_shutdown-counters c e o now h = elim (Bool-cases (is_shutdown_write o)) [
  | inl part ↦
      rw part record { in_buckets = h.in_buckets; by_outcome = h.by_outcome; bounded = h.bounded }
  | inr other ↦ rw other h
]

pub update_episode-Balanced :
    (c : Settings) (e : Episode) (o : Observation)
    → BalancedEpisode c e
    → BalancedEpisode c (update_episode c e o).0
unfolding update_episode
update_episode-Balanced c e o h =
    let step =
      count_write-Balanced c o.operation o.outcome_state e.request_count e.writes
        e.dropped_operation_buckets e.outcome_states h in
    let after = update_shutdown-counters c _ o.operation o.observed_epoch (record {
      in_buckets = step.in_buckets;
      by_outcome = step.by_outcome;
      bounded = step.bounded;
    }) in
    record { in_buckets = after.in_buckets; by_outcome = after.by_outcome; bounded = after.bounded }

counted-insert :
    (b : Bucket) (xs : List Bucket) → counted (insert_bucket b xs) ≡ b.count + counted xs
unfolding insert_bucket
counted-insert b [] = refl
counted-insert b (d ∷ xs) = elim (Bool-cases (write_before d.operation b.operation)) [
  | inl later ↦ rw later (omega (arith, counted-insert b xs))
  | inr here ↦ rw here refl
]

length-insert : (b : Bucket) (xs : List Bucket) → length (insert_bucket b xs) ≡ suc (length xs)
unfolding insert_bucket
length-insert b [] = refl
length-insert b (d ∷ xs) = elim (Bool-cases (write_before d.operation b.operation)) [
  | inl later ↦ rw later (omega (arith, length-insert b xs))
  | inr here ↦ rw here refl
]

pub counted-sort : (xs : List Bucket) → counted (sort_writes xs) ≡ counted xs
unfolding sort_writes
counted-sort [] = refl
counted-sort (b ∷ xs) = omega (arith, counted-insert b (sort_writes xs), counted-sort xs)

pub length-sort : (xs : List Bucket) → length (sort_writes xs) ≡ length xs
unfolding sort_writes
length-sort [] = refl
length-sort (b ∷ xs) = omega (arith, length-insert b (sort_writes xs), length-sort xs)
