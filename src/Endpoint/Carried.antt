-- ===== src/Endpoint/Carried.antt =====
-- An invariant of the open episodes, and what it says of the events, over any history of calls.
use dtlab_control_center.Prelude.{
  ℕ, Bool, true, false, ◌||◌, List, [], ◌∷◌, inl, inr, All, All-append, Bool-cases, if◌then◌else◌,
}
use dtlab_control_center.Endpoint.Episodes.{
  Observation, Episode, Settings, Aggregator, same_key, new_episode, update_episode,
}
use dtlab_control_center.Endpoint.Aggregator.{
  Event, render, close_where, flush_expired, flush_source, flush_all, observe_episode, observe_in,
  observe, emit_due, expired, Input, seen, quiet, source_closed, stopped, react, run, no_episodes,
}

-- What a history asks of an invariant `P` of the episodes and a property `E` of the events.
pub record Carried (c : Settings) (P : Episode → Type 0) (E : Event → Type 0) : Type 0 where
  pub starts : (n : ℕ) (o : Observation) → P (update_episode c (new_episode c n o) o).0
  pub goes_on : (e : Episode) (o : Observation) → P e → P (update_episode c e o).0
  pub renders : (e : Episode) → P e → P (render e).0 × E (render e).1

if_All :
    {A : Type 0} (P : A → Type 0) (b : Bool) (xs ys : List A)
    → All P xs
    → All P ys
    → All P (if b then xs else ys)
if_All P true xs ys hx hy = hx
if_All P false xs ys hx hy = hy

module _ {c : Settings} {P : Episode → Type 0} {E : Event → Type 0} (rules : Carried c P E) where
  abbrev Both : List Episode × List Event → Type 0
  Both p = All P p.0 × All E p.1

  last_event :
      (test : Episode → Bool) (e : Episode) (es : List Episode)
      → P e
      → All E (close_where test es).1
      → All E (if e.dirty then (render e).1 ∷ (close_where test es).1 else (close_where test es).1)
  last_event test e es h rest = if_All E e.dirty _ _ ((rules.renders e h).1, rest) rest

  close_where-Carried :
      (test : Episode → Bool) (es : List Episode) → All P es → Both (close_where test es)
  unfolding close_where
  close_where-Carried test [] h = (tt, tt)
  close_where-Carried test (e ∷ es) h =
      let rest = close_where-Carried test es h.1 in
      elim (Bool-cases (test e)) [
        | inl closed ↦ rw closed (rest.0, last_event test e es h.0 rest.1)
        | inr live ↦ rw live ((h.0, rest.0), rest.1)
      ]

  observe_episode-Carried :
      (o : Observation) (e : Episode)
      → P (update_episode c e o).0
      → P (observe_episode c o e).0 × All E (observe_episode c o e).1
  unfolding observe_episode
  observe_episode-Carried o e after =
      elim (Bool-cases (
        emit_due c o.observed_epoch (update_episode c e o).0.last_emit_epoch
        || (update_episode c e o).1)) [
          | inl due ↦ rw due ((rules.renders _ after).0, ((rules.renders _ after).1, tt))
          | inr early ↦ rw early (after, tt)
        ]

  observe_in-Carried :
      (n : ℕ) (o : Observation) (es : List Episode) → All P es → Both (observe_in c n o es)
  unfolding observe_in
  observe_in-Carried n o [] h =
      let made = observe_episode-Carried o (new_episode c n o) (rules.starts n o) in
      ((made.0, tt), made.1)
  observe_in-Carried n o (e ∷ es) h =
      let rest = observe_in-Carried n o es h.1 in
      elim (Bool-cases (same_key o.source o.destination e)) [
        | inl here ↦ rw here (
            let made = observe_episode-Carried o e (rules.goes_on e o h.0) in
            ((made.0, h.1), made.1))
        | inr other ↦ rw other ((h.0, rest.0), rest.1)
      ]

  react-Carried :
      (input : Input) (a : Aggregator)
      → All P a.episodes
      → All P (react c input a).0.episodes × All E (react c input a).1
  unfolding react observe flush_expired flush_source flush_all
  react-Carried (seen o) a h =
      let quiet_ones = close_where-Carried (expired c o.observed_epoch) a.episodes h in
      let both = observe_in-Carried a.next_episode_sequence o _ quiet_ones.0 in
      (both.0, All-append E _ _ quiet_ones.1 both.1)
  react-Carried (quiet now) a h = close_where-Carried _ a.episodes h
  react-Carried (source_closed ip port) a h = close_where-Carried _ a.episodes h
  react-Carried stopped a h = close_where-Carried _ a.episodes h

  run-Carried_from :
      (inputs : List Input) (a : Aggregator)
      → All P a.episodes
      → All P (run c inputs a).0.episodes × All E (run c inputs a).1
  unfolding run
  run-Carried_from [] a h = (h, tt)
  run-Carried_from (input ∷ rest) a h =
      let first = react-Carried input a h in
      let others = run-Carried_from rest (react c input a).0 first.0 in
      (others.0, All-append E _ _ first.1 others.1)

  pub run-Carried : (inputs : List Input) → All E (run c inputs no_episodes).1
  run-Carried inputs = (run-Carried_from inputs no_episodes tt).1
