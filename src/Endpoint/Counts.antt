-- ===== src/Endpoint/Counts.antt =====
-- What the counters of an episode, and of the events rendered from it, say of the observations in it.
use dtlab_control_center.Prelude.{ℕ, refl, List, arith, All}
use dtlab_control_center.Endpoint.Episodes.{Observation, Episode, Settings, new_episode}
use dtlab_control_center.Endpoint.Aggregator.{render, Input, run, no_episodes}
use dtlab_control_center.Endpoint.Carried.{Carried, run-Carried}
use dtlab_control_center.Endpoint.Balance.{
  BalancedEpisode, BalancedEvent, update_episode-Balanced, counted-sort, length-sort,
}

module _ (c : Settings) where
  render-Balanced :
      (e : Episode)
      → BalancedEpisode c e
      → BalancedEpisode c (render e).0 × BalancedEvent c (render e).1
  unfolding render
  render-Balanced e h = (
    record { in_buckets = h.in_buckets; by_outcome = h.by_outcome; bounded = h.bounded },
    record {
      in_buckets = omega (arith, counted-sort e.writes, h.in_buckets);
      by_outcome = h.by_outcome;
      bounded =
          (let same = length-sort e.writes in let fits = h.bounded in omega (arith, same, fits));
    },
  )

  new_episode-Balanced : (n : ℕ) (o : Observation) → BalancedEpisode c (new_episode c n o)
  unfolding new_episode
  new_episode-Balanced n o = record { in_buckets = refl; by_outcome = refl; bounded = omega arith }

  balance : Carried c (BalancedEpisode c) (BalancedEvent c)
  balance = record {
    starts = λ n o. update_episode-Balanced c (new_episode c n o) o (new_episode-Balanced n o);
    goes_on = update_episode-Balanced c;
    renders = render-Balanced;
  }

-- Every event of any history of calls of the episode aggregator has as many requests as its
-- writes count together with the dropped ones, as many as its three outcomes together, and no
-- more writes than the configured limit.
pub run-Balanced :
    (c : Settings) (inputs : List Input) → All (BalancedEvent c) (run c inputs no_episodes).1
run-Balanced c inputs = run-Carried (balance c) inputs
