-- ===== src/Tickets/Ingested.antt =====
-- A snapshot that is ingested again.
use dtlab_control_center.Prelude.{
  ◌≡◌, refl, ap, true, false, Option, List, [], ◌∷◌, ◌++◌, Text, ok, find, is_some, arith,
  Bool-cases, inl, inr, text_eq, text_eq_refl, find-append, any, not, text_lower, if◌then◌else◌,
}
use dtlab_control_center.Tickets.Model.{Db, Ingest, validation}
use dtlab_control_center.Tickets.Sla.{Env}
use dtlab_control_center.Tickets.Tables.{pure, raise, gets, modify, ◌>>=◌, ◌>>◌}
use dtlab_control_center.Tickets.Validation.{sha256_text}
use dtlab_control_center.Tickets.Signals.{
  Runtime, SignalInput, IngestStats, no_stats, ingest_at, ingest_new, ingest_snapshot_signals,
  snapshot_ingested, insert_ingest,
}
use dtlab_control_center.Tickets.Runs.{step, lift_ok, by_lift, by_step}

found_last :
    (digest : Text) (xs : List Ingest) (row : Ingest)
    → row.snapshot_sha256 ≡ digest
    → is_some (find (ingest_at digest) (xs ++ row ∷ [])) ≡ true
unfolding find
found_last digest xs row e = rw (find-append, e, text_eq_refl) (ground arith)

inserted :
    (rt : Runtime) (digest : Text) (row : Ingest) (db mid end : Db) (made : IngestStats)
    {stats : IngestStats} {u : Unit {0}}
    → row.snapshot_sha256 ≡ digest
    → insert_ingest rt row db ≡ ok (u, mid)
    → pure made mid ≡ ok (stats, end)
    → is_some (find (ingest_at digest) end.ingests) ≡ true
unfolding insert_ingest modify pure
inserted rt digest row db mid end made e r h =
    let last : end.ingests ≡ db.ingests ++ row ∷ [] = ground arith in
    rw last (found_last digest db.ingests row e)

ingest_new-marked :
    (rt : Runtime) (env : Env) (batch : List SignalInput) (digest id at : Text) (db end : Db)
    (stats : IngestStats)
    → ingest_new rt env batch digest id at (is_some (find (ingest_at digest) db.ingests)) db
      ≡ ok (stats, end)
    → is_some (find (ingest_at digest) end.ingests) ≡ true
ingest_new-marked rt env batch digest id at db end stats run =
    elim (Bool-cases (is_some (find (ingest_at digest) db.ingests))) [
      | inl there ↦ rw (ap (λ (x : Db). x.ingests) (kept (rw there at run))) there
      | inr absent ↦ marked (rw absent at run)
    ]
  where
    kept : ingest_new rt env batch digest id at true db ≡ ok (stats, end) → end ≡ db
    kept h = unfold ingest_new pure in ground arith

    marked :
        ingest_new rt env batch digest id at false db ≡ ok (stats, end)
        → is_some (find (ingest_at digest) end.ingests) ≡ true
    marked h =
        unfold ingest_new in
        by_step _ _ _ h λ counts mid r h1.
          by_step _ _ _ h1 λ u mid2 r2 h2. inserted rt digest _ mid mid2 end _ refl r2 h2

marker_of :
    (digest : Text) (mid mid1 : Db) (marker : Option Ingest)
    → gets (λ db. find (ingest_at digest) db.ingests) mid ≡ ok (marker, mid1)
    → marker ≡ find (ingest_at digest) mid1.ingests
unfolding gets
marker_of digest mid mid1 marker h = ground arith

marker_seen :
    (digest : Text) (end : Db)
    → is_some (find (ingest_at digest) end.ingests) ≡ true
    → gets (λ db. is_some (find (ingest_at digest) db.ingests)) end ≡ ok (true, end)
unfolding gets
marker_seen digest end h = rw h refl

ingest_marked :
    (rt : Runtime) (env : Env) (batch : List SignalInput) (digest id at : Text) (db : Db)
    → any (λ (s : SignalInput). not (text_eq (text_lower s.snapshot_sha256) digest)) batch ≡ false
    → is_some (find (ingest_at digest) db.ingests) ≡ true
    → ((if any (λ (s : SignalInput). not (text_eq (text_lower s.snapshot_sha256) digest)) batch
            then raise {A = Unit {0}} validation
            else pure tt)
          >> (gets (λ db. find (ingest_at digest) db.ingests) >>= λ marker.
              ingest_new rt env batch digest id at (is_some marker)))
        db
      ≡ ok (no_stats rt, db)
unfolding ◌>>=◌
ingest_marked rt env batch digest id at db same there = rw (same, there) (unfold ingest_new in refl)

-- When the ingestion of a snapshot has succeeded, its marker is found, and a further ingestion
-- under the same digest, identifier and date, with any signals of that digest, succeeds, counts
-- nothing and changes nothing.
pub ingest_again :
    (rt : Runtime) (env again : Env) (batch rest : List SignalInput) (sha id at : Text)
    (db end : Db) (stats : IngestStats)
    → ingest_snapshot_signals rt env batch sha id at db ≡ ok (stats, end)
    → ((digest : Text)
        → sha256_text sha 64 ≡ ok digest
        → any (λ (s : SignalInput). not (text_eq (text_lower s.snapshot_sha256) digest)) rest
          ≡ false)
    → (snapshot_ingested rt sha end ≡ ok (true, end))
      × (ingest_snapshot_signals rt again rest sha id at end ≡ ok (no_stats rt, end))
unfolding ingest_snapshot_signals snapshot_ingested
ingest_again rt env again batch rest sha id at db end stats run same =
    by_lift _ _ _ run λ digest r1 run1. by_lift _ _ _ run1 λ key r2 run2.
      by_lift _ _ _ run2 λ time r3 run3. by_step _ _ _ run3 λ u mid r4 run4.
        by_step _ _ _ run4 λ marker mid1 r5 run5.
          let there : is_some (find (ingest_at digest) end.ingests) ≡ true =
            ingest_new-marked rt env batch digest key time mid1 end stats
              (rw (marker_of digest mid mid1 marker r5) at run5) in
          (
            step _ _ (lift_ok end r1) (marker_seen digest end there),
            step _ _ (lift_ok end r1) (
                step _ _ (lift_ok end r2) (
                  step _ _ (lift_ok end r3)
                    (ingest_marked rt again rest digest key time end (same digest r1) there))),
          )
