-- ===== src/Snapshots/Refines.antt =====
-- AtomicSnapshotStore.publish against what it promises its readers.
use dtlab_control_center.Prelude.{
  ℕ, ◌≡◌, refl, subst, Bool, true, false, Option, none, some, or_else, List, [], ◌∷◌, ◌++◌, Text,
  Result, ok, err, if◌then◌else◌, Option-cases, inl, inr, ◌⊎◌,
}
use dtlab_control_center.Json.{Json, object, Members}
use dtlab_control_center.Snapshots.{
  Library, Failure, caught, StoredSnapshot, Pointer, current, last_known_good, previous, Store,
  pointer_name, decode_manifest, read_manifest, load,
}
use dtlab_control_center.Snapshots.Publish.{
  Write, point, apply, apply_all, Attempt, on_ok, on_writes, is_fresh, mark_good, keep_previous,
  switch_pointers,
}
use dtlab_control_center.Snapshots.Readable.{
  Entry, Opens, Shown, AllSafe, apply-Shown, point-Shown, AllSafe-append, apply_all-append,
  Shown-load,
}
use dtlab_control_center.Snapshots.Shelf.{Shelf, Shows, Laws, shelve}
use dtlab_control_center.Snapshots.Pointers.{manifest_in, switched, switch-Shows}

module _ {B : Type 0} (c : Library B) (now : ℕ) where
  -- The shelf after a call that returns, and after one that raises
  abbrev pub Promised : Shelf → (Members → Shelf) → Result Failure Members → Store B → Type 0
  Promised shelf after (ok m) s = Shows c s (after m)
  Promised shelf after (err e) s = Shows c s shelf

  -- A call whose writes are safe, and that leaves what is promised
  pub record Refined (s : Store B) (shelf : Shelf) (after : Members → Shelf) (o : Attempt B Members)
      : Type 0 where
    pub safe : AllSafe c now s o.1
    pub promised : Promised shelf after o.0 (apply_all now o.1 s)

  pub on_ok-Refined :
      {A : Type 0} (r : Result Failure A) (next : A → Attempt B Members) (s : Store B)
      (shelf : Shelf) (after : Members → Shelf)
      → Shows c s shelf
      → ((a : A) → r ≡ ok a → Refined s shelf after (next a))
      → Refined s shelf after (on_ok r next)
  unfolding apply_all
  on_ok-Refined (ok a) next s shelf after h goes_on = goes_on a refl
  on_ok-Refined (err e) next s shelf after h goes_on = record { safe = tt; promised = h }

  pub on_writes-Refined :
      (ws : List (Write B)) (next : Store B → Attempt B Members) (s : Store B) (shelf : Shelf)
      (after : Members → Shelf)
      → AllSafe c now s ws
      → Refined (apply_all now ws s) shelf after (next (apply_all now ws s))
      → Refined s shelf after (on_writes now ws s next)
  on_writes-Refined ws next s shelf after safe rest = record {
    safe = AllSafe-append c now ws (next (apply_all now ws s)).1 s safe rest.safe;
    promised = rw (apply_all-append c now ws (next (apply_all now ws s)).1 s) rest.promised;
  }

  abbrev stored : Pointer → Option Entry → Option StoredSnapshot
  stored p none = none
  stored p (some e) =
      some (record { snapshot = e.snapshot; manifest = e.manifest; pointer = pointer_name p })

  caught-load :
      (s : Store B) (p : Pointer) (o : Option Entry)
      → Shown c s p o
      → caught c (load c p s) ≡ ok (stored p o)
  unfolding load read_manifest
  caught-load s p none h = rw h refl
  caught-load s p (some e) h = rw (Shown-load c s p e h) refl

  caught-read :
      (s : Store B) (p : Pointer) (o : Option Entry)
      → Shown c s p o
      → caught c (read_manifest c p s) ≡ ok (manifest_in o)
  unfolding read_manifest
  caught-read s p none h = rw h refl
  caught-read s p (some e) h = rw h.0 refl

  -- The shelf that the last write leaves
  abbrev marked : Bool → Entry → Shelf → Shelf
  marked fresh e shelf current = shelf current
  marked fresh e shelf previous = shelf previous
  marked fresh e shelf last_known_good =
      if fresh then some e else or_else (shelf last_known_good) (some e)

  module _ (e : Entry) (content : B) (decodes : decode_manifest c content ≡ ok e.manifest) where
    good-Shows :
        (s : Store B) (shelf : Shelf) (fresh : Bool)
        → Shows c s shelf
        → Opens c s.objects e
        → (fresh ≡ true) ⊎ (shelf last_known_good ≡ none)
        → Shows c (apply now (point last_known_good content) s) (marked fresh e shelf)
    good-Shows s shelf fresh h opens why current =
        apply-Shown c now (point last_known_good content) s current (shelf current)
          (e, decodes, opens) refl (h current)
    good-Shows s shelf fresh h opens why previous =
        apply-Shown c now (point last_known_good content) s previous (shelf previous)
          (e, decodes, opens) refl (h previous)
    good-Shows s shelf fresh h opens (inl is_new) last_known_good =
        rw is_new (point-Shown c now last_known_good content s e decodes opens)
    good-Shows s shelf true h opens (inr absent) last_known_good =
        point-Shown c now last_known_good content s e decodes opens
    good-Shows s shelf false h opens (inr absent) last_known_good =
        rw absent (point-Shown c now last_known_good content s e decodes opens)

    none-marked :
        (s : Store B) (shelf : Shelf) (g : Entry)
        → Shows c s shelf
        → shelf last_known_good ≡ some g
        → Shows c s (marked false e shelf)
    none-marked s shelf g h there current = h current
    none-marked s shelf g h there previous = h previous
    none-marked s shelf g h there last_known_good =
        rw there (subst (λ o. Shown c s last_known_good o) there (h last_known_good))

  mark_good-Refined :
      (snapshot : Json) (e : Entry) (fresh : Bool) (s : Store B) (shelf before : Shelf)
      → is_fresh snapshot ≡ ok fresh
      → decode_manifest c (c.dumps (object e.manifest)) ≡ ok e.manifest
      → Opens c s.objects e
      → Shows c s shelf
      → (after : Members → Shelf)
      → ((t : Store B) → Shows c t (marked fresh e shelf) → Shows c t (after e.manifest))
      → Refined s before after (mark_good c snapshot e.manifest s)
  unfolding mark_good apply_all
  mark_good-Refined snapshot e true s shelf before f decodes opens h after promise =
      rw (caught-load s last_known_good (shelf last_known_good) (h last_known_good), f)
        record {
          safe = ((e, decodes, opens), tt);
          promised =
              promise (apply now (point last_known_good (c.dumps (object e.manifest))) s) (
                good-Shows e (c.dumps (object e.manifest)) decodes s shelf true h opens (inl refl));
        }
  mark_good-Refined snapshot e false s shelf before f decodes opens h after promise =
      elim (Option-cases (shelf last_known_good)) [
        | inl absent ↦
            rw
              (
                caught-load s last_known_good none
                    (subst (λ o. Shown c s last_known_good o) absent (h last_known_good)),
                f,
              )
              record {
                safe = ((e, decodes, opens), tt);
                promised =
                    promise (apply now (point last_known_good (c.dumps (object e.manifest))) s) (
                      good-Shows e (c.dumps (object e.manifest)) decodes s shelf false h opens
                        (inr absent));
              }
        | inr (g, there) ↦
            rw
              (
                caught-load s last_known_good (some g)
                    (subst (λ o. Shown c s last_known_good o) there (h last_known_good)),
                f,
              )
              record {
                safe = tt;
                promised =
                    promise s
                      (none-marked e (c.dumps (object e.manifest)) decodes s shelf g h there);
              }
      ]

module _ {B : Type 0} {c : Library B} (laws : Laws c) (now : ℕ) where
  switched-marked :
      (fresh : Bool) (digest : Text) (e : Entry) (s : Store B) (shelf : Shelf)
      → Shows c s (marked c now fresh e (switched digest e shelf))
      → Shows c s (shelve fresh digest e shelf)
  unfolding switched shelve
  switched-marked fresh digest e s shelf h current = h current
  switched-marked fresh digest e s shelf h previous = h previous
  switched-marked fresh digest e s shelf h last_known_good = h last_known_good

  -- The shelf behind the publication of a snapshot
  abbrev pub shelved : Bool → Text → Json → Shelf → Members → Shelf
  shelved fresh digest snapshot shelf m =
      shelve fresh digest (record { manifest = m; snapshot = snapshot }) shelf

  pub switch-Refined :
      (fresh : Bool) (digest : Text) (e : Entry) (s : Store B) (shelf : Shelf)
      → is_fresh e.snapshot ≡ ok fresh
      → decode_manifest c (c.dumps (object e.manifest)) ≡ ok e.manifest
      → Opens c s.objects e
      → Shows c s shelf
      → Refined c now s shelf
          (shelved fresh digest e.snapshot shelf)
          (switch_pointers c now e.snapshot digest e.manifest s)
  unfolding switch_pointers switched
  switch-Refined fresh digest e s shelf f decodes opens h =
      let ws =
        keep_previous c digest (manifest_in (shelf current))
        ++ point current (c.dumps (object e.manifest)) ∷ [] in
      let (safe, shows) =
        switch-Shows laws now s shelf e (c.dumps (object e.manifest)) digest decodes opens h in
      let opens1 : Opens c (apply_all now ws s).objects e = record {
        opens = (shows current).1.opens;
        in_order = opens.in_order;
      } in
      rw (caught-read c now s current (shelf current) (h current)) (
        on_writes-Refined c now ws (mark_good c e.snapshot e.manifest) s shelf
          (shelved fresh digest e.snapshot shelf) safe
          (mark_good-Refined c now e.snapshot e fresh (apply_all now ws s) (switched digest e shelf)
            shelf f decodes opens1 shows (shelved fresh digest e.snapshot shelf)
            (λ t. switched-marked fresh digest e t shelf)))
