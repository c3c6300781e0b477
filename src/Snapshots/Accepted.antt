-- ===== src/Snapshots/Accepted.antt =====
-- What publish does to a store, for its readers and at any point at which it is interrupted.
use dtlab_control_center.Prelude.{
  ℕ, ◌≡◌, refl, sym, ◌∙◌, Bool, true, false, some, List, Text, codes, text_eq, text_lt, bind_ok,
  ok_inj, take, Result, ok, err, Bool-cases, Option-cases, inl, inr, arith,
}
use dtlab_control_center.Json.{
  Json, null, boolean, number, string, array, object, Members, end, member, get,
}
use dtlab_control_center.Snapshots.{
  Library, Failure, item, is_text, object_differs, manifest_differs, file_name, current, File,
  Store, pointer_name, read, decode_manifest, load,
}
use dtlab_control_center.Snapshots.Publish.{
  put_object, put_manifest, apply_all, write_once, snapshot_content, manifest_with, manifest_of,
  is_fresh, switch_pointers, publish_manifest, publish,
}
use dtlab_control_center.Snapshots.Readable.{
  in_key_order, members_in_order, Opens, Shown-load, Readable, take-Readable,
}
use dtlab_control_center.Snapshots.Shelf.{Shelf, Shows, Laws, shelve}
use dtlab_control_center.Snapshots.Written.{new_decodes, new_opens, object-Keeps, manifest-Keeps}
use dtlab_control_center.Snapshots.Refines.{
  Refined, on_ok-Refined, on_writes-Refined, shelved, switch-Refined,
}

abbrev pub holds : Result Failure Bool → Bool
holds (ok b) = b
holds (err e) = false

-- `snapshot["sync"]["state"] == "fresh"`, of a snapshot that has a state
abbrev pub fresh_of : Json → Bool
fresh_of snapshot = holds (is_fresh snapshot)

holds_ok : (r : Result Failure Bool) (b : Bool) → r ≡ ok b → r ≡ ok (holds r)
holds_ok r b h = rw h refl

get_in_order :
    (key : Text) (m : Members) (w : Json)
    → members_in_order m ≡ true
    → get key m ≡ some w
    → in_key_order w ≡ true
unfolding get
get_in_order key end w h found = absurd (ground arith)
get_in_order key (member k v rest) w h found = elim (Bool-cases (text_eq k key)) [
  | inl here ↦ let same : v ≡ w = ground arith in rw (sym same) (ground arith)
  | inr later ↦ get_in_order key rest w (ground arith) (rw later at found)
]

item_in_order :
    (key : Text) (v w : Json) → in_key_order v ≡ true → item key v ≡ ok w → in_key_order w ≡ true
unfolding item
item_in_order key (object m) w h found = elim (Option-cases (get key m)) [
  | inl absent ↦ absurd (ground arith)
  | inr (v, there) ↦ get_in_order key m w h (ground arith)
]
item_in_order key null w h found = absurd (ground arith)
item_in_order key (boolean b) w h found = absurd (ground arith)
item_in_order key (number n) w h found = absurd (ground arith)
item_in_order key (string t) w h found = absurd (ground arith)
item_in_order key (array xs) w h found = absurd (ground arith)

module _ {B : Type 0} {c : Library B} (laws : Laws c) (now : ℕ) where
  content_of :
      (allow_demo : Bool) (snapshot : Json) (content : B)
      → snapshot_content c allow_demo snapshot ≡ ok content
      → (c.dumps snapshot ≡ content) × (c.is_valid snapshot ≡ true)
  unfolding snapshot_content
  content_of allow_demo snapshot content h = ground arith

  -- The manifest of an object that is there is read back, and opens the snapshot.
  manifest_facts :
      (snapshot : Json) (content : B) (published_at : Text) (m : Members)
      → in_key_order snapshot ≡ true
      → c.loads content ≡ some snapshot
      → c.is_valid snapshot ≡ true
      → manifest_of c snapshot content published_at ≡ ok m
      → (decode_manifest c (c.dumps (object m)) ≡ ok m)
        × ((objects : List (File B))
            → read (file_name (c.sha256 content)) objects ≡ some content
            → Opens c objects (record { manifest = m; snapshot = snapshot }))
  unfolding manifest_of text_eq text_lt
  manifest_facts snapshot content published_at m order loaded valid made =
      let (version, has_version, made1) =
        bind_ok (item (codes "schema_version") snapshot) _ m made in
      let (id, has_id, made2) = bind_ok (item (codes "snapshot_id") snapshot) _ m made1 in
      let (sync, has_sync, made3) = bind_ok (item (codes "sync") snapshot) _ m made2 in
      let (collector, has_collector, made4) =
        bind_ok (item (codes "collector_version") sync) _ m made3 in
      let (text, is_string) = laws.valid_id snapshot valid in
      let id_text : id ≡ string text = ok_inj (sym has_id ∙ is_string) in
      let whole : manifest_with c version (string text) collector content published_at ≡ m =
        rw (sym id_text) (ok_inj made4) in
      let version_order =
        item_in_order (codes "schema_version") snapshot version order has_version in
      let collector_order =
        item_in_order (codes "collector_version") sync collector
          (item_in_order (codes "sync") snapshot sync order has_sync) has_collector in
      let in_order : in_key_order
            (object (manifest_with c version (string text) collector content published_at))
          ≡ true =
        rw (version_order, collector_order) refl in
      rw (sym whole) (
        new_decodes laws version (string text) collector content published_at
            (laws.reads_back _ in_order),
        λ objects there. record {
          opens =
              new_opens laws version collector snapshot text content published_at objects loaded
                valid is_string there;
          in_order = in_order;
        },
      )

  fresh_known :
      (snapshot : Json) → c.is_valid snapshot ≡ true → is_fresh snapshot ≡ ok (fresh_of snapshot)
  unfolding is_fresh
  fresh_known snapshot valid =
      let (sync, state, has_sync, has_state) = laws.valid_state snapshot valid in
      holds_ok (is_fresh snapshot) (is_text (codes "fresh") state) (rw (has_sync, has_state) refl)

  manifest-Refined :
      (published_at : Text) (snapshot : Json) (content : B) (s : Store B) (shelf : Shelf)
      → in_key_order snapshot ≡ true
      → c.loads content ≡ some snapshot
      → c.is_valid snapshot ≡ true
      → read (file_name (c.sha256 content)) s.objects ≡ some content
      → Shows c s shelf
      → Refined c now s shelf
          (shelved laws now (fresh_of snapshot) (c.sha256 content) snapshot shelf)
          (publish_manifest c now published_at snapshot content s)
  unfolding publish_manifest
  manifest-Refined published_at snapshot content s shelf order loaded valid there h =
      let after = shelved laws now (fresh_of snapshot) (c.sha256 content) snapshot shelf in
      on_ok-Refined c now (manifest_of c snapshot content published_at) _ s shelf after h λ m made.
        let (decodes, opens) =
          manifest_facts snapshot content published_at m order loaded valid made in
        on_ok-Refined c now
          (write_once c manifest_differs put_manifest _ (c.dumps (object m)) s.manifests) _ s shelf
          after h
          λ ws written.
            let (keeps, same_objects) =
              manifest-Keeps laws now manifest_differs _ (c.dumps (object m)) s ws written in
            on_writes-Refined c now ws (switch_pointers c now snapshot (c.sha256 content) m) s shelf
              after keeps.safe
              (switch-Refined laws now (fresh_of snapshot) (c.sha256 content)
                (record { manifest = m; snapshot = snapshot }) (apply_all now ws s) shelf
                (fresh_known snapshot valid) decodes (rw same_objects (opens s.objects there))
                (λ p. keeps.shown p (shelf p) (h p)))

  -- From a store whose pointers show a shelf of snapshots, for a snapshot in key order and a
  -- library that keeps its laws, publish only does writes that break no pointer, and leaves,
  -- when it returns, the shelf with the snapshot as current, the one displaced from current as
  -- previous where its digest differs, and last_known_good moved exactly when the snapshot is
  -- fresh or there was none; when it raises, the shelf is as it was.
  pub publish-Refined :
      (allow_demo : Bool) (published_at : Text) (snapshot : Json) (s : Store B) (shelf : Shelf)
      → in_key_order snapshot ≡ true
      → Shows c s shelf
      → Refined c now s shelf
          (shelved laws now (fresh_of snapshot) (c.sha256 (c.dumps snapshot)) snapshot shelf)
          (publish c allow_demo now published_at snapshot s)
  unfolding publish
  publish-Refined allow_demo published_at snapshot s shelf order h =
      let after =
        shelved laws now (fresh_of snapshot) (c.sha256 (c.dumps snapshot)) snapshot shelf in
      on_ok-Refined c now (snapshot_content c allow_demo snapshot) _ s shelf after h
        λ content accepted.
          let (printed, valid) = content_of allow_demo snapshot content accepted in
          let loaded : c.loads content ≡ some snapshot =
            rw (sym printed) (laws.reads_back snapshot order) in
          on_ok-Refined c now
            (write_once c object_differs put_object (file_name (c.sha256 content)) content
              s.objects)
            _ s shelf after h
            λ ws written.
              let (keeps, there) =
                object-Keeps laws now object_differs (file_name (c.sha256 content)) content s ws
                  written in
              on_writes-Refined c now ws (publish_manifest c now published_at snapshot content) s
                shelf after keeps.safe
                (rw printed (
                  manifest-Refined published_at snapshot content (apply_all now ws s) shelf order
                    loaded valid there (λ p. keeps.shown p (shelf p) (h p))))

  -- If every pointer of a store is absent or can be loaded, then so it is at whatever write a
  -- publish of a snapshot in key order is interrupted, under a library that keeps its laws.
  pub publish-Readable :
      (allow_demo : Bool) (published_at : Text) (snapshot : Json) (s : Store B) (n : ℕ)
      → in_key_order snapshot ≡ true
      → Readable c s
      → Readable c (apply_all now (take n (publish c allow_demo now published_at snapshot s).1) s)
  publish-Readable allow_demo published_at snapshot s n order h =
      take-Readable c now n _ s
        (publish-Refined allow_demo published_at snapshot s (λ p. (h p).0) order
          (λ p. (h p).1)).safe
        h

  -- When publish of a snapshot in key order returns a manifest, from a store whose pointers show
  -- a shelf, loading current gives the snapshot and that manifest, under a library that keeps
  -- its laws.
  pub publish-load :
      (allow_demo : Bool) (published_at : Text) (snapshot : Json) (s : Store B) (shelf : Shelf)
      (m : Members)
      → in_key_order snapshot ≡ true
      → Shows c s shelf
      → (publish c allow_demo now published_at snapshot s).0 ≡ ok m
      → load c current (apply_all now (publish c allow_demo now published_at snapshot s).1 s)
        ≡ ok (record { snapshot = snapshot; manifest = m; pointer = pointer_name current })
  unfolding shelve
  publish-load allow_demo published_at snapshot s shelf m order h returned =
      Shown-load c _ current (record { manifest = m; snapshot = snapshot })
        ((rw returned at
            (publish-Refined allow_demo published_at snapshot s shelf order h).promised)
          current)
