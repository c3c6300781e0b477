-- ===== src/Snapshots/Unlinked.antt =====
-- What prune_objects leaves, at any point at which it is interrupted.
use dtlab_control_center.Prelude.{
  ℕ, ◌≡◌, refl, sym, ap, ◌∙◌, Bool, true, false, ◌||◌, Option, some, List, [], ◌∷◌, ◌++◌, Text,
  text_eq, text_eq_sound, text_eq_refl, take, leb, bind_ok, Result, ok, err, Result-cases,
  Bool-cases, inl, inr, ◌⊎◌, arith,
}
use dtlab_control_center.Json.{Members}
use dtlab_control_center.Snapshots.{
  Library, Failure, bad_retain, require, caught, object_of, Pointer, current, last_known_good,
  previous, File, Store, read_manifest, read_archived_manifest,
}
use dtlab_control_center.Snapshots.Publish.{
  Write, unlink_object, unlink_manifest, apply, apply_all, Attempt,
}
use dtlab_control_center.Snapshots.Readable.{AllSafe, AllSafe-append, Readable, take-Readable}
use dtlab_control_center.Snapshots.Prune.{
  contains, sorted, newer, name_before, well_named, file_names, unlink_objects, object_in,
  protected, is_stale, unlink_manifests, and_then, prune_objects,
}

contains_append :
    (name : Text) (xs ys : List Text)
    → contains name (xs ++ ys) ≡ (contains name xs || contains name ys)
contains_append name [] ys = refl
contains_append name (x ∷ xs) ys = ground (arith, contains_append name xs ys)

one_of_four : (a b c d : Bool) → (a ≡ true) ⊎ ((b ≡ true) ⊎ (c ≡ true)) → (a || b || c || d) ≡ true
one_of_four a b c d h = ground arith

Pointer-cases : (p : Pointer) → (p ≡ current) ⊎ ((p ≡ last_known_good) ⊎ (p ≡ previous))
Pointer-cases current = inl refl
Pointer-cases last_known_good = inr (inl refl)
Pointer-cases previous = inr (inr refl)

pub kept_apart :
    (name gone : Text) (keep : List Text)
    → contains name keep ≡ true
    → contains gone keep ≡ false
    → text_eq name gone ≡ false
kept_apart name gone keep kept other = elim (Bool-cases (text_eq name gone)) [
  | inr apart ↦ apart
  | inl same ↦
      let one : name ≡ gone = text_eq_sound name gone same in
      absurd (let clash : true ≡ false = sym kept ∙ rw one other in ground arith)
]

module _ {B : Type 0} (c : Library B) where
  -- Every object that a pointer names is kept.
  abbrev Protects : Store B → List Text → Type 0
  Protects s keep =
      (p : Pointer) (m : Members)
      → read_manifest c p s ≡ ok m
      → contains (object_of c m) keep ≡ true

  unlink_objects-AllSafe :
      (now : ℕ) (keep : List Text) (files : List (File B)) (s : Store B)
      → Protects s keep
      → AllSafe c now s (unlink_objects keep files)
  unfolding unlink_objects apply read_manifest
  unlink_objects-AllSafe now keep [] s h = tt
  unlink_objects-AllSafe now keep (f ∷ files) s h = elim (Bool-cases (contains f.name keep)) [
    | inl kept ↦ rw kept (unlink_objects-AllSafe now keep files s h)
    | inr gone ↦ rw gone (
      λ p m found. kept_apart (object_of c m) f.name keep (h p m found) gone,
      unlink_objects-AllSafe now keep files (apply now (unlink_object f.name) s) h,
    )
  ]

  caught_found :
      (r : Result Failure Members) (o : Option Members) (m : Members)
      → caught c r ≡ ok o
      → r ≡ ok m
      → o ≡ some m
  caught_found r o m h found = let same : caught c r ≡ ok (some m) = rw found refl in ground arith

  in_one :
      (o : Option Members) (m : Members)
      → o ≡ some m
      → contains (object_of c m) (object_in c o) ≡ true
  in_one o m h = rw (h, text_eq_refl (object_of c m)) refl

  in_four :
      (name : Text) (xs ys zs more : List Text)
      → contains name (xs ++ ys ++ zs ++ more)
        ≡ (contains name xs || contains name ys || contains name zs || contains name more)
  in_four name xs ys zs more =
      contains_append name (xs ++ ys ++ zs) more
      ∙ ap (λ b. b || contains name more)
          (contains_append name (xs ++ ys) zs
            ∙ ap (λ b. b || contains name zs) (contains_append name xs ys))

  protected-Protects :
      (s : Store B) (names more : List Text) → protected c s ≡ ok names → Protects s (names ++ more)
  unfolding protected
  protected-Protects s names more h p m found =
      let (now, is_now, h1) = bind_ok (caught c (read_manifest c current s)) _ names h in
      let (good, is_good, h2) = bind_ok (caught c (read_manifest c last_known_good s)) _ names h1 in
      let (before, is_before, h3) = bind_ok (caught c (read_manifest c previous s)) _ names h2 in
      let all : object_in c now ++ object_in c good ++ object_in c before ≡ names = ground arith in
      let split =
        in_four (object_of c m) (object_in c now) (object_in c good) (object_in c before) more in
      rw (sym all) (
        split
        ∙ one_of_four _ _ _ _ (elim (Pointer-cases p) [
          | inl here ↦ inl (
              in_one now m
                (caught_found (read_manifest c current s) now m is_now (rw here at found)))
          | inr (inl here) ↦ inr (
              inl (
                in_one good m (
                  caught_found (read_manifest c last_known_good s) good m is_good
                    (rw here at found))))
          | inr (inr here) ↦ inr (
              inr (
                in_one before m (
                  caught_found (read_manifest c previous s) before m is_before (rw here at found))))
        ]))

  unlink_manifests-AllSafe :
      (now : ℕ) (keep : List Text) (files : List (File B)) (s t : Store B)
      → AllSafe c now t (unlink_manifests c keep files s).1
  unfolding unlink_manifests
  unlink_manifests-AllSafe now keep [] s t = tt
  unlink_manifests-AllSafe now keep (f ∷ files) s t =
      elim (Result-cases (read_archived_manifest c f.name s)) [
        | inr (e, bad) ↦ rw bad tt
        | inl (m, good) ↦ elim (Bool-cases (is_stale c keep m s)) [
          | inl stale ↦ rw (good, stale) (tt, unlink_manifests-AllSafe now keep files s _)
          | inr fresh ↦ rw (good, fresh) (unlink_manifests-AllSafe now keep files s t)
        ]
      ]

  unlink_manifests-pointers :
      (now : ℕ) (keep names : List Text) (files : List (File B)) (s t : Store B)
      → Protects t names
      → Protects (apply_all now (unlink_manifests c keep files s).1 t) names
  unfolding unlink_manifests apply_all apply read_manifest
  unlink_manifests-pointers now keep names [] s t h = h
  unlink_manifests-pointers now keep names (f ∷ files) s t h =
      elim (Result-cases (read_archived_manifest c f.name s)) [
        | inr (e, bad) ↦ rw bad h
        | inl (m, good) ↦ elim (Bool-cases (is_stale c keep m s)) [
          | inl stale ↦
              rw (good, stale)
                (unlink_manifests-pointers now keep names files s
                  (apply now (unlink_manifest f.name) t) h)
          | inr fresh ↦ rw (good, fresh) (unlink_manifests-pointers now keep names files s t h)
        ]
      ]

  and_then-AllSafe :
      (now : ℕ) (o : Attempt B (Unit {0})) (vs : List (Write B)) (s : Store B)
      → AllSafe c now s o.1
      → AllSafe c now (apply_all now o.1 s) vs
      → AllSafe c now s (and_then c o vs).1
  and_then-AllSafe now (ok u, ws) vs s h g = AllSafe-append c now ws vs s h g
  and_then-AllSafe now (err e, ws) vs s h g = h

  prune_objects-AllSafe :
      (now retain : ℕ) (s : Store B) → AllSafe c now s (prune_objects c retain s).1
  unfolding prune_objects
  prune_objects-AllSafe now retain s = elim (Result-cases (require (leb 3 retain) bad_retain)) [
    | inr (e, bad) ↦ rw bad tt
    | inl (u, good) ↦ elim (Result-cases (protected c s)) [
      | inr (e, bad) ↦ rw (good, bad) tt
      | inl (names, found) ↦
          let objects = sorted newer (well_named s.objects) in
          let keep = names ++ file_names (take retain objects) in
          let files = well_named (sorted name_before s.manifests) in
          rw (good, found)
            (and_then-AllSafe now (unlink_manifests c keep files s) (unlink_objects keep objects) s
              (unlink_manifests-AllSafe now keep files s s)
              (unlink_objects-AllSafe now keep objects
                (apply_all now (unlink_manifests c keep files s).1 s)
                (unlink_manifests-pointers now keep keep files s s
                  (protected-Protects s names (file_names (take retain objects)) found))))
    ]
  ]

  -- If every pointer of a store is absent or can be loaded, then so it is at whatever unlink
  -- prune_objects is interrupted, whatever it is asked to retain.
  pub prune_objects-Readable :
      (now retain n : ℕ) (s : Store B)
      → Readable c s
      → Readable c (apply_all now (take n (prune_objects c retain s).1) s)
  prune_objects-Readable now retain n s h =
      take-Readable c now n _ s (prune_objects-AllSafe now retain s) h
