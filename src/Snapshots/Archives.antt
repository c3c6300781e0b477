-- ===== src/Snapshots/Archives.antt =====
-- The archived manifests under prune_objects: none loses its object.
use dtlab_control_center.Prelude.{
  ℕ, zero, suc, ◌≡◌, refl, sym, ap, ◌∙◌, subst, Bool, true, false, ◌||◌, Option, none, some, List,
  [], ◌∷◌, ◌++◌, Text, text_eq, text_eq_sound, take, find, ok_inj, All, Result, ok, err,
  Result-cases, Bool-cases, Option-cases, inl, inr, ◌⊎◌, arith,
}
use dtlab_control_center.Json.{Members}
use dtlab_control_center.Snapshots.{
  Library, Failure, is_file_name, File, Store, read, read_archived_manifest,
}
use dtlab_control_center.Snapshots.Publish.{
  Write, unlink_object, unlink_manifest, without, apply, apply_all,
}
use dtlab_control_center.Snapshots.Readable.{read-without}
use dtlab_control_center.Snapshots.Prune.{
  contains, sort_in, sorted, well_named, file_names, unlink_objects, is_stale, unlink_manifests,
}
use dtlab_control_center.Snapshots.Unlinked.{kept_apart}

-- The first few of two lists are the first few of the first, or the first and the first few of the second.
pub take_append :
    {A : Type 0} (n : ℕ) (xs ys : List A)
    → ((k : ℕ) × (take n (xs ++ ys) ≡ take k xs))
      ⊎ ((k : ℕ) × (take n (xs ++ ys) ≡ xs ++ take k ys))
take_append zero xs ys = inl (0, refl)
take_append (suc n) [] ys = inr (suc n, refl)
take_append (suc n) (x ∷ xs) ys = elim (take_append n xs ys) [
  | inl (k, h) ↦ inl (suc k, ap (λ zs. x ∷ zs) h)
  | inr (k, h) ↦ inr (k, ap (λ zs. x ∷ zs) h)
]

pub All-take : {A : Type 0} (P : A → Type 0) (n : ℕ) (xs : List A) → All P xs → All P (take n xs)
All-take P zero xs h = tt
All-take P (suc n) [] h = tt
All-take P (suc n) (x ∷ xs) h = (h.0, All-take P n xs h.1)

or_swap : (a b d : Bool) → (a || (b || d)) ≡ (b || (a || d))
or_swap a b d = ground arith

module _ {B : Type 0} where
  abbrev pub IsManifestUnlink : Write B → Type 0
  IsManifestUnlink w = (name : Text) × (w ≡ unlink_manifest name)

  read-without-none : (name : Text) (files : List (File B)) → read name (without name files) ≡ none
  unfolding read find
  read-without-none name [] = refl
  read-without-none name (f ∷ files) = elim (Bool-cases (text_eq f.name name)) [
    | inl here ↦ rw here (read-without-none name files)
    | inr other ↦ rw (other, other) (read-without-none name files)
  ]

  pub none-some : (b : B) → Path (Option B) none (some b) → ⊥
  none-some b h = ground arith

  -- What is read after an unlink was read before it.
  read_before :
      (name gone : Text) (content : B) (files : List (File B))
      → read name (without gone files) ≡ some content
      → read name files ≡ some content
  unfolding read find
  read_before name gone content [] h = h
  read_before name gone content (f ∷ files) h = elim (Bool-cases (text_eq f.name gone)) [
    | inl removed ↦ elim (Bool-cases (text_eq f.name name)) [
      | inr other ↦ rw other (read_before name gone content files (rw removed at h))
      | inl here ↦
          let same : gone ≡ name =
            sym (text_eq_sound f.name gone removed) ∙ text_eq_sound f.name name here in
          let left : read name (without name files) ≡ some content =
            subst (λ g. read name (without g files) ≡ some content) same (rw removed at h) in
          absurd (none-some content (sym (read-without-none name files) ∙ left))
    ]
    | inr stays ↦ elim (Bool-cases (text_eq f.name name)) [
      | inl here ↦ rw here (rw (stays, here) at h)
      | inr other ↦ rw other (read_before name gone content files (rw (stays, other) at h))
    ]
  ]

  pub manifests_only :
      (now : ℕ) (ws : List (Write B)) (s : Store B)
      → All IsManifestUnlink ws
      → (apply_all now ws s).objects ≡ s.objects
  unfolding apply_all apply
  manifests_only now [] s h = refl
  manifests_only now (w ∷ ws) s h =
      rw h.0.1 (manifests_only now ws (apply now (unlink_manifest h.0.0) s) h.1)

  pub read_earlier :
      (now : ℕ) (name : Text) (content : B) (ws : List (Write B)) (s : Store B)
      → All IsManifestUnlink ws
      → read name (apply_all now ws s).manifests ≡ some content
      → read name s.manifests ≡ some content
  unfolding apply_all apply
  read_earlier now name content [] s only h = h
  read_earlier now name content (w ∷ ws) s only h = read_before name only.0.0 content s.manifests (
      read_earlier now name content ws (apply now (unlink_manifest only.0.0) s) only.1
        (rw only.0.1 at h))

  gone_stays :
      (now : ℕ) (name : Text) (ws : List (Write B)) (s : Store B)
      → All IsManifestUnlink ws
      → read name (apply_all now ws (apply now (unlink_manifest name) s)).manifests ≡ none
  unfolding apply
  gone_stays now name ws s only =
      let t = apply now (unlink_manifest name) s in
      elim (Option-cases (read name (apply_all now ws t).manifests)) [
        | inl gone ↦ gone
        | inr (content, there) ↦ absurd (
            none-some content (
              sym (read-without-none name s.manifests)
              ∙ read_earlier now name content ws t only there))
      ]

  pub read-contains :
      (name : Text) (content : B) (files : List (File B))
      → read name files ≡ some content
      → contains name (file_names files) ≡ true
  unfolding read find
  read-contains name content [] h = absurd (none-some content h)
  read-contains name content (f ∷ files) h = elim (Bool-cases (text_eq f.name name)) [
    | inl here ↦ rw here refl
    | inr other ↦ rw other (read-contains name content files (rw other at h))
  ]

  contains-sort_in :
      (name : Text) (before : File B → File B → Bool) (f : File B) (files : List (File B))
      → contains name (file_names (sort_in before f files)) ≡ contains name (file_names (f ∷ files))
  contains-sort_in name before f [] = refl
  contains-sort_in name before f (g ∷ files) = elim (Bool-cases (before g f)) [
    | inl first ↦
        rw (first, contains-sort_in name before f files)
          (or_swap (text_eq g.name name) (text_eq f.name name) _)
    | inr later ↦ rw later refl
  ]

  pub contains-sorted :
      (name : Text) (before : File B → File B → Bool) (files : List (File B))
      → contains name (file_names (sorted before files)) ≡ contains name (file_names files)
  contains-sorted name before [] = refl
  contains-sorted name before (f ∷ files) =
      contains-sort_in name before f (sorted before files)
      ∙ ap (λ b. text_eq f.name name || b) (contains-sorted name before files)

  pub contains-well_named :
      (name : Text) (files : List (File B))
      → is_file_name name ≡ true
      → contains name (file_names files) ≡ true
      → contains name (file_names (well_named files)) ≡ true
  unfolding well_named
  contains-well_named name [] good h = h
  contains-well_named name (f ∷ files) good h = elim (Bool-cases (text_eq f.name name)) [
    | inl here ↦
        let taken : is_file_name f.name ≡ true =
          ap is_file_name (text_eq_sound f.name name here) ∙ good in
        rw (taken, here) refl
    | inr other ↦
        let rest = contains-well_named name files good (rw other at h) in
        elim (Bool-cases (is_file_name f.name)) [
          | inl taken ↦ rw (taken, other) rest
          | inr left ↦ rw left rest
        ]
  ]

  -- An unlink of an object that is not kept
  abbrev pub IsUnkept : List Text → Write B → Type 0
  IsUnkept keep w = (name : Text) × (w ≡ unlink_object name) × (contains name keep ≡ false)

  pub unlink_objects-IsUnkept :
      (keep : List Text) (files : List (File B)) → All (IsUnkept keep) (unlink_objects keep files)
  unfolding unlink_objects
  unlink_objects-IsUnkept keep [] = tt
  unlink_objects-IsUnkept keep (f ∷ files) = elim (Bool-cases (contains f.name keep)) [
    | inl kept ↦ rw kept (unlink_objects-IsUnkept keep files)
    | inr gone ↦ rw gone ((f.name, refl, gone), unlink_objects-IsUnkept keep files)
  ]

  pub unkept_manifests :
      (now : ℕ) (keep : List Text) (ws : List (Write B)) (s : Store B)
      → All (IsUnkept keep) ws
      → (apply_all now ws s).manifests ≡ s.manifests
  unfolding apply_all apply
  unkept_manifests now keep [] s h = refl
  unkept_manifests now keep (w ∷ ws) s h =
      rw h.0.1 (unkept_manifests now keep ws (apply now (unlink_object h.0.0) s) h.1)

  pub kept_object :
      (now : ℕ) (keep : List Text) (name : Text) (content : B) (ws : List (Write B)) (s : Store B)
      → All (IsUnkept keep) ws
      → contains name keep ≡ true
      → read name s.objects ≡ some content
      → read name (apply_all now ws s).objects ≡ some content
  unfolding apply_all apply
  kept_object now keep name content [] s h kept there = there
  kept_object now keep name content (w ∷ ws) s h kept there = rw h.0.1 (
      kept_object now keep name content ws (apply now (unlink_object h.0.0) s) h.1 kept
        (read-without name h.0.0 content s.objects (kept_apart name h.0.0 keep kept h.0.2) there))

failed : (e : Failure) → Path (Result Failure (Unit {0})) (err e) (ok tt) → ⊥
failed e h = ground arith

module _ {B : Type 0} (c : Library B) where
  pub unlink_manifests-only :
      (keep : List Text) (files : List (File B)) (s : Store B)
      → All IsManifestUnlink (unlink_manifests c keep files s).1
  unfolding unlink_manifests
  unlink_manifests-only keep [] s = tt
  unlink_manifests-only keep (f ∷ files) s =
      elim (Result-cases (read_archived_manifest c f.name s)) [
        | inr (e, bad) ↦ rw bad tt
        | inl (m, good) ↦ elim (Bool-cases (is_stale c keep m s)) [
          | inl stale ↦ rw (good, stale) ((f.name, refl), unlink_manifests-only keep files s)
          | inr fresh ↦ rw (good, fresh) (unlink_manifests-only keep files s)
        ]
      ]

  -- A manifest whose object is not kept is gone behind the loop over the manifests.
  pub stale_gone :
      (now : ℕ) (keep : List Text) (files : List (File B)) (s t : Store B) (name : Text)
      (m : Members)
      → (unlink_manifests c keep files s).0 ≡ ok tt
      → contains name (file_names files) ≡ true
      → read_archived_manifest c name s ≡ ok m
      → is_stale c keep m s ≡ true
      → read name (apply_all now (unlink_manifests c keep files s).1 t).manifests ≡ none
  unfolding unlink_manifests apply_all
  stale_gone now keep [] s t name m done listed reads stale = absurd (ground arith)
  stale_gone now keep (f ∷ files) s t name m done listed reads stale =
      elim (Result-cases (read_archived_manifest c f.name s)) [
        | inr (e, bad) ↦ absurd (failed e (rw (bad, unlink_manifests) at done))
        | inl (m1, good) ↦
            let rest : (unlink_manifests c keep files s).0 ≡ ok tt =
              rw (good, unlink_manifests) at done in
            elim (Bool-cases (text_eq f.name name)) [
              | inl here ↦
                  let same : f.name ≡ name = text_eq_sound f.name name here in
                  let one : m1 ≡ m =
                    ok_inj (sym good ∙ ap (λ n. read_archived_manifest c n s) same ∙ reads) in
                  let old : is_stale c keep m1 s ≡ true =
                    ap (λ (x : Members). is_stale c keep x s) one ∙ stale in
                  rw (good, old)
                    (subst
                      (λ n.
                        read name
                          (apply_all now (unlink_manifests c keep files s).1
                            (apply now (unlink_manifest n) t)).manifests
                        ≡ none)
                      (sym same) (gone_stays now name _ t (unlink_manifests-only keep files s)))
              | inr other ↦ elim (Bool-cases (is_stale c keep m1 s)) [
                | inl old ↦
                    rw (good, old)
                      (stale_gone now keep files s (apply now (unlink_manifest f.name) t) name m
                        rest (rw other at listed) reads stale)
                | inr fresh ↦
                    rw (good, fresh)
                      (stale_gone now keep files s t name m rest (rw other at listed) reads stale)
              ]
            ]
      ]
