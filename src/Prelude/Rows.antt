-- ===== src/Prelude/Rows.antt =====
-- Tables as lists of rows: the first row that passes a test, and the update of all that do.
use mathlib.Core.Path.{◌≡◌, refl, subst}
use mathlib.Core.Logic.{inl, inr}
use mathlib.Core.Bool.{Bool, true}
use mathlib.Core.Option
use mathlib.Core.Option.{Option, none, some}
use mathlib.Core.List.{List, [], ◌∷◌, ◌++◌}
use native.Mathlib.Omega.{arith}
use dtlab_control_center.Prelude.Tests.{if◌then◌else◌, Bool-cases}
use dtlab_control_center.Prelude.Lists.{All}
use dtlab_control_center.Prelude.Texts.{Text, text_eq, text_eq_iff}

module _ {A : Type 0} where
  -- SELECT * … WHERE test
  unfoldable pub find : (A → Bool) → List A → Option A
  find test [] = none
  find test (x ∷ xs) = if test x then some x else find test xs

  -- UPDATE … SET change WHERE test
  unfoldable pub update : (A → Bool) → (A → A) → List A → List A
  update test change [] = []
  update test change (x ∷ xs) = (if test x then change x else x) ∷ update test change xs

  -- `a` where there is one, else `b`
  abbrev pub or_else : Option A → Option A → Option A
  or_else none b = b
  or_else (some a) b = some a

  pub find-append :
      (test : A → Bool) (xs ys : List A)
      → find test (xs ++ ys) ≡ or_else (find test xs) (find test ys)
  unfolding find
  find-append test [] ys = refl
  find-append test (x ∷ xs) ys = ground (arith, find-append test xs ys)

  pub find_test : (test : A → Bool) (xs : List A) (a : A) → find test xs ≡ some a → test a ≡ true
  unfolding find
  find_test test [] a h = cc
  find_test test (x ∷ xs) a h = ground (arith, find_test test xs a)

  pub All-find :
      (P : A → Type 0) (test : A → Bool) (xs : List A) (a : A)
      → All P xs
      → find test xs ≡ some a
      → P a
  unfolding find
  All-find P test [] a all h = absurd (cc)
  All-find P test (x ∷ xs) a all h = elim (Bool-cases (test x)) [
    | inl here ↦ let e : x ≡ a = ground arith in subst P e all.0
    | inr later ↦ All-find P test xs a all.1 (rw later at h)
  ]

  pub All-update :
      (P : A → Type 0) (test : A → Bool) (change : A → A) (xs : List A)
      → All P xs
      → ((a : A) → test a ≡ true → P a → P (change a))
      → All P (update test change xs)
  unfolding update
  All-update P test change [] all keep = tt
  All-update P test change (x ∷ xs) all keep = elim (Bool-cases (test x)) [
    | inl here ↦ rw here (keep x here all.0, All-update P test change xs all.1 keep)
    | inr later ↦ rw later (all.0, All-update P test change xs all.1 keep)
  ]

  -- An update by key `j` seen from key `i`, where the change keeps the key.
  module _ (key : A → Text) where
    abbrev pub at_key : Text → A → Bool
    at_key i a = text_eq (key a) i

    pub find-update :
        (change : A → A)
        → ((a : A) → key (change a) ≡ key a)
        → (i j : Text) (xs : List A)
        → find (at_key i) (update (at_key j) change xs)
          ≡ (if text_eq j i then Option.map change (find (at_key i) xs) else find (at_key i) xs)
    unfolding find update
    find-update change keep i j [] = ground arith
    find-update change keep i j (x ∷ xs) = ground (
      arith,
      keep x,
      find-update change keep i j xs,
      text_eq_iff (key x) i,
      text_eq_iff (key x) j,
      text_eq_iff j i,
    )
