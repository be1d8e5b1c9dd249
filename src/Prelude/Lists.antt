-- ===== src/Prelude/Lists.antt =====
-- Lists of texts: membership by recursion, removal, and the ends of a list.
use Prim.Native.Nat.{ℕ, zero, suc, ◌+◌}
use mathlib.Core.Path.{◌≡◌, refl}
use mathlib.Core.Logic.{inl, inr}
use mathlib.Core.Bool.{Bool, true, false}
use mathlib.Core.Option.{Option, none, some}
use mathlib.Core.List.{List, [], ◌∷◌, ◌++◌}
use native.Mathlib.Omega.{arith}
use nexus_queue.Prelude.Tests.{if◌then◌else◌, Option-cases}
use nexus_queue.Prelude.Texts.{Text, same, same→eq}

module _ {ℓ} {A : Type ℓ} where
  abbrev pub length : List A → ℕ
  length [] = 0
  length (x ∷ xs) = suc (length xs)

  abbrev pub All {κ} : (A → Type κ) → List A → Type κ
  All P [] = Unit
  All P (x ∷ xs) = P x × All P xs

  abbrev pub take : ℕ → List A → List A
  take zero xs = []
  take (suc n) [] = []
  take (suc n) (x ∷ xs) = x ∷ take n xs

  abbrev pub drop : ℕ → List A → List A
  drop zero xs = xs
  drop (suc n) [] = []
  drop (suc n) (x ∷ xs) = drop n xs

  -- The last element and the list before it.
  abbrev pub split_last : List A → Option (A × List A)
  split_last [] = none
  split_last (x ∷ xs) = elim (split_last xs) [
    | none ↦ some (x, [])
    | some (y, ys) ↦ some (y, x ∷ ys)
  ]

  pub split_last-append : (xs : List A) (y : A) → split_last (xs ++ y ∷ []) ≡ some (y, xs)
  split_last-append [] y = refl
  split_last-append (x ∷ xs) y = rw (split_last-append xs y)

  pub length-append : (xs ys : List A) → length (xs ++ ys) ≡ length xs + length ys
  length-append [] ys = omega arith
  length-append (x ∷ xs) ys = omega (arith, length-append xs ys)

-- How often a text stands in a list.
abbrev pub count : Text → List Text → ℕ
count a [] = 0
count a (x ∷ xs) = if same x a then suc (count a xs) else count a xs

abbrev pub has : Text → List Text → Bool
has a [] = false
has a (x ∷ xs) = if same x a then true else has a xs

-- The first `n` occurrences are removed, from the head.
abbrev pub remove_n : ℕ → Text → List Text → List Text
remove_n zero a xs = xs
remove_n (suc n) a [] = []
remove_n (suc n) a (x ∷ xs) =
    let drop = remove_n n a xs in
    let keep = x ∷ remove_n (suc n) a xs in if same x a then drop else keep

abbrev pub remove_all : Text → List Text → List Text
remove_all a [] = []
remove_all a (x ∷ xs) = let rest = remove_all a xs in if same x a then rest else x ∷ rest

pub count-append : (a : Text) (xs ys : List Text) → count a (xs ++ ys) ≡ count a xs + count a ys
count-append a [] ys = omega arith
count-append a (x ∷ xs) ys = ground (arith, count-append a xs ys)

pub has-append :
    (a : Text) (xs ys : List Text) → has a (xs ++ ys) ≡ (if has a xs then true else has a ys)
has-append a [] ys = refl
has-append a (x ∷ xs) ys = ground (arith, has-append a xs ys)

split_last-none {ℓ} : {A : Type ℓ} (xs : List A) → split_last xs ≡ none → xs ≡ []
split_last-none [] e = refl
split_last-none (x ∷ xs) e = ground arith

pub has-split_last :
    (a : Text) (xs : List Text) (y : Text) (ys : List Text)
    → split_last xs ≡ some (y, ys)
    → has a xs ≡ (if same y a then true else has a ys)
has-split_last a [] y ys e = cc
has-split_last a (x ∷ xs) y ys e = elim (Option-cases (split_last xs)) [
  | inl p ↦ ground (arith, split_last-none xs p)
  | inr ((z, zs), p) ↦ ground (arith, has-split_last a xs z zs p)
]

pub has-remove_ne :
    (n : ℕ) (a b : Text) (xs : List Text) → same b a ≡ false → has a (remove_n n b xs) ≡ has a xs
has-remove_ne zero a b xs h = refl
has-remove_ne (suc n) a b [] h = refl
has-remove_ne (suc n) a b (x ∷ xs) h =
    ground
      (arith, has-remove_ne n a b xs h, has-remove_ne (suc n) a b xs h, same→eq x b, same→eq x a)
