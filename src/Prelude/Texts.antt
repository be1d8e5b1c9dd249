-- ===== src/Prelude/Texts.antt =====
-- JavaScript strings, as lists of code units.
use Prim.Native.Nat.{ℕ}
use Prim.Native.Char.{code}
use Prim.Native.String.{String}
use mathlib.Core.Path.{◌≡◌, refl}
use mathlib.Core.Logic.{◌↔◌}
use mathlib.Core.Bool.{Bool, true, false, ◌&&◌}
use mathlib.Core.List.{List, [], ◌∷◌}
use native.Mathlib.Omega.{arith}
use nexus_queue.Prelude.Tests.{◌==◌, if◌then◌else◌, ==_refl}

abbrev pub Text : Type 0
Text = List ℕ

abbrev pub text : String → Text
text String.[] = []
text (String.◌∷◌ c s) = code c ∷ text s

-- `a === b` on strings
abbrev pub same : Text → Text → Bool
same [] [] = true
same [] (y ∷ ys) = false
same (x ∷ xs) [] = false
same (x ∷ xs) (y ∷ ys) = (x == y) && same xs ys

pub same_refl : (a : Text) → same a a ≡ true
same_refl [] = refl
same_refl (x ∷ xs) = rw (==_refl x) (same_refl xs)

pub same→eq : (a b : Text) → same a b ≡ true → a ≡ b
same→eq [] [] h = refl
same→eq [] (y ∷ ys) h = cc
same→eq (x ∷ xs) [] h = cc
same→eq (x ∷ xs) (y ∷ ys) h = ground (arith, same→eq xs ys)

pub eq→same : (a b : Text) → a ≡ b → same a b ≡ true
eq→same a b h = rw h (same_refl b)

pub same_iff : (a b : Text) → (same a b ≡ true) ↔ (a ≡ b)
same_iff a b = (same→eq a b, eq→same a b)

-- `!s` on strings
abbrev pub is_empty : Text → Bool
is_empty [] = true
is_empty (x ∷ xs) = false

module _ {ℓ} {V : Type ℓ} where
  -- A store of values under texts, written at one of them.
  abbrev pub update : (Text → V) → Text → V → Text → V
  update f k v j = if same k j then v else f j

  pub update_self : (f : Text → V) (k : Text) (v : V) → update f k v k ≡ v
  update_self f k v = rw (same_refl k)
