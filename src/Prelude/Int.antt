-- ===== src/Prelude/Int.antt =====
-- Signed integers over the native numbers, and their text.
use Prim.Native.Nat.{ℕ, suc, ◌+◌, ◌-◌, ◌≤◌}
use mathlib.Core.Bool.{Bool, not, ◌&&◌}
use mathlib.Core.Path.{◌≡◌, ap}
use mathlib.Core.List.{[], ◌∷◌}
use mathlib.Core.Option.{Option, none, some}
use native.Mathlib.Omega.{arith}
use nexus_queue.Prelude.Tests.{leb, ◌==◌, if◌then◌else◌}
use nexus_queue.Prelude.Texts.{Text, is_empty}
use nexus_queue.Prelude.Decimal.{
  Number, nan, int, to_string, to_number, to_number-to_string, to_string-head,
}

-- `negsuc n` is -(n + 1).
pub data ℤ : Type 0 where
  pos : ℕ → ℤ
  negsuc : ℕ → ℤ

abbrev pub pos_part : ℤ → ℕ
pos_part (pos n) = n
pos_part (negsuc n) = 0

abbrev pub neg_part : ℤ → ℕ
neg_part (pos n) = 0
neg_part (negsuc n) = suc n

-- a - b, as an integer.
abbrev pub sub_ℕ : ℕ → ℕ → ℤ
sub_ℕ a b = if leb b a then pos (a - b) else negsuc (b - a - 1)

infixl 65 ◌+ℤ◌
infix 50 ◌≤ℤ◌
unfoldable pub ◌+ℤ◌ : ℤ → ℤ → ℤ
a +ℤ b = sub_ℕ (pos_part a + pos_part b) (neg_part a + neg_part b)

abbrev pub ◌≤ℤ◌ : ℤ → ℤ → Type 0
a ≤ℤ b = pos_part a + neg_part b ≤ pos_part b + neg_part a

abbrev pub leb_ℤ : ℤ → ℤ → Bool
leb_ℤ a b = leb (pos_part a + neg_part b) (pos_part b + neg_part a)

pub +ℤ_parts :
    (a b : ℤ)
    → pos_part (a +ℤ b) + neg_part a + neg_part b ≡ neg_part (a +ℤ b) + pos_part a + pos_part b
unfolding ◌+ℤ◌
+ℤ_parts a b = ground arith

abbrev of_number : Number → Option ℤ
of_number nan = none
of_number (int n) = some (pos n)

abbrev negated : Number → Option ℤ
negated nan = none
negated (int n) = some (sub_ℕ 0 n)

-- `String(n)` and `Number(s)` on integers.
unfoldable pub int_to_string : ℤ → Text
int_to_string (pos n) = to_string n
int_to_string (negsuc n) = b'-' ∷ to_string (suc n)

unfoldable pub to_int : Text → Option ℤ
to_int [] = of_number (to_number [])
to_int (c ∷ cs) =
    if c == b'-' && not (is_empty cs)
    then negated (to_number cs)
    else of_number (to_number (c ∷ cs))

-- Reading back a natural number that was written gives the number.
pub to_int-pos : (n : ℕ) → to_int (int_to_string (pos n)) ≡ some (pos n)
unfolding to_int int_to_string
to_int-pos n =
    let (c, cs, e, h) = to_string-head n in
    rw e (ground (arith, ap to_number e, to_number-to_string n))
