-- ===== src/Prelude/Decimal.antt =====
-- `String(n)` and `Number(s)` on natural numbers. A text that is no plain decimal numeral reads as
-- NaN; the program writes plain numerals only.
use Prim.Native.Nat.{ℕ, zero, suc, ◌+◌, ◌-◌, ◌*◌, ◌/◌, ◌%◌, ◌≤◌, ◌<◌}
use mathlib.Core.Path.{◌≡◌, refl, ap, ◌∙◌}
use mathlib.Core.Logic.{inl, inr}
use mathlib.Core.Bool.{Bool, false, ◌&&◌}
use mathlib.Core.List.{[], ◌∷◌}
use native.Mathlib.Omega.{arith}
use nexus_queue.Prelude.Tests.{ltb, leb, if◌then◌else◌, Bool-cases}
use nexus_queue.Prelude.Texts.{Text, text}

pub data Number : Type 0 where
  nan : Number
  int : ℕ → Number

-- `a >= b` is false when either side is NaN.
abbrev pub number_ge : Number → Number → Bool
number_ge (int a) (int b) = leb b a
number_ge _ _ = false

abbrev pub number_add : Number → ℕ → Number
number_add nan n = nan
number_add (int a) n = int (a + n)

digits : ℕ → ℕ → Text → Text
digits zero n out = out
digits (suc fuel) n out =
    let rest = digits fuel (n / 10) ((b'0' + n % 10) ∷ out) in
    if ltb n 10 then (b'0' + n) ∷ out else rest

unfoldable pub to_string : ℕ → Text
unfolding digits
to_string n = digits (suc n) n []

scan : Text → ℕ → Number
scan [] acc = int acc
scan (c ∷ cs) acc = if leb b'0' c && leb c b'9' then scan cs (acc * 10 + (c - b'0')) else nan

unfoldable pub to_number : Text → Number
unfolding scan
to_number s = scan s 0

scan-digit :
    (out : Text) (acc d : ℕ) → d < 10 → scan ((b'0' + d) ∷ out) acc ≡ scan out (acc * 10 + d)
unfolding scan
scan-digit out acc d h = ground arith

scan-digits : (fuel n : ℕ) (out : Text) → n < fuel → scan (digits fuel n out) 0 ≡ scan out n
unfolding digits
scan-digits zero n out h = absurd (omega arith)
scan-digits (suc fuel) n out h = elim (Bool-cases (ltb n 10)) [
  | inl e ↦ rw e (scan-digit out 0 n (ground arith) ∙ ap (scan out) (omega arith))
  | inr e ↦ rw e (scan-digits fuel (n / 10) _ (ground arith) ∙ last)
]
  where
    last : scan ((b'0' + n % 10) ∷ out) (n / 10) ≡ scan out n
    last = scan-digit out (n / 10) (n % 10) (omega arith) ∙ ap (scan out) (omega arith)

-- Reading back a number that was written gives the number.
pub to_number-to_string : (n : ℕ) → to_number (to_string n) ≡ int n
unfolding to_number to_string scan
to_number-to_string n = scan-digits (suc n) n [] (omega arith)

digits-head :
    (fuel n : ℕ) (out : Text)
    → n < fuel
    → (c : ℕ) × (cs : Text) × (digits fuel n out ≡ c ∷ cs) × (b'0' ≤ c)
unfolding digits
digits-head zero n out h = absurd (omega arith)
digits-head (suc fuel) n out h = elim (Bool-cases (ltb n 10)) [
  | inl e ↦ (b'0' + n, out, rw e refl, omega arith)
  | inr e ↦ rw e (digits-head fuel (n / 10) ((b'0' + n % 10) ∷ out) (ground arith))
]

-- A number's text begins with a digit.
pub to_string-head : (n : ℕ) → (c : ℕ) × (cs : Text) × (to_string n ≡ c ∷ cs) × (b'0' ≤ c)
unfolding to_string
to_string-head n = digits-head (suc n) n [] (omega arith)

to_string_test : to_string 1700000000123 ≡ text "1700000000123"
unfolding to_string
to_string_test = refl

to_number_test : to_number (text "12x") ≡ nan
unfolding to_number
to_number_test = refl
