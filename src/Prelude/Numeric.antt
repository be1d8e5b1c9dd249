-- ===== src/Prelude/Numeric.antt =====
-- `Number(text)`: the number that JavaScript reads from any text, a double. Here a text is the list
-- of its UTF-16 codes.
use Prim.Native.Nat.{ℕ, zero, suc, ◌+◌, ◌-◌, ◌*◌, ◌/◌, ◌%◌, ◌^◌}
use mathlib.Core.Path.{◌≡◌, refl}
use mathlib.Core.Bool.{Bool, true, false, ◌&&◌, ◌||◌}
use mathlib.Core.Option.{Option, none, some}
use mathlib.Core.List.{[], ◌∷◌}
use native.Mathlib.Omega.{arith}
use nexus_queue.Prelude.Tests.{ltb, leb, ◌==◌, if◌then◌else◌}
use nexus_queue.Prelude.Texts.{Text, text, same, is_empty}
use nexus_queue.Prelude.Decimal.{Number, nan, int, number_ge}

-- A finite number is its sign and how many times 2^-1074, the smallest double, it holds.
pub data Numeric : Type 0 where
  not_a_number : Numeric
  infinite : Bool → Numeric
  finite : Bool → ℕ → Numeric

-- The quotient, rounded to the nearest number and to the even one of two.
abbrev quotient : ℕ → ℕ → ℕ
quotient n d =
    let q = n / d in
    let twice = 2 * (n % d) in if ltb d twice || ((twice == d) && (q % 2 == 1)) then q + 1 else q

-- A double is at most 53 bits from the place `k` on; more than 2045 places is too large.
round_from : ℕ → ℕ → Bool → ℕ → ℕ → Numeric
round_from zero k negative n d = infinite negative
round_from (suc fuel) k negative n d = elim (ltb (n / (d * 2 ^ k)) (2 ^ 53)) [
  | true ↦
      let u = quotient n (d * 2 ^ k) * 2 ^ k in
      if ltb u (2 ^ 2098) then finite negative u else infinite negative
  | false ↦ round_from fuel (suc k) negative n d
]

-- The double that is nearest to the ratio of `n` and `d`.
rounded : Bool → ℕ → ℕ → Numeric
unfolding round_from
rounded negative n d = round_from 2046 0 negative (n * 2 ^ 1074) d

-- WhiteSpace and LineTerminator of ECMAScript.
abbrev is_space : ℕ → Bool
is_space c =
    (leb 9 c && leb c 13)
    || (c == 32)
    || (c == 160)
    || (c == 5760)
    || (leb 8192 c && leb c 8202)
    || (c == 8232)
    || (c == 8233)
    || (c == 8239)
    || (c == 8287)
    || (c == 12288)
    || (c == 65279)

abbrev drop_space : Text → Text
drop_space [] = []
drop_space (c ∷ cs) = elim (is_space c) [ true ↦ drop_space cs | false ↦ c ∷ cs ]

abbrev drop_end : Text → Text
drop_end [] = []
drop_end (c ∷ cs) = let rest = drop_end cs in if is_space c && is_empty rest then [] else c ∷ rest

abbrev digit_value : ℕ → ℕ
digit_value c =
    if leb b'0' c && leb c b'9'
    then c - b'0'
    else if leb b'a' c && leb c b'z'
    then c - b'a' + 10
    else if leb b'A' c && leb c b'Z'
    then c - b'A' + 10
    else 36

-- The digits at the start of a text: their value after `acc`, how many they are, and what follows.
digits_of : ℕ → Text → ℕ → ℕ → (ℕ × ℕ) × Text
digits_of base [] acc count = ((acc, count), [])
digits_of base (c ∷ cs) acc count = elim (ltb (digit_value c) base) [
  | true ↦ digits_of base cs (acc * base + digit_value c) (suc count)
  | false ↦ ((acc, count), c ∷ cs)
]

-- NonDecimalIntegerLiteral, after its prefix.
whole : ℕ → Text → Numeric
unfolding digits_of rounded
whole base t =
    let ((n, count), rest) = digits_of base t 0 0 in
    if ltb 0 count && is_empty rest then rounded false n 1 else not_a_number

-- The value of a decimal literal: `digits`, of which `places` stand after the point, and an exponent.
scaled : Bool → ℕ → ℕ → Bool → ℕ → Numeric
unfolding rounded
scaled negative n places true x = rounded negative n (10 ^ (places + x))
scaled negative n places false x = rounded negative (n * 10 ^ x) (10 ^ places)

exponent_digits : Bool → ℕ → ℕ → Bool → Text → Numeric
unfolding digits_of scaled
exponent_digits negative n places down t =
    let ((x, count), rest) = digits_of 10 t 0 0 in
    if ltb 0 count && is_empty rest then scaled negative n places down x else not_a_number

exponent : Bool → ℕ → ℕ → Text → Numeric
unfolding exponent_digits
exponent negative n places [] = not_a_number
exponent negative n places (c ∷ cs) =
    if c == b'-'
    then exponent_digits negative n places true cs
    else if c == b'+'
    then exponent_digits negative n places false cs
    else exponent_digits negative n places false (c ∷ cs)

-- After the digits and the point of a decimal literal.
after_digits : Bool → ℕ → ℕ → ℕ → Text → Numeric
unfolding scaled exponent
after_digits negative n zero places t = not_a_number
after_digits negative n (suc count) places [] = scaled negative n places false 0
after_digits negative n (suc count) places (c ∷ cs) =
    if (c == b'e') || (c == b'E') then exponent negative n places cs else not_a_number

after_whole : Bool → (ℕ × ℕ) × Text → Numeric
unfolding digits_of after_digits
after_whole negative ((n, count), []) = after_digits negative n count 0 []
after_whole negative ((n, count), c ∷ cs) =
    let ((m, places), rest) = digits_of 10 cs n 0 in
    if c == b'.'
    then after_digits negative m (count + places) places rest
    else after_digits negative n count 0 (c ∷ cs)

-- StrUnsignedDecimalLiteral.
unsigned : Bool → Text → Numeric
unfolding digits_of after_whole
unsigned negative t =
    if same t (text "Infinity")
    then infinite negative
    else after_whole negative (digits_of 10 t 0 0)

-- StrDecimalLiteral.
decimal : Text → Numeric
unfolding unsigned
decimal [] = finite false 0
decimal (c ∷ cs) =
    if c == b'-'
    then unsigned true cs
    else if c == b'+'
    then unsigned false cs
    else unsigned false (c ∷ cs)

abbrev base_of : ℕ → Option ℕ
base_of c =
    if (c == b'x') || (c == b'X')
    then some 16
    else if (c == b'o') || (c == b'O')
    then some 8
    else if (c == b'b') || (c == b'B')
    then some 2
    else none

with_base : Option ℕ → Text → Text → Numeric
unfolding whole decimal
with_base none digits t = decimal t
with_base (some base) digits t = whole base digits

literal : Text → Numeric
unfolding with_base decimal
literal (c ∷ d ∷ cs) = with_base (if c == b'0' then base_of d else none) cs (c ∷ d ∷ cs)
literal t = decimal t

unfoldable pub read_number : Text → Numeric
unfolding literal
read_number t = literal (drop_end (drop_space t))

-- The least count that is `>=` a number, or NaN when no count is.
unfoldable pub slots : Numeric → Number
slots not_a_number = nan
slots (infinite true) = int 0
slots (infinite false) = nan
slots (finite true u) = int 0
slots (finite false u) = int ((u + (2 ^ 1074 - 1)) / 2 ^ 1074)

-- `count >= x`, where a count is a whole number.
unfoldable pub count_ge : ℕ → Numeric → Bool
count_ge n not_a_number = false
count_ge n (infinite negative) = negative
count_ge n (finite true u) = true
count_ge n (finite false u) = leb u (n * 2 ^ 1074)

-- A count is `>=` a number exactly if it is `>=` the number's slots.
number_ge-slots : (n : ℕ) (x : Numeric) → number_ge (int n) (slots x) ≡ count_ge n x
unfolding slots count_ge
number_ge-slots n not_a_number = refl
number_ge-slots n (infinite true) = ground arith
number_ge-slots n (infinite false) = refl
number_ge-slots n (finite true u) = ground arith
number_ge-slots n (finite false u) = ground arith

abbrev slots_of : Text → Number
slots_of t = slots (read_number t)

read_number_test :
    (slots_of (text "5") ≡ int 5)
    × (slots_of (text "5.0") ≡ int 5)
    × (slots_of (text "1e1") ≡ int 10)
    × (slots_of (text "0x10") ≡ int 16)
    × (slots_of (text " 5 ") ≡ int 5)
    × (slots_of (text "2.5") ≡ int 3)
    × (slots_of (text "-1") ≡ int 0)
    × (slots_of (text "") ≡ int 0)
    × (slots_of (text "5.00000000000000000001") ≡ int 5)
unfolding read_number slots
read_number_test = (refl, refl, refl, refl, refl, refl, refl, refl, refl)

not_a_number_test :
    (read_number (text "many") ≡ not_a_number)
    × (read_number (text "5,0") ≡ not_a_number)
    × (read_number (text ".") ≡ not_a_number)
    × (read_number (text "1e") ≡ not_a_number)
    × (read_number (text "-0x1") ≡ not_a_number)
    × (read_number (text "-Infinity") ≡ infinite true)
    × (read_number (text "1e309") ≡ infinite false)
unfolding read_number
not_a_number_test = (refl, refl, refl, refl, refl, refl, refl)
