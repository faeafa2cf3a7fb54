-- ===== src/Base/Integers.antt =====
-- Go's int64 in text: strconv.ParseInt and strconv.FormatInt in base ten.
use Prim.Native.Nat.{ℕ, zero, suc, ◌+◌, ◌-◌, ◌*◌, ◌/◌, ◌%◌, ◌^◌, ◌<◌}
use mathlib.Core.Path.{◌≡◌, ◌∙◌, refl, ap}
use mathlib.Core.Bool.{Bool, true, false, ◌&&◌, ◌||◌}
use mathlib.Core.List.{[], ◌∷◌}
use mathlib.Core.Option.{Option, none, some}
use native.Mathlib.Omega.{arith}
use hooklens.Base.Tests.{if◌then◌else◌, ltb, leb, ◌==◌}
use hooklens.Base.Text.{Bytes}
use hooklens.Base.Lists.{all_of}
use hooklens.Base.Decimal.{emit, format_uint}

-- `negsuc n` is -(n + 1).
pub data ℤ : Type 0 where
  pos : ℕ → ℤ
  negsuc : ℕ → ℤ

abbrev pub is_digit : ℕ → Bool
is_digit c = leb b'0' c && leb c b'9'

-- The digits behind `acc`; `none` at anything else.
unfoldable pub parse_digits : Bytes → ℕ → Option ℕ
parse_digits [] acc = some acc
parse_digits (c ∷ s) acc =
    let rest = parse_digits s (acc * 10 + (c - b'0')) in if is_digit c then rest else none

unfoldable pub parse_uint : Bytes → Option ℕ
parse_uint [] = none
parse_uint (c ∷ s) = parse_digits (c ∷ s) 0

unfoldable pub positive : Option ℕ → Option ℤ
positive none = none
positive (some n) = if ltb n (2 ^ 63) then some (pos n) else none

unfoldable pub negative : Option ℕ → Option ℤ
negative none = none
negative (some zero) = some (pos 0)
negative (some (suc n)) = if ltb n (2 ^ 63) then some (negsuc n) else none

-- `none` is an error.
unfoldable pub parse_int : Bytes → Option ℤ
parse_int [] = none
parse_int (c ∷ s) =
    if c == b'-'
    then negative (parse_uint s)
    else if c == b'+'
    then positive (parse_uint s)
    else positive (parse_uint (c ∷ s))

unfoldable pub format_int : ℤ → Bytes
format_int (pos n) = format_uint n
format_int (negsuc n) = b'-' ∷ format_uint (suc n)

-- What an int64 holds.
abbrev pub Fits : ℤ → Type 0
Fits (pos n) = n < 2 ^ 63
Fits (negsuc n) = n < 2 ^ 63

digits-emit : (f n : ℕ) (out : Bytes) → n < f → parse_digits (emit f n out) 0 ≡ parse_digits out n
unfolding emit parse_digits
digits-emit zero n out h = absurd (omega arith)
digits-emit (suc f) n out h = ground (
  arith,
  ap (parse_digits out) (keep_digit n),
  ap (parse_digits out) (split_digit n),
  digits-emit f (n / 10) ((b'0' + n % 10) ∷ out),
)
  where
    keep_digit : (k : ℕ) → 0 * 10 + (b'0' + k - b'0') ≡ k
    keep_digit k = omega arith

    split_digit : (k : ℕ) → k / 10 * 10 + (b'0' + k % 10 - b'0') ≡ k
    split_digit k = omega arith

-- The first byte of a printed number is a digit.
unfoldable starts_digit : Bytes → Bool
starts_digit [] = false
starts_digit (c ∷ s) = is_digit c

starts-emit : (f n : ℕ) (out : Bytes) → n < f → starts_digit (emit f n out) ≡ true
unfolding emit starts_digit
starts-emit zero n out h = absurd (omega arith)
starts-emit (suc f) n out h = ground (arith, starts-emit f (n / 10) ((b'0' + n % 10) ∷ out))

pub digits_only :
    (f n : ℕ) (out : Bytes) → all_of is_digit out ≡ true → all_of is_digit (emit f n out) ≡ true
unfolding emit
digits_only zero n out h = h
digits_only (suc f) n out h = ground (arith, digits_only f (n / 10) ((b'0' + n % 10) ∷ out))

parse_uint-digit : (s : Bytes) → starts_digit s ≡ true → parse_uint s ≡ parse_digits s 0
unfolding parse_uint starts_digit
parse_uint-digit [] h = cc
parse_uint-digit (c ∷ s) h = refl

parse_int-digit : (s : Bytes) → starts_digit s ≡ true → parse_int s ≡ positive (parse_uint s)
unfolding parse_int starts_digit
parse_int-digit [] h = cc
parse_int-digit (c ∷ s) h = ground arith

parse_uint-format_uint : (n : ℕ) → parse_uint (format_uint n) ≡ some n
unfolding format_uint parse_digits
parse_uint-format_uint n =
    parse_uint-digit (emit (suc n) n []) (starts-emit (suc n) n [] (omega arith))
    ∙ digits-emit (suc n) n [] (omega arith)

starts-format_uint : (n : ℕ) → starts_digit (format_uint n) ≡ true
unfolding format_uint
starts-format_uint n = starts-emit (suc n) n [] (omega arith)

parse_int-minus : (s : Bytes) → parse_int (b'-' ∷ s) ≡ negative (parse_uint s)
unfolding parse_int
parse_int-minus s = refl

positive-fits : (n : ℕ) → n < 2 ^ 63 → positive (some n) ≡ some (pos n)
unfolding positive
positive-fits n h = ground arith

negative-fits : (n : ℕ) → n < 2 ^ 63 → negative (some (suc n)) ≡ some (negsuc n)
unfolding negative
negative-fits n h = ground arith

-- Every int64 is parsed from its text.
pub parse_int-format_int : (n : ℤ) → Fits n → parse_int (format_int n) ≡ some n
unfolding format_int
parse_int-format_int (pos n) h =
    parse_int-digit (format_uint n) (starts-format_uint n)
    ∙ (ap positive (parse_uint-format_uint n) ∙ positive-fits n h)
parse_int-format_int (negsuc n) h =
    parse_int-minus (format_uint (suc n))
    ∙ (ap negative (parse_uint-format_uint (suc n)) ∙ negative-fits n h)

-- The bytes of a printed integer.
abbrev pub number_byte : ℕ → Bool
number_byte c = is_digit c || c == b'-'

all-number_byte : (s : Bytes) → all_of is_digit s ≡ true → all_of number_byte s ≡ true
all-number_byte [] h = refl
all-number_byte (c ∷ s) h = ground (arith, all-number_byte s)

pub format_int-bytes : (n : ℤ) → all_of number_byte (format_int n) ≡ true
unfolding format_int format_uint
format_int-bytes (pos n) = all-number_byte (emit (suc n) n []) (digits_only (suc n) n [] refl)
format_int-bytes (negsuc n) =
    all-number_byte (emit (suc (suc n)) (suc n) []) (digits_only (suc (suc n)) (suc n) [] refl)
