-- ===== src/Base/Decimal.antt =====
-- strconv.FormatUint and strconv.Itoa in base ten, on natural numbers. The fuel is one more than
-- the number, and each round divides it by ten.
use Prim.Native.Nat.{ℕ, zero, suc, ◌+◌, ◌-◌, ◌*◌, ◌/◌, ◌%◌, ◌<◌}
use mathlib.Core.Path.{◌≡◌, sym, ap, ◌∙◌}
use mathlib.Core.List.{[], ◌∷◌}
use native.Mathlib.Omega.{arith}
use hooklens.Base.Tests.{if◌then◌else◌, ltb}
use hooklens.Base.Text.{Bytes}

unfoldable pub emit : ℕ → ℕ → Bytes → Bytes
emit zero n out = out
emit (suc f) n out =
    let rest = emit f (n / 10) ((b'0' + n % 10) ∷ out) in
    if ltb n 10 then (b'0' + n) ∷ out else rest

unfoldable pub format_uint : ℕ → Bytes
unfolding emit
format_uint n = emit (suc n) n []

-- The number that decimal digits spell behind `acc`.
value : ℕ → Bytes → ℕ
value acc [] = acc
value acc (c ∷ s) = value (acc * 10 + (c - b'0')) s

value-emit : (f n : ℕ) (out : Bytes) → n < f → value 0 (emit f n out) ≡ value n out
unfolding emit value
value-emit zero n out h = absurd (omega arith)
value-emit (suc f) n out h = ground (
  arith,
  ap (λ (k : ℕ). value k out) (keep_digit n),
  ap (λ (k : ℕ). value k out) (split_digit n),
  value-emit f (n / 10) ((b'0' + n % 10) ∷ out),
)
  where
    keep_digit : (k : ℕ) → 0 * 10 + (b'0' + k - b'0') ≡ k
    keep_digit k = omega arith

    split_digit : (k : ℕ) → k / 10 * 10 + (b'0' + k % 10 - b'0') ≡ k
    split_digit k = omega arith

value-format_uint : (n : ℕ) → value 0 (format_uint n) ≡ n
unfolding format_uint value
value-format_uint n = value-emit (suc n) n [] (omega arith)

-- Two numbers that print alike are equal.
pub format_uint-injective : (m n : ℕ) → format_uint m ≡ format_uint n → m ≡ n
format_uint-injective m n h = sym (value-format_uint m) ∙ ap (value 0) h ∙ value-format_uint n
