-- ===== src/Metrics/Labels/Reading.antt =====
-- internal/metrics/metrics.go: a reader of the labels' text, and what it finds in it.
use hooklens.Base.{
  ℕ, ◌≡◌, refl, Bool, true, false, Option, none, some, [], ◌∷◌, ◌++◌, Bytes, ◌==◌, any_of,
  if◌then◌else◌, arith, Bool-cases, inl, inr,
}
use hooklens.Metrics.Labels.{
  backslash, quote, newline, reserved, escaped_byte, replaced, escape_label,
}

-- A byte in front of what a reader has found.
unfoldable pub in_front : ℕ → Option (Bytes × Bytes) → Option (Bytes × Bytes)
in_front c none = none
in_front c (some (v, rest)) = some (c ∷ v, rest)

-- A reader of a quoted value, behind a backslash or not: the value and what comes behind the quote
-- that ends it.
unfoldable pub read_value : Bool → Bytes → Option (Bytes × Bytes)
read_value behind [] = none
read_value true (c ∷ s) = in_front (if c == b'n' then newline else c) (read_value false s)
read_value false (c ∷ s) =
    let plain = read_value false s in
    let special = read_value true s in
    if c == quote then some ([], s) else if c == backslash then special else in_front c plain

read-replaced : (v rest : Bytes) → read_value false (replaced v ++ (quote ∷ rest)) ≡ some (v, rest)
unfolding read_value in_front replaced escaped_byte
read-replaced [] rest = refl
read-replaced (c ∷ v) rest = ground (arith, read-replaced v rest)

read-unreserved :
    (v rest : Bytes)
    → any_of reserved v ≡ false
    → read_value false (v ++ (quote ∷ rest)) ≡ some (v, rest)
unfolding read_value in_front
read-unreserved [] rest h = refl
read-unreserved (c ∷ v) rest h = ground (arith, read-unreserved v rest)

pub read-escape_label :
    (v rest : Bytes) → read_value false (escape_label v ++ (quote ∷ rest)) ≡ some (v, rest)
unfolding escape_label
read-escape_label v rest = elim (Bool-cases (any_of reserved v)) [
  | inl special ↦ ground (arith, special, read-replaced v rest)
  | inr plain ↦ ground (arith, plain, read-unreserved v rest plain)
]
