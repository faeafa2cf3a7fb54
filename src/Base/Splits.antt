-- ===== src/Base/Splits.antt =====
-- strings.SplitSeq at a separator of one byte.
use Prim.Native.Nat.{ℕ}
use mathlib.Core.Path.{◌≡◌, refl}
use mathlib.Core.Bool.{Bool, true, not}
use mathlib.Core.List.{List, [], ◌∷◌, ◌++◌}
use native.Mathlib.Omega.{arith}
use hooklens.Base.Tests.{if◌then◌else◌, ◌==◌}
use hooklens.Base.Lists.{all_of}
use hooklens.Base.Text.{Bytes}

unfoldable pub onto_first : ℕ → List Bytes → List Bytes
onto_first c [] = (c ∷ []) ∷ []
onto_first c (l ∷ ls) = (c ∷ l) ∷ ls

unfoldable pub split : ℕ → Bytes → List Bytes
split sep [] = [] ∷ []
split sep (c ∷ s) = let rest = split sep s in if c == sep then [] ∷ rest else onto_first c rest

-- The separator does not stand in it.
abbrev pub free_of : ℕ → Bytes → Bool
free_of sep s = all_of (λ c. not (c == sep)) s

pub split-append :
    (sep : ℕ) (l rest : Bytes)
    → free_of sep l ≡ true
    → split sep (l ++ (sep ∷ rest)) ≡ l ∷ split sep rest
unfolding split onto_first
split-append sep [] rest h = ground arith
split-append sep (c ∷ l) rest h = ground (arith, split-append sep l rest)

pub split_free : (sep : ℕ) (l : Bytes) → free_of sep l ≡ true → split sep l ≡ l ∷ []
unfolding split onto_first
split_free sep [] h = refl
split_free sep (c ∷ l) h = ground (arith, split_free sep l)
