-- ===== src/Base/Cuts.antt =====
-- What the cuts of package strings (Base/Text) mean: each is the inverse of a concatenation.
use Prim.Native.Nat.{ℕ}
use mathlib.Core.Path.{◌≡◌, refl, ap}
use mathlib.Core.Logic.{◌≢◌, inl, inr}
use mathlib.Core.List.{[], ◌∷◌, ◌++◌}
use mathlib.Core.Option.{none, some}
use native.Mathlib.Omega.{arith}
use hooklens.Base.Tests.{Option-cases}
use hooklens.Base.Lists.{length, length-append, All}
use hooklens.Base.Text.{Bytes, bytes_eq-to, bytes_eq_refl, cut_prefix, cut_suffix, cut}

pub cut_prefix-to : (s p : Bytes) {r : Bytes} → cut_prefix s p ≡ some r → s ≡ p ++ r
unfolding cut_prefix
cut_prefix-to s [] h = ground arith
cut_prefix-to [] (p ∷ ps) h = cc
cut_prefix-to (c ∷ s) (p ∷ ps) {r} h = ground (arith, cut_prefix-to s ps {r = r})

pub cut_prefix-append : (p r : Bytes) → cut_prefix (p ++ r) p ≡ some r
unfolding cut_prefix
cut_prefix-append [] [] = refl
cut_prefix-append [] (c ∷ r) = refl
cut_prefix-append (c ∷ p) r = ground (arith, cut_prefix-append p r)

pub cut_suffix-to : (s t : Bytes) {r : Bytes} → cut_suffix s t ≡ some r → s ≡ r ++ t
unfolding cut_suffix
cut_suffix-to [] t {r} h = ground (arith, bytes_eq-to [] t)
cut_suffix-to (c ∷ s) t {r} h = elim (Option-cases (cut_suffix s t)) [
  | inl e ↦ ground (arith, bytes_eq-to (c ∷ s) t)
  | inr (q, e) ↦ ground (arith, bytes_eq-to (c ∷ s) t, cut_suffix-to s t {r = q} e)
]

append_longer : (c : ℕ) (r t : Bytes) → c ∷ r ++ t ≢ t
append_longer c r t e = absurd (omega (arith, ap length e, length-append r t))

pub cut_suffix-append : (r t : Bytes) → cut_suffix (r ++ t) t ≡ some r
unfolding cut_suffix
cut_suffix-append [] [] = refl
cut_suffix-append [] (c ∷ t) = ground (arith, bytes_eq_refl (c ∷ t))
cut_suffix-append (c ∷ r) t =
    ground (arith, bytes_eq-to (c ∷ r ++ t) t, append_longer c r t, cut_suffix-append r t)

-- A text that does not hold the byte.
abbrev pub Lacks : ℕ → Bytes → Type 0
Lacks b = All (λ c. c ≢ b)

pub cut_found :
    (s : Bytes) (sep : ℕ) {r : Bytes}
    → (cut s sep).1 ≡ some r
    → (s ≡ (cut s sep).0 ++ sep ∷ r) × Lacks sep (cut s sep).0
unfolding cut
cut_found [] sep h = cc
cut_found (c ∷ s) sep {r} h = ground (arith, cut_found s sep {r = r})

pub cut_missing : (s : Bytes) (sep : ℕ) → (cut s sep).1 ≡ none → ((cut s sep).0 ≡ s) × Lacks sep s
unfolding cut
cut_missing [] sep h = (refl, tt)
cut_missing (c ∷ s) sep h = ground (arith, cut_missing s sep)

pub cut-append : (p r : Bytes) (sep : ℕ) → Lacks sep p → cut (p ++ sep ∷ r) sep ≡ (p, some r)
unfolding cut
cut-append [] r sep h = ground arith
cut-append (c ∷ p) r sep h = ground (arith, cut-append p r sep)

pub cut_lacking : (p : Bytes) (sep : ℕ) → Lacks sep p → cut p sep ≡ (p, none)
unfolding cut
cut_lacking [] sep h = refl
cut_lacking (c ∷ p) sep h = ground (arith, cut_lacking p sep)
