-- ===== src/Base/Trims.antt =====
-- strings.TrimSpace leaves a text without spaces as it is.
use Prim.Native.Nat.{ℕ, zero, suc}
use mathlib.Core.Path.{◌≡◌, ◌∙◌, refl, ap}
use mathlib.Core.Bool.{Bool, true, false, not, ◌&&◌}
use mathlib.Core.List.{List, [], ◌∷◌, ◌++◌, map, reverse, reverse-reverse, reverse-cons}
use mathlib.Core.Option.{none}
use native.Mathlib.Omega.{arith}
use hooklens.Base.Tests.{ltb}
use hooklens.Base.Lists.{length, all_of}
use hooklens.Base.Text.{Bytes, spaces, cut_prefix, strip_one, strip_all, trim_space}

-- Printable ASCII without the space.
abbrev pub graphic : ℕ → Bool
graphic c = ltb 32 c && ltb c 127

-- Does not begin with a graphic byte, and is not empty.
dark : Bytes → Bool
dark [] = false
dark (c ∷ p) = not (graphic c)

strip_one-graphic :
    (ps : List Bytes) (s : Bytes)
    → all_of dark ps ≡ true
    → all_of graphic s ≡ true
    → strip_one ps s ≡ none
unfolding strip_one cut_prefix dark
strip_one-graphic [] s d g = refl
strip_one-graphic ([] ∷ ps) s d g = cc
strip_one-graphic ((p ∷ q) ∷ ps) [] d g = ground (arith, strip_one-graphic ps [])
strip_one-graphic ((p ∷ q) ∷ ps) (c ∷ s) d g = ground (arith, strip_one-graphic ps (c ∷ s))

strip_all-graphic :
    (f : ℕ) (ps : List Bytes) (s : Bytes)
    → all_of dark ps ≡ true
    → all_of graphic s ≡ true
    → strip_all f ps s ≡ s
unfolding strip_all
strip_all-graphic zero ps s d g = refl
strip_all-graphic (suc f) ps s d g = ground (arith, strip_one-graphic ps s d g)

pub all-append :
    (p : ℕ → Bool) (s t : Bytes) → all_of p s ≡ true → all_of p t ≡ true → all_of p (s ++ t) ≡ true
all-append p [] t h k = k
all-append p (c ∷ s) t h k = ground (arith, all-append p s t)

all-reverse : (p : ℕ → Bool) (s : Bytes) → all_of p s ≡ true → all_of p (reverse s) ≡ true
all-reverse p [] h = refl
all-reverse p (c ∷ s) h =
    ap (all_of p) (reverse-cons c s)
    ∙ all-append p (reverse s) (c ∷ []) (all-reverse p s (ground arith)) (ground arith)

dark-spaces : all_of dark spaces ≡ true
unfolding dark
dark-spaces = refl

dark-reversed : all_of dark (map reverse spaces) ≡ true
unfolding dark
dark-reversed = refl

pub trim_space-graphic : (s : Bytes) → all_of graphic s ≡ true → trim_space s ≡ s
unfolding trim_space
trim_space-graphic s g =
    let backward = map reverse spaces in
    let strip = λ (left : Bytes). reverse (strip_all (length left) backward (reverse left)) in
    ap strip (strip_all-graphic (length s) spaces s dark-spaces g)
    ∙ (ap reverse (
          strip_all-graphic (length s) backward (reverse s) dark-reversed (all-reverse graphic s g))
        ∙ reverse-reverse s)
