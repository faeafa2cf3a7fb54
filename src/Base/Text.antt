-- ===== src/Base/Text.antt =====
-- Go strings as lists of bytes, with the functions of package strings that the program calls.
use Prim.Native.Nat.{ℕ, zero, suc, ◌+◌}
use Prim.Native.Char.{code}
use Prim.Native.String.{String}
use mathlib.Core.Path.{◌≡◌, refl}
use mathlib.Core.Logic.{◌↔◌}
use mathlib.Core.Bool.{Bool, true, false, ◌&&◌}
use mathlib.Core.List.{List, [], ◌∷◌, ◌++◌, map, reverse}
use mathlib.Core.Option.{Option, none, some}
use native.Mathlib.Omega.{arith}
use hooklens.Base.Tests.{if◌then◌else◌, ◌==◌, leb, ltb}
use hooklens.Base.Lists.{length, all_of}
use hooklens.Base.Maps.{Key}

abbrev pub Bytes : Type 0
Bytes = List ℕ

-- The code points of a literal; these are its bytes when the text is ASCII.
abbrev pub codes : String → Bytes
codes String.[] = []
codes (String.◌∷◌ c s) = code c ∷ codes s

-- Go's `==` on strings.
unfoldable pub bytes_eq : Bytes → Bytes → Bool
bytes_eq [] [] = true
bytes_eq [] (b ∷ bs) = false
bytes_eq (a ∷ as') [] = false
bytes_eq (a ∷ as') (b ∷ bs) = a == b && bytes_eq as' bs

pub bytes_eq-to : (s t : Bytes) → bytes_eq s t ≡ true → s ≡ t
unfolding bytes_eq
bytes_eq-to [] [] h = refl
bytes_eq-to [] (b ∷ bs) h = cc
bytes_eq-to (a ∷ as') [] h = cc
bytes_eq-to (a ∷ as') (b ∷ bs) h = ground (arith, bytes_eq-to as' bs)

pub bytes_eq_refl : (s : Bytes) → bytes_eq s s ≡ true
unfolding bytes_eq
bytes_eq_refl [] = refl
bytes_eq_refl (a ∷ s) = ground (arith, bytes_eq_refl s)

bytes_eq_of : (s t : Bytes) → s ≡ t → bytes_eq s t ≡ true
bytes_eq_of s t h = ground (arith, bytes_eq_refl s)

pub bytes_eq_iff : (s t : Bytes) → (bytes_eq s t ≡ true) ↔ (s ≡ t)
bytes_eq_iff s t = (bytes_eq-to s t, bytes_eq_of s t)

instance abbrev pub bytes_key : Key Bytes
bytes_key = record { beq = bytes_eq; beq_iff = bytes_eq_iff }

-- strings.CutPrefix: the rest behind the prefix.
unfoldable pub cut_prefix : Bytes → Bytes → Option Bytes
cut_prefix s [] = some s
cut_prefix [] (p ∷ ps) = none
cut_prefix (c ∷ s) (p ∷ ps) = if c == p then cut_prefix s ps else none

-- strings.CutSuffix: the text in front of the suffix.
unfoldable pub cut_suffix : Bytes → Bytes → Option Bytes
unfolding bytes_eq
cut_suffix [] suffix = if bytes_eq [] suffix then some [] else none
cut_suffix (c ∷ s) suffix =
    if bytes_eq (c ∷ s) suffix
    then some []
    else elim (cut_suffix s suffix) [ none ↦ none | some r ↦ some (c ∷ r) ]

-- strings.Cut at a separator of one byte: what stands before it and, if it is there, behind it.
unfoldable pub cut : Bytes → ℕ → Bytes × Option Bytes
cut [] sep = ([], none)
cut (c ∷ s) sep = let rest = cut s sep in if c == sep then ([], some s) else (c ∷ rest.0, rest.1)

-- strings.TrimSuffix with a suffix of one byte.
unfoldable pub trim_suffix_byte : Bytes → ℕ → Bytes
trim_suffix_byte [] b = []
trim_suffix_byte (c ∷ []) b = if c == b then [] else c ∷ []
trim_suffix_byte (c ∷ d ∷ s) b = c ∷ trim_suffix_byte (d ∷ s) b

-- The UTF-8 encodings of the runes of unicode.IsSpace.
abbrev pub spaces : List Bytes
spaces =
    (9 ∷ [])
    ∷ (10 ∷ [])
    ∷ (11 ∷ [])
    ∷ (12 ∷ [])
    ∷ (13 ∷ [])
    ∷ (32 ∷ [])
    ∷ (0xc2 ∷ 0x85 ∷ [])
    ∷ (0xc2 ∷ 0xa0 ∷ [])
    ∷ (0xe1 ∷ 0x9a ∷ 0x80 ∷ [])
    ∷ (0xe2 ∷ 0x80 ∷ 0x80 ∷ [])
    ∷ (0xe2 ∷ 0x80 ∷ 0x81 ∷ [])
    ∷ (0xe2 ∷ 0x80 ∷ 0x82 ∷ [])
    ∷ (0xe2 ∷ 0x80 ∷ 0x83 ∷ [])
    ∷ (0xe2 ∷ 0x80 ∷ 0x84 ∷ [])
    ∷ (0xe2 ∷ 0x80 ∷ 0x85 ∷ [])
    ∷ (0xe2 ∷ 0x80 ∷ 0x86 ∷ [])
    ∷ (0xe2 ∷ 0x80 ∷ 0x87 ∷ [])
    ∷ (0xe2 ∷ 0x80 ∷ 0x88 ∷ [])
    ∷ (0xe2 ∷ 0x80 ∷ 0x89 ∷ [])
    ∷ (0xe2 ∷ 0x80 ∷ 0x8a ∷ [])
    ∷ (0xe2 ∷ 0x80 ∷ 0xa8 ∷ [])
    ∷ (0xe2 ∷ 0x80 ∷ 0xa9 ∷ [])
    ∷ (0xe2 ∷ 0x80 ∷ 0xaf ∷ [])
    ∷ (0xe2 ∷ 0x81 ∷ 0x9f ∷ [])
    ∷ (0xe3 ∷ 0x80 ∷ 0x80 ∷ [])
    ∷ []

-- The text behind the first of the prefixes that it starts with.
unfoldable pub strip_one : List Bytes → Bytes → Option Bytes
strip_one [] s = none
strip_one (p ∷ ps) s = elim (cut_prefix s p) [ none ↦ strip_one ps s | some r ↦ some r ]

-- Every round takes a byte at least, so the length is fuel enough.
unfoldable pub strip_all : ℕ → List Bytes → Bytes → Bytes
strip_all zero ps s = s
strip_all (suc f) ps s = elim (strip_one ps s) [ none ↦ s | some r ↦ strip_all f ps r ]

-- strings.TrimSpace.
unfoldable pub trim_space : Bytes → Bytes
unfolding strip_all strip_one cut_prefix
trim_space s =
    let left = strip_all (length s) spaces s in
    reverse (strip_all (length left) (map reverse spaces) (reverse left))

abbrev pub lower_byte : ℕ → ℕ
lower_byte c = if leb b'A' c && leb c b'Z' then c + 32 else c

-- strings.ToLower. `wide` is its action on a text with a byte outside ASCII, by the Unicode tables.
unfoldable pub to_lower : (Bytes → Bytes) → Bytes → Bytes
to_lower wide s = if all_of (λ c. ltb c 128) s then map lower_byte s else wide s

-- strings.EqualFold, with `wide` as above.
unfoldable pub equal_fold : (Bytes → Bytes → Bool) → Bytes → Bytes → Bool
unfolding bytes_eq
equal_fold wide s t =
    if all_of (λ c. ltb c 128) (s ++ t)
    then bytes_eq (map lower_byte s) (map lower_byte t)
    else wide s t
