-- ===== src/Metrics/Labels.antt =====
-- internal/metrics/metrics.go: the text of the labels of a series.
pub mod Reading
pub mod Series
use hooklens.Base.{
  ℕ, Bool, true, false, ◌||◌, List, [], ◌∷◌, ◌++◌, Bytes, codes, ltb, ◌==◌, any_of, if◌then◌else◌,
}
use hooklens.Capture.{bytes_less}

abbrev pub backslash : ℕ
backslash = 92

abbrev pub quote : ℕ
quote = 34

abbrev pub newline : ℕ
newline = 10

abbrev pub reserved : ℕ → Bool
reserved c = c == backslash || c == quote || c == newline

-- The replacer of `escapeLabel`, on one byte and on all of a text.
unfoldable pub escaped_byte : ℕ → Bytes
escaped_byte c =
    if c == backslash
    then backslash ∷ backslash ∷ []
    else if c == quote
    then backslash ∷ quote ∷ []
    else if c == newline
    then backslash ∷ b'n' ∷ []
    else c ∷ []

unfoldable pub replaced : Bytes → Bytes
replaced [] = []
replaced (c ∷ v) = escaped_byte c ++ replaced v

unfoldable pub escape_label : Bytes → Bytes
escape_label v = if any_of reserved v then replaced v else v

-- The map of labels as its pairs; `slices.Sorted` of its keys.
unfoldable pub insert_key : Bytes × Bytes → List (Bytes × Bytes) → List (Bytes × Bytes)
insert_key p [] = p ∷ []
insert_key p (q ∷ rest) =
    let later = insert_key p rest in if bytes_less q.0 p.0 then q ∷ later else p ∷ q ∷ rest

unfoldable pub sorted_keys : List (Bytes × Bytes) → List (Bytes × Bytes)
sorted_keys [] = []
sorted_keys (p ∷ rest) = insert_key p (sorted_keys rest)

unfoldable pub pair_text : Bytes × Bytes → Bytes
pair_text p = p.0 ++ (codes "=\"" ++ (escape_label p.1 ++ codes "\""))

-- The pairs after the first, each behind a comma.
unfoldable pub more_pairs : List (Bytes × Bytes) → Bytes
more_pairs [] = codes "}"
more_pairs (p ∷ rest) = codes "," ++ (pair_text p ++ more_pairs rest)

unfoldable pub render_sorted : List (Bytes × Bytes) → Bytes
render_sorted [] = []
render_sorted (p ∷ rest) = codes "{" ++ (pair_text p ++ more_pairs rest)

unfoldable pub render : List (Bytes × Bytes) → Bytes
render labels = render_sorted (sorted_keys labels)
