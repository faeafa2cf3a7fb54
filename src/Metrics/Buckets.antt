-- ===== src/Metrics/Buckets.antt =====
-- internal/metrics/metrics.go: what the lines of a histogram count.
use hooklens.Base.{
  ℕ, ◌+◌, ◌≡◌, ◌∙◌, refl, ap, Bool, true, ◌&&◌, Option, none, some, List, [], ◌∷◌, bytes_key, leb,
  all_of, if◌then◌else◌, arith, Bool-cases, inl, inr,
}
use hooklens.Metrics.{wrap, slot_index, add_one, bucket_lines}

-- The bounds are in order.
unfoldable pub ascending : List ℕ → Bool
ascending [] = true
ascending (b ∷ rest) = all_of (leb b) rest && ascending rest

-- The lines that a count for each bound and one in all make.
unfoldable pub lines_of : (ℕ → ℕ) → ℕ → List ℕ → List (Option ℕ × ℕ)
lines_of counted all [] = (none, wrap all) ∷ []
lines_of counted all (b ∷ rest) = (some b, wrap (counted b)) ∷ lines_of counted all rest

-- One more for the bounds that a value fits.
abbrev pub one_more : ℕ → (ℕ → ℕ) → ℕ → ℕ
one_more v counted b = if leb v b then counted b + 1 else counted b

add_wrapped :
    (acc c all : ℕ) → wrap (acc + c) ≡ wrap all → wrap (wrap (acc + 1) + c) ≡ wrap (all + 1)
add_wrapped acc c all e = omega (arith, e)

add_counted :
    (acc c all : ℕ) → wrap (acc + c) ≡ wrap all → wrap (acc + wrap (c + 1)) ≡ wrap (all + 1)
add_counted acc c all e = omega (arith, e)

same_entry :
    {bound : Option ℕ} {x y : ℕ} {rest tail : List (Option ℕ × ℕ)}
    → (bound, x) ∷ rest ≡ (bound, y) ∷ tail
    → (x ≡ y) × (rest ≡ tail)
same_entry e = (cc e, cc e)

pub leb_all :
    (v b : ℕ) (bounds : List ℕ)
    → leb v b ≡ true
    → all_of (leb b) bounds ≡ true
    → all_of (leb v) bounds ≡ true
leb_all v b [] h k = refl
leb_all v b (c ∷ rest) h k = ground (arith, leb_all v b rest)

shift :
    (acc all : ℕ) (counted : ℕ → ℕ) (v : ℕ) (bounds counts : List ℕ)
    → all_of (leb v) bounds ≡ true
    → bucket_lines acc bounds counts ≡ lines_of counted all bounds
    → bucket_lines (wrap (acc + 1)) bounds counts ≡ lines_of (one_more v counted) (all + 1) bounds
unfolding bucket_lines lines_of
shift acc all counted v [] [] h e = absurd (cc e)
shift acc all counted v (b ∷ bounds) [] h e = absurd (cc e)
shift acc all counted v [] (c ∷ counts) h e =
    ap (λ n. (none, n) ∷ []) (add_wrapped acc c all (same_entry e).0)
shift acc all counted v (b ∷ bounds) (c ∷ counts) h e =
    let parts = same_entry e in
    let later : bucket_lines (wrap (wrap (acc + 1) + c)) bounds counts
        ≡ lines_of (one_more v counted) (all + 1) bounds =
      ap (λ n. bucket_lines n bounds counts) (omega arith)
      ∙ shift (wrap (acc + c)) all counted v bounds counts (ground (arith, h)) parts.1 in
    ground (arith, later, add_wrapped acc c (counted b) parts.0)

-- A value is counted in its slot, and in every line from there on.
pub step :
    (acc all : ℕ) (counted : ℕ → ℕ) (v : ℕ) (bounds counts : List ℕ)
    → ascending bounds ≡ true
    → bucket_lines acc bounds counts ≡ lines_of counted all bounds
    → bucket_lines acc bounds (add_one counts (slot_index bounds v))
      ≡ lines_of (one_more v counted) (all + 1) bounds
unfolding bucket_lines lines_of add_one slot_index ascending
step acc all counted v [] [] h e = absurd (cc e)
step acc all counted v (b ∷ bounds) [] h e = absurd (cc e)
step acc all counted v [] (c ∷ counts) h e =
    ap (λ n. (none, n) ∷ []) (add_counted acc c all (same_entry e).0)
step acc all counted v (b ∷ bounds) (c ∷ counts) h e = elim (Bool-cases (leb v b)) [
  | inl fits ↦
      let parts = same_entry e in
      let above = leb_all v b bounds fits (ground (arith, h)) in
      let same : bucket_lines (wrap (acc + wrap (c + 1))) bounds counts
          ≡ lines_of (one_more v counted) (all + 1) bounds =
        ap (λ n. bucket_lines n bounds counts) (omega arith)
        ∙ shift (wrap (acc + c)) all counted v bounds counts above parts.1 in
      ground (arith, fits, same, add_counted acc c (counted b) parts.0)
  | inr over ↦
      let parts = same_entry e in
      let later = step (wrap (acc + c)) all counted v bounds counts (ground (arith, h)) parts.1 in
      ground (arith, over, later, parts.0)
]
