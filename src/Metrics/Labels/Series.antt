-- ===== src/Metrics/Labels/Series.antt =====
-- internal/metrics/metrics.go: labels that differ make different series.
use hooklens.Base.{
  ℕ, ◌≡◌, ◌≢◌, ◌∙◌, refl, sym, ap, true, false, List, [], ◌∷◌, ◌++◌, append_assoc, Bytes,
  bytes_eq_iff, bytes_key, lookup, codes, cut-append, Lacks, All, ◌==◌, arith, Bool-cases, inl, inr,
}
use hooklens.Capture.{bytes_less}
use hooklens.Metrics.Labels.{
  quote, escape_label, pair_text, more_pairs, render_sorted, sorted_keys, render, insert_key,
}
use hooklens.Metrics.Labels.Reading.{read-escape_label}

abbrev pub Keyed : Bytes × Bytes → Type 0
Keyed p = Lacks b'=' p.0

pair_text-append :
    (p : Bytes × Bytes) (rest : Bytes)
    → pair_text p ++ rest ≡ p.0 ++ (b'=' ∷ (quote ∷ (escape_label p.1 ++ (quote ∷ rest))))
unfolding pair_text
pair_text-append p rest =
    append_assoc p.0 (codes "=\"" ++ (escape_label p.1 ++ codes "\"")) rest
    ∙ ap (λ t. p.0 ++ (codes "=\"" ++ t)) (append_assoc (escape_label p.1) (codes "\"") rest)

-- What is in front of a text that begins with a pair is that pair.
pair_first :
    (p q : Bytes × Bytes) (rest tail : Bytes)
    → Keyed p
    → Keyed q
    → pair_text p ++ rest ≡ pair_text q ++ tail
    → (p ≡ q) × (rest ≡ tail)
pair_first p q rest tail hp hq e =
    let left = escape_label p.1 ++ (quote ∷ rest) in
    let right = escape_label q.1 ++ (quote ∷ tail) in
    let cut_p = cut-append p.0 (quote ∷ left) b'=' hp in
    let cut_q = cut-append q.0 (quote ∷ right) b'=' hq in
    let whole : p.0 ++ (b'=' ∷ (quote ∷ left)) ≡ q.0 ++ (b'=' ∷ (quote ∷ right)) =
      sym (pair_text-append p rest) ∙ (e ∙ pair_text-append q tail) in
    let keys : p.0 ≡ q.0 = cc (cut_p, cut_q, whole) in
    let values : left ≡ right = cc (cut_p, cut_q, whole) in
    let read_p = read-escape_label p.1 rest in
    let read_q = read-escape_label q.1 tail in
    let contents : p.1 ≡ q.1 = cc (read_p, read_q, values) in
    (cc (keys, contents), cc (read_p, read_q, values))

same_cons : {p q : Bytes × Bytes} {ps qs : List (Bytes × Bytes)} → p ≡ q → ps ≡ qs → p ∷ ps ≡ q ∷ qs
same_cons h k = cc (h, k)

behind : (c : ℕ) (s t : Bytes) → c ∷ s ≡ c ∷ t → s ≡ t
behind c s t e = cc e

other_start : (a b : ℕ) (s t : Bytes) → (a == b) ≡ false → a ∷ s ≢ b ∷ t
other_start a b s t h e = ground (arith, ap (head_or 0) e)
  where
    head_or : ℕ → Bytes → ℕ
    head_or d [] = d
    head_or d (c ∷ rest) = c

nonempty : (c : ℕ) (s : Bytes) → c ∷ s ≢ []
nonempty c s e = absurd (cc e)

more_pairs-injective :
    (ps qs : List (Bytes × Bytes))
    → All Keyed ps
    → All Keyed qs
    → more_pairs ps ≡ more_pairs qs
    → ps ≡ qs
unfolding more_pairs
more_pairs-injective [] [] hp hq e = refl
more_pairs-injective [] (q ∷ qs) hp hq e =
    absurd (other_start b'}' b',' [] (pair_text q ++ more_pairs qs) refl e)
more_pairs-injective (p ∷ ps) [] hp hq e =
    absurd (other_start b',' b'}' (pair_text p ++ more_pairs ps) [] refl e)
more_pairs-injective (p ∷ ps) (q ∷ qs) hp hq e =
    let rest = behind b',' (pair_text p ++ more_pairs ps) (pair_text q ++ more_pairs qs) e in
    let first = pair_first p q (more_pairs ps) (more_pairs qs) hp.0 hq.0 rest in
    same_cons first.0 (more_pairs-injective ps qs hp.1 hq.1 first.1)

render_sorted-injective :
    (ps qs : List (Bytes × Bytes))
    → All Keyed ps
    → All Keyed qs
    → render_sorted ps ≡ render_sorted qs
    → ps ≡ qs
unfolding render_sorted
render_sorted-injective [] [] hp hq e = refl
render_sorted-injective [] (q ∷ qs) hp hq e =
    absurd (nonempty b'{' (pair_text q ++ more_pairs qs) (sym e))
render_sorted-injective (p ∷ ps) [] hp hq e =
    absurd (nonempty b'{' (pair_text p ++ more_pairs ps) e)
render_sorted-injective (p ∷ ps) (q ∷ qs) hp hq e =
    let rest = behind b'{' (pair_text p ++ more_pairs ps) (pair_text q ++ more_pairs qs) e in
    let first = pair_first p q (more_pairs ps) (more_pairs qs) hp.0 hq.0 rest in
    same_cons first.0 (more_pairs-injective ps qs hp.1 hq.1 first.1)

insert-Keyed :
    (p : Bytes × Bytes) (ps : List (Bytes × Bytes))
    → Keyed p
    → All Keyed ps
    → All Keyed (insert_key p ps)
unfolding insert_key
insert-Keyed p [] h k = (h, tt)
insert-Keyed p (q ∷ ps) h k = elim (Bool-cases (bytes_less q.0 p.0)) [
  | inl less ↦ ground (arith, less, insert-Keyed p ps h k.1, h, k)
  | inr more ↦ ground (arith, more, h, k)
]

sorted-Keyed : (ps : List (Bytes × Bytes)) → All Keyed ps → All Keyed (sorted_keys ps)
unfolding sorted_keys
sorted-Keyed [] h = tt
sorted-Keyed (p ∷ ps) h = insert-Keyed p (sorted_keys ps) h.0 (sorted-Keyed ps h.1)

less_apart : (s t : Bytes) → bytes_less s t ≡ true → s ≢ t
unfolding bytes_less
less_apart s [] h e = absurd (cc h)
less_apart [] (c ∷ t) h e = absurd (cc e)
less_apart (b ∷ s) (c ∷ t) h e = ground (arith, less_apart s t, e)

lookup-insert_key :
    (k : Bytes) (p : Bytes × Bytes) (ps : List (Bytes × Bytes))
    → lookup k (insert_key p ps) ≡ lookup k (p ∷ ps)
unfolding insert_key lookup
lookup-insert_key k p [] = refl
lookup-insert_key k p (q ∷ ps) =
    ground
      (arith, less_apart q.0 p.0, bytes_eq_iff q.0 k, bytes_eq_iff p.0 k, lookup-insert_key k p ps)

lookup-sorted_keys :
    (k : Bytes) (ps : List (Bytes × Bytes)) → lookup k (sorted_keys ps) ≡ lookup k ps
unfolding sorted_keys lookup
lookup-sorted_keys k [] = refl
lookup-sorted_keys k (p ∷ ps) =
    lookup-insert_key k p (sorted_keys ps) ∙ ground (arith, lookup-sorted_keys k ps)

-- Two maps of labels with one text have the same value under every key, if no key has an equals
-- sign: labels that differ never share a series.
pub render-lookup :
    (ps qs : List (Bytes × Bytes))
    → All Keyed ps
    → All Keyed qs
    → render ps ≡ render qs
    → (k : Bytes) → lookup k ps ≡ lookup k qs
unfolding render
render-lookup ps qs hp hq e k =
    let same =
      render_sorted-injective (sorted_keys ps) (sorted_keys qs) (sorted-Keyed ps hp)
        (sorted-Keyed qs hq) e in
    cc (same, lookup-sorted_keys k ps, lookup-sorted_keys k qs)
