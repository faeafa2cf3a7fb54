-- ===== src/Metrics/Tests.antt =====
-- A histogram of a few observations, and the text of labels.
use hooklens.Base.{
  ℕ, ◌≡◌, refl, none, some, List, [], ◌∷◌, Bytes, codes, bytes_eq, bytes_key, lookup, replicate,
  All, arith,
}
use hooklens.Capture.{bytes_less}
use hooklens.Metrics.{
  insert_bound, sort_floats, new_histogram, slot_index, add_one, slot, observed, observe,
  bucket_lines, written, quantile_from, quantile,
}
use hooklens.Metrics.Series.{observe_all, values_of, counted, fitting, sum_of, observed_so_far}
use hooklens.Metrics.Buckets.{lines_of}
use hooklens.Metrics.Labels.{
  escaped_byte, replaced, escape_label, pair_text, insert_key, sorted_keys, more_pairs,
  render_sorted, render,
}
use hooklens.Metrics.Labels.Series.{Keyed, render-lookup}

program : Unit {0}
unfolding bytes_eq lookup replicate bytes_less insert_bound sort_floats new_histogram slot_index
    add_one slot observed observe bucket_lines written quantile_from quantile observe_all values_of
    fitting sum_of lines_of escaped_byte replaced escape_label pair_text insert_key sorted_keys
    more_pairs render_sorted render
program = tt

abbrev history : List (Bytes × ℕ)
history = (codes "a", 7) ∷ (codes "b", 1) ∷ (codes "a", 90) ∷ (codes "a", 5) ∷ []

observed_so_far_example :
    written (new_histogram (10 ∷ 5 ∷ [])).buckets (
      slot
        (observe_all history (new_histogram (10 ∷ 5 ∷ []))).buckets
        (lookup (codes "a") (observe_all history (new_histogram (10 ∷ 5 ∷ []))).series))
    ≡ counted (new_histogram (10 ∷ 5 ∷ [])).buckets (values_of (codes "a") history)
observed_so_far_example = observed_so_far (10 ∷ 5 ∷ []) (codes "a") history

scraped :
    counted (new_histogram (10 ∷ 5 ∷ [])).buckets (values_of (codes "a") history)
    ≡ ((some 5, 1) ∷ (some 10, 2) ∷ (none, 3) ∷ [], 102, 3)
unfolding program
scraped = refl

median : quantile 1 2 (5 ∷ 10 ∷ []) (observed (5 ∷ 10 ∷ []) 7 (slot (5 ∷ 10 ∷ []) none)) ≡ some 10
unfolding program
median = refl

abbrev labels : List (Bytes × Bytes)
labels = (codes "status", codes "2xx") ∷ (codes "path", codes "a\"b") ∷ []

abbrev swapped : List (Bytes × Bytes)
swapped = (codes "path", codes "a\"b") ∷ (codes "status", codes "2xx") ∷ []

rendered : render labels ≡ codes "{path=\"a\\\"b\",status=\"2xx\"}"
unfolding program
rendered = refl

one_text : render labels ≡ render swapped
unfolding program
one_text = refl

labels-Keyed : All Keyed labels
labels-Keyed = ground arith

swapped-Keyed : All Keyed swapped
swapped-Keyed = ground arith

render-lookup_example : lookup (codes "status") labels ≡ lookup (codes "status") swapped
render-lookup_example =
    render-lookup labels swapped labels-Keyed swapped-Keyed one_text (codes "status")
