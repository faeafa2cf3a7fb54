-- ===== src/Diff/Headers/Same.antt =====
-- internal/diff/headers.go: which header lists show no change.
use hooklens.Base.{
  is_some, Bool, true, false, ◌||◌, ◌≡◌, ◌↔◌, refl, ap, Option, none, some, List, [], ◌∷◌, ◌++◌,
  append_assoc, Bytes, codes, bytes_eq, bytes_eq_iff, bytes_key, Map, lookup, insert, lookup-insert,
  any_of, to_lower, arith, Bool-cases, inl, inr, if◌then◌else◌,
}
use hooklens.Capture.{Header}
use hooklens.Diff.{Change, sort_strings, all_keys, over}
use hooklens.Diff.Keys.{has-all_keys, over_empty}
use hooklens.Diff.Headers.{
  joined, comma, grown, header_path, header_change, without, group_onto, group, headers,
}

-- The values of a list of headers under a lowercase name, in their order.
abbrev pub values_of : (Bytes → Bytes) → Bytes → List Header → List Bytes
values_of wide n [] = []
values_of wide n (h ∷ rest) =
    if bytes_eq (to_lower wide h.name) n
    then h.content ∷ values_of wide n rest
    else values_of wide n rest

unfoldable pub shown_as : List Bytes → Option Bytes
shown_as [] = none
shown_as (v ∷ rest) = some (joined (v ∷ rest) comma)

appended : Option (List Bytes) → List Bytes → Option (List Bytes)
appended o [] = o
appended none (v ∷ vs) = some (v ∷ vs)
appended (some us) (v ∷ vs) = some (us ++ (v ∷ vs))

appended-grown :
    (o : Option (List Bytes)) (v : Bytes) (vs : List Bytes)
    → appended (some (grown o v)) vs ≡ appended o (v ∷ vs)
unfolding appended grown
appended-grown none v [] = refl
appended-grown none v (w ∷ vs) = refl
appended-grown (some us) v [] = refl
appended-grown (some us) v (w ∷ vs) = ap some (append_assoc us (v ∷ []) (w ∷ vs))

module _ (wide : Bytes → Bytes) where
  lookup-group_onto :
      (n : Bytes) (out : Map Bytes (List Bytes)) (hs : List Header)
      → lookup n (group_onto wide out hs) ≡ appended (lookup n out) (values_of wide n hs)
  unfolding group_onto appended
  lookup-group_onto n out [] = refl
  lookup-group_onto n out (h ∷ rest) =
      let m = to_lower wide h.name in
      let more = insert m (grown (lookup m out) h.content) out in
      let step = lookup-group_onto n more rest in
      let read = lookup-insert m n (grown (lookup m out) h.content) out in
      elim (Bool-cases (bytes_eq m n)) [
        | inl same ↦
            let name = (bytes_eq_iff m n).0 same in
            cc (
              step,
              read,
              same,
              name,
              appended-grown (lookup m out) h.content (values_of wide n rest),
            )
        | inr other ↦ cc (step, read, other)
      ]

  lookup-group :
      (n : Bytes) (hs : List Header)
      → lookup n (group wide hs) ≡ appended none (values_of wide n hs)
  unfolding lookup
  lookup-group n hs = lookup-group_onto n [] hs

-- Whether a name is among those left out.
header_path-injective : (p a b : Bytes) → bytes_eq (p ++ a) (p ++ b) ≡ bytes_eq a b
unfolding bytes_eq
header_path-injective [] a b = refl
header_path-injective (c ∷ p) a b = ground (arith, header_path-injective p a b)

any-header_path :
    (n : Bytes) (names : List Bytes)
    → any_of (λ h. bytes_eq (header_path h) (header_path n)) names
      ≡ any_of (λ h. bytes_eq h n) names
unfolding header_path
any-header_path n [] = refl
any-header_path n (h ∷ rest) =
    cc (header_path-injective (codes "header:") h n, any-header_path n rest)

without-append :
    (names : List Bytes) (xs ys : List Change)
    → without names (xs ++ ys) ≡ without names xs ++ without names ys
unfolding without
without-append names [] ys = refl
without-append names (x ∷ xs) ys = ground (arith, without-append names xs ys)

without-over :
    (names : List Bytes) (f : Bytes → List Change) (ks : List Bytes)
    → without names (over f ks) ≡ over (λ k. without names (f k)) ks
unfolding over without
without-over names f [] = refl
without-over names f (k ∷ ks) = cc (without-append names (f k) (over f ks), without-over names f ks)

abbrev pub named_in : Bytes → List Bytes → Bool
named_in n names = any_of (λ h. bytes_eq h n) names

without-header_change :
    (names : List Bytes) (n : Bytes) (l r : Option (List Bytes))
    → without names (header_change (header_path n) l r)
      ≡ (if named_in n names then [] else header_change (header_path n) l r)
unfolding without header_change
without-header_change names n none none = ground (arith, any-header_path n names)
without-header_change names n (some l) none = ground (arith, any-header_path n names)
without-header_change names n none (some r) = ground (arith, any-header_path n names)
without-header_change names n (some l) (some r) = ground (arith, any-header_path n names)

-- A name with values on some side.
header_change-shown_as :
    (path : Bytes) (ls rs : List Bytes)
    → (is_some (appended none ls) || is_some (appended none rs)) ≡ true
    → (header_change path (appended none ls) (appended none rs) ≡ []) ↔ (shown_as ls ≡ shown_as rs)
unfolding header_change appended shown_as is_some
header_change-shown_as path [] [] h = absurd (cc h)
header_change-shown_as path (l ∷ ls) [] h = ((λ e. cc e), (λ e. cc e))
header_change-shown_as path [] (r ∷ rs) h = ((λ e. cc e), (λ e. cc e))
header_change-shown_as path (l ∷ ls) (r ∷ rs) h =
    ground (arith, bytes_eq_iff (joined (l ∷ ls) comma) (joined (r ∷ rs) comma))

absent-shown_as :
    (ls rs : List Bytes)
    → (is_some (appended none ls) || is_some (appended none rs)) ≡ false
    → shown_as ls ≡ shown_as rs
unfolding appended shown_as is_some
absent-shown_as [] [] h = refl
absent-shown_as (l ∷ ls) rs h = absurd (cc h)
absent-shown_as [] (r ∷ rs) h = absurd (cc h)

module _ (wide : Bytes → Bytes) (names : List Bytes) (left right : List Header) where
  abbrev at_name : Bytes → List Change
  at_name n =
      header_change (header_path n) (lookup n (group wide left)) (lookup n (group wide right))

  abbrev present : Bytes → Bool
  present n = is_some (lookup n (group wide left)) || is_some (lookup n (group wide right))

  without-at_name :
      (n : Bytes) → without names (at_name n) ≡ (if named_in n names then [] else at_name n)
  without-at_name n =
      without-header_change names n (lookup n (group wide left)) (lookup n (group wide right))

  at_name-shown_as :
      (n : Bytes)
      → present n ≡ true
      → (at_name n ≡ []) ↔ (shown_as (values_of wide n left) ≡ shown_as (values_of wide n right))
  at_name-shown_as n h =
      rw (lookup-group wide n left, lookup-group wide n right)
        (header_change-shown_as (header_path n) (values_of wide n left) (values_of wide n right)
          (rw (lookup-group wide n left, lookup-group wide n right) at h))

  -- Without the names that are left out, the lists show no change if and only if under every other
  -- name they have the same values, joined, or both none.
  pub without-headers : (without names (headers wide left right) ≡ []) ↔ (
      (n : Bytes)
      → named_in n names ≡ false
      → shown_as (values_of wide n left) ≡ shown_as (values_of wide n right))
  unfolding headers
  without-headers =
      let keys = sort_strings (all_keys (group wide left) (group wide right)) in
      let kept = λ (k : Bytes). without names (at_name k) in
      let split = without-over names at_name keys in
      (
        λ e n fresh. elim (Bool-cases (present n)) [
          | inl there ↦
              let quiet =
                (over_empty kept keys).0 (cc (e, split)) n
                  (cc (has-all_keys n (group wide left) (group wide right), there)) in
              (at_name-shown_as n there).0 (cc (quiet, without-at_name n, fresh))
          | inr gone ↦
              absent-shown_as (values_of wide n left) (values_of wide n right)
                (rw (lookup-group wide n left, lookup-group wide n right) at gone)
        ],
        λ g.
            let every = (over_empty kept keys).1 (λ n here. elim (Bool-cases (named_in n names)) [
              | inl hidden ↦ cc (without-at_name n, hidden)
              | inr fresh ↦
                  let there : present n ≡ true =
                    cc (has-all_keys n (group wide left) (group wide right), here) in
                  cc (without-at_name n, fresh, (at_name-shown_as n there).1 (g n fresh))
            ]) in
            cc (every, split),
      )
