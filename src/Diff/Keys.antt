-- ===== src/Diff/Keys.antt =====
-- internal/diff/diff.go: which keys the walk of two maps goes through.
use hooklens.Base.{
  is_some, Distinct, Bool-cases, inl, inr, Bool, true, not, ◌&&◌, ◌||◌, ◌≡◌, ◌↔◌, refl, ap, some,
  List, [], ◌∷◌, ◌++◌, map, Bytes, bytes_eq, bytes_eq_iff, bytes_key, Map, lookup, keep, any_of,
  arith,
}
use hooklens.Diff.{insert_string, sort_strings, all_keys, over}

abbrev pub has : Bytes → List Bytes → Bool
has k ks = any_of (bytes_eq k) ks

pub bytes_eq_comm : (s t : Bytes) → bytes_eq s t ≡ bytes_eq t s
bytes_eq_comm s t = ground (arith, bytes_eq_iff s t, bytes_eq_iff t s)

has-insert_string :
    (k s : Bytes) (ks : List Bytes) → has k (insert_string s ks) ≡ (bytes_eq k s || has k ks)
unfolding insert_string
has-insert_string k s [] = refl
has-insert_string k s (t ∷ rest) = ground (arith, has-insert_string k s rest)

has-sort_strings : (k : Bytes) (ks : List Bytes) → has k (sort_strings ks) ≡ has k ks
unfolding sort_strings
has-sort_strings k [] = refl
has-sort_strings k (s ∷ rest) =
    ground (arith, has-sort_strings k rest, has-insert_string k s (sort_strings rest))

has-append : (k : Bytes) (xs ys : List Bytes) → has k (xs ++ ys) ≡ (has k xs || has k ys)
has-append k [] ys = refl
has-append k (x ∷ xs) ys = ground (arith, has-append k xs ys)

pub has-keep :
    (k : Bytes) (p : Bytes → Bool) (ks : List Bytes) → has k (keep p ks) ≡ (p k && has k ks)
has-keep k p [] = ground arith
has-keep k p (s ∷ rest) = ground (arith, bytes_eq_iff k s, has-keep k p rest)

module _ {ℓ} {A : Type ℓ} where
  pub has-keys : (k : Bytes) (m : Map Bytes A) → has k (map (λ e. e.0) m) ≡ is_some (lookup k m)
  unfolding lookup is_some
  has-keys k [] = refl
  has-keys k ((j, a) ∷ rest) = ground (arith, bytes_eq_comm k j, has-keys k rest)

  pub any-key :
      (k : Bytes) (m : Map Bytes A) → any_of (λ e. bytes_eq e.0 k) m ≡ is_some (lookup k m)
  unfolding lookup is_some
  any-key k [] = refl
  any-key k ((j, a) ∷ rest) = ground (arith, any-key k rest)

-- The keys are those of either map.
pub has-all_keys {ℓ κ} :
    {A : Type ℓ} {B : Type κ} (k : Bytes) (l : Map Bytes A) (r : Map Bytes B)
    → has k (sort_strings (all_keys l r)) ≡ (is_some (lookup k l) || is_some (lookup k r))
unfolding all_keys
has-all_keys k l r =
    let first = map (λ e. e.0) l in
    let others = map (λ e. e.0) r in
    ground (
      arith,
      has-sort_strings k (first ++ keep (λ j. not (has j first)) others),
      has-append k first (keep (λ j. not (has j first)) others),
      has-keep k (λ j. not (has j first)) others,
      has-keys k l,
      has-keys k r,
    )

module _ {ℓ} {B : Type ℓ} where
  pub append_empty : (xs ys : List B) → (xs ++ ys ≡ []) ↔ ((xs ≡ []) × (ys ≡ []))
  append_empty [] ys = ground arith
  append_empty (x ∷ xs) ys = ground arith

  -- A loop over keys adds nothing when it adds nothing at any of them.
  pub over_empty :
      (f : Bytes → List B) (ks : List Bytes)
      → (over f ks ≡ []) ↔ ((k : Bytes) → has k ks ≡ true → f k ≡ [])
  unfolding over
  over_empty f [] = (λ _ k h. cc h, λ _. refl)
  over_empty f (s ∷ rest) = (
    λ e k h.
        let parts = (append_empty (f s) (over f rest)).0 e in
        ground (arith, parts.0, (over_empty f rest).0 parts.1 k, ap f, bytes_eq_iff k s),
    λ g. ground (
      arith,
      append_empty (f s) (over f rest),
      (over_empty f rest).1 (λ k h. g k (ground arith)),
      g s,
      bytes_eq_iff s s,
    ),
  )

-- So with a loop over the entries of a map.
module _ {ℓ κ} {A : Type ℓ} {B : Type κ} (f : Bytes × A → List B) where
  pub over-lookup :
      (m : Map Bytes A) → over f m ≡ [] → (k : Bytes) (a : A) → lookup k m ≡ some a → f (k, a) ≡ []
  unfolding over lookup
  over-lookup [] e k a here = cc here
  over-lookup ((j, b) ∷ rest) e k a here =
      let parts = (append_empty (f (j, b)) (over f rest)).0 e in
      let head : f (j, b) ≡ [] = parts.0 in
      elim (Bool-cases (bytes_eq j k)) [
        | inl same ↦
            let keys = (bytes_eq_iff j k).0 same in
            let values : b ≡ a = ground arith in cc (head, keys, values)
        | inr other ↦ over-lookup rest parts.1 k a (ground arith)
      ]

  pub lookup-over :
      (m : Map Bytes A)
      → Distinct m
      → ((k : Bytes) (a : A) → lookup k m ≡ some a → f (k, a) ≡ [])
      → over f m ≡ []
  unfolding over lookup
  lookup-over [] d g = refl
  lookup-over ((j, b) ∷ rest) d g = (append_empty (f (j, b)) (over f rest)).1 (
    g j b (ground (arith, bytes_eq_iff j j)),
    lookup-over rest d.1 λ k a here. g k a (ground (arith, bytes_eq_iff j k)),
  )
