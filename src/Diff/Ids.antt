-- ===== src/Diff/Ids.antt =====
-- internal/diff/diff.go: the ids of `elementIDs` are distinct, and a map of the elements by id.
use hooklens.Base.{
  Bool-cases, inl, inr, true, false, ◌≡◌, refl, Option, none, some, List, [], ◌∷◌, map, Bytes,
  bytes_eq_iff, bytes_key, Map, lookup, Distinct, arith, Option-cases,
}
use hooklens.Diff.{Json, id_of, collect_ids, element_ids, pair_up}
use hooklens.Diff.Keys.{has}

-- No id twice, and none of those seen.
abbrev Fresh : List Bytes → List Bytes → Type 0
Fresh seen [] = Unit
Fresh seen (id ∷ ids) = (has id seen ≡ false) × Fresh (id ∷ seen) ids

collect_ids-Fresh :
    (vs : List Json) (seen ids : List Bytes) → collect_ids vs seen ≡ some ids → Fresh seen ids
unfolding collect_ids
collect_ids-Fresh [] seen [] e = tt
collect_ids-Fresh [] seen (id ∷ ids) e = cc e
collect_ids-Fresh (v ∷ rest) seen ids e = elim (Option-cases (id_of v)) [
  | inl without ↦ absurd (ground arith)
  | inr (id, is) ↦ elim (Bool-cases (has id seen)) [
    | inl old ↦ absurd (ground arith)
    | inr new ↦ elim (Option-cases (collect_ids rest (id ∷ seen))) [
      | inl failed ↦ absurd (ground arith)
      | inr (more, are) ↦
          let split : id ∷ more ≡ ids = ground arith in
          rw (← split) (new, collect_ids-Fresh rest (id ∷ seen) more are)
    ]
  ]
]

module _ {ℓ} {A : Type ℓ} where
  lookup-seen :
      (seen ids : List Bytes) (xs : List A) (k : Bytes)
      → Fresh seen ids
      → has k seen ≡ true
      → lookup k (pair_up ids xs) ≡ none
  unfolding pair_up lookup
  lookup-seen seen [] xs k f h = refl
  lookup-seen seen (id ∷ ids) [] k f h = refl
  lookup-seen seen (id ∷ ids) (x ∷ xs) k f h =
      ground (arith, bytes_eq_iff id k, f.0, h, lookup-seen (id ∷ seen) ids xs k f.1)

  Fresh-Distinct :
      (seen ids : List Bytes) (xs : List A) → Fresh seen ids → Distinct (pair_up ids xs)
  unfolding pair_up
  Fresh-Distinct seen [] xs f = tt
  Fresh-Distinct seen (id ∷ ids) [] f = tt
  Fresh-Distinct seen (id ∷ ids) (x ∷ xs) f = (
    lookup-seen (id ∷ seen) ids xs id f.1 (ground (arith, bytes_eq_iff id id)),
    Fresh-Distinct (id ∷ seen) ids xs f.1,
  )

  pub element_ids-Distinct :
      (vs : List Json) (ids : List Bytes) (xs : List A)
      → element_ids vs ≡ some ids
      → Distinct (pair_up ids xs)
  unfolding element_ids
  element_ids-Distinct [] ids xs e = cc e
  element_ids-Distinct (v ∷ rest) ids xs e =
      Fresh-Distinct [] ids xs (collect_ids-Fresh (v ∷ rest) [] ids e)

-- A function of the elements, mapped over them.
module _ {ℓ κ} {A : Type ℓ} {B : Type κ} (f : A → B) where
  unfoldable pub on_value : Option A → Option B
  on_value none = none
  on_value (some a) = some (f a)

  unfoldable pub on_entries : Map Bytes A → Map Bytes B
  on_entries [] = []
  on_entries ((k, a) ∷ rest) = (k, f a) ∷ on_entries rest

  pub lookup-on_entries :
      (k : Bytes) (m : Map Bytes A) → lookup k (on_entries m) ≡ on_value (lookup k m)
  unfolding lookup on_entries on_value
  lookup-on_entries k [] = refl
  lookup-on_entries k ((j, a) ∷ rest) = ground (arith, lookup-on_entries k rest)

  pub pair_up-map :
      (ids : List Bytes) (xs : List A) → pair_up ids (map f xs) ≡ on_entries (pair_up ids xs)
  unfolding pair_up on_entries
  pair_up-map [] xs = refl
  pair_up-map (id ∷ ids) [] = refl
  pair_up-map (id ∷ ids) (x ∷ xs) = cc (pair_up-map ids xs)
