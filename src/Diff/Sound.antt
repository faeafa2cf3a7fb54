-- ===== src/Diff/Sound.antt =====
-- internal/diff/diff.go: documents between which the walk finds nothing are alike.
use hooklens.Base.{
  ℕ, ◌+◌, Bool-cases, inl, inr, true, ◌≡◌, refl, Option, none, some, List, [], ◌∷◌, map, Bytes,
  bytes_eq, bytes_eq_iff, bytes_key, lookup, arith,
}
use hooklens.Diff.{
  Json, null, boolean, number, text, array, object, Items, nil, item, Fields, end, field, Library,
  items_of, fields_of, element_ids, pair_up, join, at_id, at_index,
}
use hooklens.Diff.Walk.{
  walk, visit_items, visit_fields, walk_scalar, beside_object, beside_array, walk_arrays,
  walk_arrays_by, walk_by_index,
}
use hooklens.Diff.Alike.{
  scalar, both, Alike, scalars, objects, by_id, by_index, Agree, absent, present, Pointwise, ended,
  next,
}
use hooklens.Diff.Keys.{append_empty}
use hooklens.Diff.Quiet.{Quiet, walk_objects-Quiet, walk_by_id-Quiet}
use hooklens.Diff.Ids.{element_ids-Distinct}

module _ (lib : Library) where
  walk_scalar-Alike :
      (path : Bytes) (l r : Json) → scalar l ≡ true → walk_scalar lib path l r ≡ [] → Alike lib l r
  unfolding walk_scalar
  walk_scalar-Alike path l r is e =
      scalars l r is (ground (arith, bytes_eq_iff (lib.encode l) (lib.encode r)))

  pub values-visit_items : (l : Items) → map (λ v. v.value) (visit_items lib l) ≡ items_of l
  unfolding walk items_of
  values-visit_items nil = refl
  values-visit_items (item v rest) = cc (values-visit_items rest)

  -- A key where the walk finds nothing.
  key_Agree :
      (l : Json) (p : Bytes) (o : Option Json)
      → ((r : Json) → walk lib l p r ≡ [] → Alike lib l r)
      → Quiet lib p (some (record { value = l; go = walk lib l })) o
      → Agree lib (some l) o
  unfolding Quiet
  key_Agree l p none sound q = absurd q
  key_Agree l p (some r) sound q = present l r (sound r q)

  none_Agree : (p : Bytes) (o : Option Json) → Quiet lib p none o → Agree lib none o
  unfolding Quiet
  none_Agree p none q = absent
  none_Agree p (some r) q = absurd q

  arrays-Alike :
      (path : Bytes) (l r : Items) (l_ids r_ids : Option (List Bytes))
      → element_ids (items_of l) ≡ l_ids
      → element_ids (items_of r) ≡ r_ids
      → ((ids : List Bytes) (k p : Bytes) (o : Option Json)
          → Quiet lib p (lookup k (pair_up ids (visit_items lib l))) o
          → Agree lib (lookup k (pair_up ids (items_of l))) o)
      → ((rs : List Json)
          → walk_by_index lib path 0 (visit_items lib l) rs ≡ []
          → Pointwise lib (items_of l) rs)
      → walk_arrays_by lib path (visit_items lib l) (items_of r) l_ids r_ids ≡ []
      → Alike lib (array l) (array r)
  unfolding walk_arrays_by both
  arrays-Alike path l r (some ids) (some others) el er at place e =
      by_id l r ids others (cc (el, er)) λ k.
        at ids k (at_id path k) (lookup k (pair_up others (items_of r))) (
          (walk_by_id-Quiet lib path (pair_up ids (visit_items lib l)) (pair_up others (items_of r))
              (element_ids-Distinct (items_of l) ids (visit_items lib l) el)).0
            e k)
  arrays-Alike path l r (some ids) none el er at place e =
      by_index l r (cc (el, er)) (place (items_of r) e)
  arrays-Alike path l r none o el er at place e = by_index l r (cc el) (place (items_of r) e)

  mutual
    unfolding walk items_of fields_of scalar beside_object beside_array walk_arrays walk_by_index
        pair_up lookup

    pub walk-Alike : (l : Json) (path : Bytes) (r : Json) → walk lib l path r ≡ [] → Alike lib l r
    walk-Alike null path r e = walk_scalar-Alike path null r refl e
    walk-Alike (boolean b) path r e = walk_scalar-Alike path (boolean b) r refl e
    walk-Alike (number s) path r e = walk_scalar-Alike path (number s) r refl e
    walk-Alike (text s) path r e = walk_scalar-Alike path (text s) r refl e
    walk-Alike (array l) path (array r) e =
        arrays-Alike path l r (element_ids (items_of l)) (element_ids (items_of r)) refl refl
          (items-Agree l) (λ rs. items-Pointwise l path 0 rs) (rw (values-visit_items l) at e)
    walk-Alike (array l) path (object r) e = cc e
    walk-Alike (array l) path null e = cc e
    walk-Alike (array l) path (boolean b) e = cc e
    walk-Alike (array l) path (number s) e = cc e
    walk-Alike (array l) path (text s) e = cc e
    walk-Alike (object l) path (object r) e = objects l r λ k.
        fields-Agree l k (join path k) (lookup k (fields_of r))
          ((walk_objects-Quiet lib path (visit_fields lib l) (fields_of r)).0 e k)
    walk-Alike (object l) path (array r) e = cc e
    walk-Alike (object l) path null e = cc e
    walk-Alike (object l) path (boolean b) e = cc e
    walk-Alike (object l) path (number s) e = cc e
    walk-Alike (object l) path (text s) e = cc e

    items-Agree :
        (l : Items) (ids : List Bytes) (k p : Bytes) (o : Option Json)
        → Quiet lib p (lookup k (pair_up ids (visit_items lib l))) o
        → Agree lib (lookup k (pair_up ids (items_of l))) o
    items-Agree nil [] k p o q = none_Agree p o q
    items-Agree nil (id ∷ ids) k p o q = none_Agree p o q
    items-Agree (item v rest) [] k p o q = none_Agree p o q
    items-Agree (item v rest) (id ∷ ids) k p o q = elim (Bool-cases (bytes_eq id k)) [
      | inl same ↦ rw same (key_Agree v p o (λ r. walk-Alike v p r) (rw same at q))
      | inr other ↦ rw other (items-Agree rest ids k p o (rw other at q))
    ]

    items-Pointwise :
        (l : Items) (path : Bytes) (i : ℕ) (rs : List Json)
        → walk_by_index lib path i (visit_items lib l) rs ≡ []
        → Pointwise lib (items_of l) rs
    items-Pointwise nil path i [] e = ended
    items-Pointwise nil path i (r ∷ rs) e = cc e
    items-Pointwise (item v rest) path i [] e = cc e
    items-Pointwise (item v rest) path i (r ∷ rs) e =
        let parts =
          (append_empty (walk lib v (at_index path i) r)
              (walk_by_index lib path (i + 1) (visit_items lib rest) rs)).0
            e in
        next v r (items_of rest) rs (walk-Alike v (at_index path i) r parts.0)
          (items-Pointwise rest path (i + 1) rs parts.1)

    fields-Agree :
        (l : Fields) (k p : Bytes) (o : Option Json)
        → Quiet lib p (lookup k (visit_fields lib l)) o
        → Agree lib (lookup k (fields_of l)) o
    fields-Agree end k p o q = none_Agree p o q
    fields-Agree (field j v rest) k p o q = elim (Bool-cases (bytes_eq j k)) [
      | inl same ↦ rw same (key_Agree v p o (λ r. walk-Alike v p r) (rw same at q))
      | inr other ↦ rw other (fields-Agree rest k p o (rw other at q))
    ]
