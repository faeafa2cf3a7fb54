-- ===== src/Diff/Complete.antt =====
-- internal/diff/diff.go: between documents that are alike the walk finds nothing, and so `Bodies`.
use hooklens.Base.{
  ℕ, ◌+◌, true, ◌≡◌, refl, Option, none, some, List, [], map, Bytes, bytes_eq_iff, bytes_key,
  lookup, arith,
}
use hooklens.Diff.{
  Json, null, boolean, number, text, array, object, Items, nil, item, Fields, end, field, Library,
  items_of, fields_of, element_ids, pair_up, join, at_id, at_index,
}
use hooklens.Diff.Walk.{
  Visit, walk, visit_items, visit_fields, walk_scalar, beside_object, beside_array, walk_arrays,
  walk_arrays_by, walk_by_index,
}
use hooklens.Diff.Alike.{
  scalar, both, Alike, scalars, objects, by_id, by_index, Agree, absent, present, Pointwise, ended,
  next,
}
use hooklens.Diff.Keys.{append_empty}
use hooklens.Diff.Quiet.{Quiet, walk_objects-Quiet, walk_by_id-Quiet}
use hooklens.Diff.Ids.{element_ids-Distinct, on_value, on_entries, lookup-on_entries, pair_up-map}
use hooklens.Diff.Sound.{values-visit_items}

module _ (lib : Library) where
  unfoldable visit : Json → Visit
  visit v = record { value = v; go = walk lib v }

  visit_items-map : (l : Items) → visit_items lib l ≡ map visit (items_of l)
  unfolding walk items_of visit
  visit_items-map nil = refl
  visit_items-map (item v rest) = cc (visit_items-map rest)

  visit_fields-on_entries : (l : Fields) → visit_fields lib l ≡ on_entries visit (fields_of l)
  unfolding walk fields_of on_entries visit
  visit_fields-on_entries end = refl
  visit_fields-on_entries (field k v rest) = cc (visit_fields-on_entries rest)

  lookup-visit_fields :
      (k : Bytes) (l : Fields)
      → lookup k (visit_fields lib l) ≡ on_value visit (lookup k (fields_of l))
  lookup-visit_fields k l = rw (visit_fields-on_entries l) (lookup-on_entries visit k (fields_of l))

  lookup-visit_items :
      (k : Bytes) (ids : List Bytes) (l : Items)
      → lookup k (pair_up ids (visit_items lib l))
        ≡ on_value visit (lookup k (pair_up ids (items_of l)))
  lookup-visit_items k ids l =
      rw (visit_items-map l, pair_up-map visit ids (items_of l))
        (lookup-on_entries visit k (pair_up ids (items_of l)))

  walk-scalar :
      (path : Bytes) (l r : Json)
      → scalar l ≡ true
      → lib.encode l ≡ lib.encode r
      → walk lib l path r ≡ []
  unfolding walk walk_scalar scalar
  walk-scalar path null r is e = ground (arith, bytes_eq_iff (lib.encode null) (lib.encode r))
  walk-scalar path (boolean b) r is e =
      ground (arith, bytes_eq_iff (lib.encode (boolean b)) (lib.encode r))
  walk-scalar path (number s) r is e =
      ground (arith, bytes_eq_iff (lib.encode (number s)) (lib.encode r))
  walk-scalar path (text s) r is e =
      ground (arith, bytes_eq_iff (lib.encode (text s)) (lib.encode r))
  walk-scalar path (array l) r is e = cc is
  walk-scalar path (object l) r is e = cc is

  walk_arrays-by_id :
      (path : Bytes) (l r : Items) (a b : Option (List Bytes)) (l_ids r_ids : List Bytes)
      → element_ids (items_of l) ≡ a
      → both a b ≡ some (l_ids, r_ids)
      → ((k p : Bytes)
          → Quiet lib p
              (lookup k (pair_up l_ids (visit_items lib l)))
              (lookup k (pair_up r_ids (items_of r))))
      → walk_arrays_by lib path (visit_items lib l) (items_of r) a b ≡ []
  unfolding walk_arrays_by both
  walk_arrays-by_id path l r (some ids) (some others) l_ids r_ids el e q =
      let same : ids ≡ l_ids = ground arith in
      let alike : others ≡ r_ids = ground arith in
      (walk_by_id-Quiet lib path (pair_up ids (visit_items lib l)) (pair_up others (items_of r))
          (element_ids-Distinct (items_of l) ids (visit_items lib l) el)).1
        λ k. rw (same, alike) (q k (at_id path k))
  walk_arrays-by_id path l r (some ids) none l_ids r_ids el e q = cc e
  walk_arrays-by_id path l r none b l_ids r_ids el e q = cc e

  walk_arrays-by_index :
      (path : Bytes) (vs : List Visit) (rs : List Json) (a b : Option (List Bytes))
      → both a b ≡ none
      → walk_by_index lib path 0 vs rs ≡ []
      → walk_arrays_by lib path vs rs a b ≡ []
  unfolding walk_arrays_by both
  walk_arrays-by_index path vs rs (some ids) (some others) e h = cc e
  walk_arrays-by_index path vs rs (some ids) none e h = h
  walk_arrays-by_index path vs rs none b e h = h

  mutual
    unfolding walk beside_object beside_array walk_arrays walk_by_index Quiet on_value visit

    pub Alike-walk : {l r : Json} → Alike lib l r → (path : Bytes) → walk lib l path r ≡ []
    Alike-walk (scalars l r is e) path = walk-scalar path l r is e
    Alike-walk (objects l r agree) path =
        (walk_objects-Quiet lib path (visit_fields lib l) (fields_of r)).1
          λ k. rw (lookup-visit_fields k l) (Agree-Quiet (agree k) (join path k))
    Alike-walk (by_id l r l_ids r_ids e agree) path = rw (values-visit_items lib l) (
        walk_arrays-by_id path l r (element_ids (items_of l)) (element_ids (items_of r)) l_ids r_ids
          refl e λ k p. rw (lookup-visit_items k l_ids l) (Agree-Quiet (agree k) p))
    Alike-walk (by_index l r e alike) path = rw (values-visit_items lib l) (
        walk_arrays-by_index path (visit_items lib l) (items_of r) (element_ids (items_of l))
          (element_ids (items_of r)) e (rw (visit_items-map l) (Pointwise-walk alike path 0)))

    Agree-Quiet :
        {l r : Option Json} → Agree lib l r → (p : Bytes) → Quiet lib p (on_value visit l) r
    Agree-Quiet absent p = tt
    Agree-Quiet (present l r alike) p = Alike-walk alike p

    Pointwise-walk :
        {ls rs : List Json}
        → Pointwise lib ls rs
        → (path : Bytes) (i : ℕ) → walk_by_index lib path i (map visit ls) rs ≡ []
    Pointwise-walk ended path i = refl
    Pointwise-walk (next l r ls rs alike rest) path i =
        (append_empty (walk lib l (at_index path i) r)
            (walk_by_index lib path (i + 1) (map visit ls) rs)).1
          (Alike-walk alike (at_index path i), Pointwise-walk rest path (i + 1))
