-- ===== src/Diff/Walk.antt =====
-- internal/diff/diff.go: `walk` and what it calls, and `Bodies`.
use hooklens.Base.{
  ℕ, ◌+◌, true, false, Option, none, some, List, [], ◌∷◌, ◌++◌, map, Bytes, codes, bytes_eq,
  bytes_key, Map, lookup, keep, any_of, if◌then◌else◌,
}
use hooklens.Capture.{bytes_less}
use hooklens.Diff.{
  Json, null, boolean, number, text, array, object, Items, nil, item, Fields, end, field, Library,
  Change, Result, added, removed, changed, items_of, fields_of, sort_strings, all_keys, over, join,
  at_index, at_id, element_ids, pair_up,
}

-- A part of the left document: its value, and the walk of it beside a value at a path.
pub record Visit : Type 0 where
  pub value : Json
  pub go : Bytes → Json → List Change

-- `sortChanges`, which is stable.
unfoldable pub insert_change : Change → List Change → List Change
insert_change c [] = c ∷ []
insert_change c (d ∷ rest) =
    let later = insert_change c rest in if bytes_less d.path c.path then d ∷ later else c ∷ d ∷ rest

unfoldable pub sort_changes : List Change → List Change
sort_changes [] = []
sort_changes (c ∷ rest) = insert_change c (sort_changes rest)

module _ (lib : Library) where
  abbrev pub change : Bytes → Json → Json → Change
  change path l r = record { path = path; op = changed; old = lib.encode l; new = lib.encode r }

  abbrev pub gone : Bytes → Json → Change
  gone path l = record { path = path; op = removed; old = lib.encode l; new = [] }

  abbrev pub come : Bytes → Json → Change
  come path r = record { path = path; op = added; old = []; new = lib.encode r }

  -- One key of either map. An absent value is the nil that a Go map gives, which is null.
  unfoldable pub key_changes : Bytes → Option Visit → Option Json → List Change
  key_changes p none none = gone p null ∷ []
  key_changes p (some v) none = gone p v.value ∷ []
  key_changes p none (some r) = come p r ∷ []
  key_changes p (some v) (some r) = v.go p r

  unfoldable pub walk_objects : Bytes → Map Bytes Visit → Map Bytes Json → List Change
  walk_objects path l r =
      over (λ k. key_changes (join path k) (lookup k l) (lookup k r)) (sort_strings (all_keys l r))

  unfoldable pub walk_by_index : Bytes → ℕ → List Visit → List Json → List Change
  walk_by_index path i [] [] = []
  walk_by_index path i (v ∷ l) [] = gone (at_index path i) v.value ∷ walk_by_index path (i + 1) l []
  walk_by_index path i [] (r ∷ rs) = come (at_index path i) r ∷ walk_by_index path (i + 1) [] rs
  walk_by_index path i (v ∷ l) (r ∷ rs) =
      v.go (at_index path i) r ++ walk_by_index path (i + 1) l rs

  -- One element of the left array, with the element of its id on the right.
  unfoldable pub matched_changes : Bytes → Visit → Option Json → List Change
  matched_changes p v none = gone p v.value ∷ []
  matched_changes p v (some r) = v.go p r

  unfoldable pub walk_by_id : Bytes → Map Bytes Visit → Map Bytes Json → List Change
  walk_by_id path l r =
      let matched = keep (λ id. any_of (λ e. bytes_eq e.0 id) r) (map (λ e. e.0) l) in
      over (λ e. matched_changes (at_id path e.0) e.1 (lookup e.0 r)) l
      ++ over (λ e. if any_of (bytes_eq e.0) matched then [] else come (at_id path e.0) e.1 ∷ []) r

  unfoldable pub walk_arrays_by :
      Bytes → List Visit → List Json → Option (List Bytes) → Option (List Bytes) → List Change
  walk_arrays_by path l r (some l_ids) (some r_ids) =
      walk_by_id path (pair_up l_ids l) (pair_up r_ids r)
  walk_arrays_by path l r _ _ = walk_by_index path 0 l r

  unfoldable pub walk_arrays : Bytes → List Visit → List Json → List Change
  walk_arrays path l r =
      walk_arrays_by path l r (element_ids (map (λ v. v.value) l)) (element_ids r)

  unfoldable pub walk_scalar : Bytes → Json → Json → List Change
  walk_scalar path l r = if bytes_eq (lib.encode l) (lib.encode r) then [] else change path l r ∷ []

  -- An object beside what is none, and an array so.
  unfoldable pub beside_object : Bytes → Json → Map Bytes Visit → Json → List Change
  beside_object path l visits (object r) = walk_objects path visits (fields_of r)
  beside_object path l visits r = change path l r ∷ []

  unfoldable pub beside_array : Bytes → Json → List Visit → Json → List Change
  beside_array path l visits (array r) = walk_arrays path visits (items_of r)
  beside_array path l visits r = change path l r ∷ []

  unfoldable mutual
    pub walk : Json → Bytes → Json → List Change
    walk null path r = walk_scalar path null r
    walk (boolean b) path r = walk_scalar path (boolean b) r
    walk (number s) path r = walk_scalar path (number s) r
    walk (text s) path r = walk_scalar path (text s) r
    walk (array l) path r = beside_array path (array l) (visit_items l) r
    walk (object l) path r = beside_object path (object l) (visit_fields l) r

    pub visit_items : Items → List Visit
    visit_items nil = []
    visit_items (item v rest) = (record { value = v; go = walk v }) ∷ visit_items rest

    pub visit_fields : Fields → Map Bytes Visit
    visit_fields end = []
    visit_fields (field k v rest) = (k, record { value = v; go = walk v }) ∷ visit_fields rest

  -- An empty body is no document, and neither is one with more behind its value.
  unfoldable pub decode : Bytes → Option Json
  decode [] = none
  decode (c ∷ s) = elim (lib.parse (c ∷ s)) [
    | none ↦ none
    | some (v, more) ↦ if more then none else some v
  ]

  abbrev pub not_json : Bytes
  not_json = codes "not JSON; compared as bytes"

  unfoldable pub compared : Bytes → Bytes → Option Json → Option Json → Result
  compared left right (some l) (some r) =
      let changes = sort_changes (walk l [] r) in
      record {
        changes = changes;
        identical = (elim changes [ [] ↦ true | c ∷ cs ↦ false ]);
        note = [];
      }
  compared left right _ _ =
      if bytes_eq left right
      then record { changes = []; identical = true; note = not_json }
      else record {
        changes = (record { path = codes "(body)"; op = changed; old = left; new = right }) ∷ [];
        identical = false;
        note = not_json;
      }

  unfoldable pub bodies : Bytes → Bytes → Result
  bodies left right = compared left right (decode left) (decode right)
