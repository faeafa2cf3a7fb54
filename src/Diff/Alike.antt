-- ===== src/Diff/Alike.antt =====
-- internal/diff/diff.go: when two documents are alike, told without paths, orders or a walk.
use hooklens.Base.{
  Bool, true, false, ◌≡◌, Option, none, some, List, [], ◌∷◌, Bytes, bytes_key, lookup,
}
use hooklens.Diff.{
  Json, array, object, Items, Fields, Library, items_of, fields_of, element_ids, pair_up,
}

unfoldable pub scalar : Json → Bool
scalar (array items) = false
scalar (object fields) = false
scalar _ = true

-- What the elements are matched by: ids, if both arrays have them.
unfoldable pub both {ℓ} : {A : Type ℓ} → Option A → Option A → Option (A × A)
both (some a) (some b) = some (a, b)
both _ _ = none

module _ (lib : Library) where
  mutual
    -- A scalar and what has its encoding; objects that agree at every key; arrays that agree at every id, where
    -- all elements of both have ids, in whatever order; and else arrays that agree at every place.
    pub data Alike : Json → Json → Type 0 where
      scalars : (l r : Json) → scalar l ≡ true → lib.encode l ≡ lib.encode r → Alike l r
      objects :
          (l r : Fields)
          → ((k : Bytes) → Agree (lookup k (fields_of l)) (lookup k (fields_of r)))
          → Alike (object l) (object r)
      by_id :
          (l r : Items) (l_ids r_ids : List Bytes)
          → both (element_ids (items_of l)) (element_ids (items_of r)) ≡ some (l_ids, r_ids)
          → ((id : Bytes)
              → Agree
                  (lookup id (pair_up l_ids (items_of l)))
                  (lookup id (pair_up r_ids (items_of r))))
          → Alike (array l) (array r)
      by_index :
          (l r : Items)
          → both (element_ids (items_of l)) (element_ids (items_of r)) ≡ none
          → Pointwise (items_of l) (items_of r)
          → Alike (array l) (array r)

    -- Absent on both sides, or alike.
    pub data Agree : Option Json → Option Json → Type 0 where
      absent : Agree none none
      present : (l r : Json) → Alike l r → Agree (some l) (some r)

    pub data Pointwise : List Json → List Json → Type 0 where
      ended : Pointwise [] []
      next :
          (l r : Json) (ls rs : List Json)
          → Alike l r
          → Pointwise ls rs
          → Pointwise (l ∷ ls) (r ∷ rs)

-- What `Bodies` is to find: documents that are alike, or where a side is none the same bytes.
unfoldable pub SameBody : Library → Bytes → Bytes → Option Json → Option Json → Type 0
SameBody lib left right (some l) (some r) = Alike lib l r
SameBody lib left right none _ = left ≡ right
SameBody lib left right (some l) none = left ≡ right
