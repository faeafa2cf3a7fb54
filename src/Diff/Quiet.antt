-- ===== src/Diff/Quiet.antt =====
-- internal/diff/diff.go: the walks of two maps, of two arrays by id and of two arrays by place find
-- nothing when each key, id or place shows nothing.
use hooklens.Base.{
  is_some, Bool-cases, inl, inr, true, ◌&&◌, ◌||◌, ◌≡◌, ◌↔◌, refl, Option, none, some, List, [],
  ◌∷◌, map, Bytes, bytes_eq, bytes_eq_iff, bytes_key, Map, lookup, Distinct, keep, any_of, arith,
  if◌then◌else◌,
}
use hooklens.Diff.{Json, Library, sort_strings, all_keys, over, join, at_id}
use hooklens.Diff.Walk.{Visit, key_changes, walk_objects, matched_changes, walk_by_id, gone, come}
use hooklens.Diff.Keys.{
  has, has-keep, has-keys, any-key, has-all_keys, append_empty, over_empty, over-lookup,
  lookup-over,
}

module _ (lib : Library) where
  -- A key that neither side has, or one where the walk finds nothing.
  unfoldable pub Quiet : Bytes → Option Visit → Option Json → Type 0
  Quiet p none none = Unit
  Quiet p (some v) none = ⊥
  Quiet p none (some r) = ⊥
  Quiet p (some v) (some r) = v.go p r ≡ []

  key_changes-Quiet :
      (p : Bytes) (v : Option Visit) (r : Option Json)
      → ((is_some v || is_some r) ≡ true → key_changes lib p v r ≡ [])
      → Quiet p v r
  unfolding key_changes Quiet is_some
  key_changes-Quiet p none none h = tt
  key_changes-Quiet p (some v) none h = absurd (cc (h refl))
  key_changes-Quiet p none (some r) h = absurd (cc (h refl))
  key_changes-Quiet p (some v) (some r) h = h refl

  Quiet-key_changes :
      (p : Bytes) (v : Option Visit) (r : Option Json)
      → Quiet p v r
      → (is_some v || is_some r) ≡ true
      → key_changes lib p v r ≡ []
  unfolding key_changes Quiet is_some
  Quiet-key_changes p none none q h = cc h
  Quiet-key_changes p none (some r) q h = absurd q
  Quiet-key_changes p (some v) none q h = absurd q
  Quiet-key_changes p (some v) (some r) q h = q

  pub walk_objects-Quiet :
      (path : Bytes) (l : Map Bytes Visit) (r : Map Bytes Json)
      → (walk_objects lib path l r ≡ [])
        ↔ ((k : Bytes) → Quiet (join path k) (lookup k l) (lookup k r))
  unfolding walk_objects
  walk_objects-Quiet path l r =
      let at = λ (k : Bytes). key_changes lib (join path k) (lookup k l) (lookup k r) in
      let keys = sort_strings (all_keys l r) in
      (
        λ e k.
            key_changes-Quiet (join path k) (lookup k l) (lookup k r)
              λ there. (over_empty at keys).0 e k (cc (has-all_keys k l r)),
        λ g. (over_empty at keys).1 λ k here.
            Quiet-key_changes (join path k) (lookup k l) (lookup k r) (g k)
              (cc (has-all_keys k l r)),
      )

  matched_changes-Quiet :
      (p : Bytes) (v : Visit) (r : Option Json)
      → (matched_changes lib p v r ≡ []) ↔ Quiet p (some v) r
  unfolding matched_changes Quiet
  matched_changes-Quiet p v none = (λ e. cc e, λ q. absurd q)
  matched_changes-Quiet p v (some r) = (λ e. e, λ q. q)

  -- The loop over the right elements: those that no left one was matched with.
  come_part-has :
      (path : Bytes) (matched : List Bytes) (r : Map Bytes Json)
      → (over
            (λ e. if any_of (bytes_eq e.0) matched then [] else come lib (at_id path e.0) e.1 ∷ [])
            r
          ≡ [])
        ↔ ((k : Bytes) → is_some (lookup k r) ≡ true → has k matched ≡ true)
  unfolding over lookup is_some
  come_part-has path matched [] = (λ _ k h. cc h, λ _. refl)
  come_part-has path matched ((j, v) ∷ rest) =
      let later = come_part-has path matched rest in
      elim (Bool-cases (has j matched)) [
        | inl here ↦ (
          λ e k h. elim (Bool-cases (bytes_eq j k)) [
            | inl same ↦ cc ((bytes_eq_iff j k).0 same, here)
            | inr other ↦ later.0 (ground arith) k (ground arith)
          ],
          λ g. ground (arith, later.1 (λ k h. g k (ground arith))),
        )
        | inr gone ↦ (
          λ e k h. absurd (ground arith),
          λ g. absurd (ground (arith, g j (ground (arith, bytes_eq_iff j j)))),
        )
      ]

  abbrev matched : Map Bytes Visit → Map Bytes Json → List Bytes
  matched l r = keep (λ id. any_of (λ e. bytes_eq e.0 id) r) (map (λ e. e.0) l)

  has-matched :
      (k : Bytes) (l : Map Bytes Visit) (r : Map Bytes Json)
      → has k (matched l r) ≡ (is_some (lookup k r) && is_some (lookup k l))
  has-matched k l r = cc (
    has-keep k (λ id. any_of (λ e. bytes_eq e.0 id) r) (map (λ e. e.0) l),
    any-key k r,
    has-keys k l,
  )

  -- From what the two loops say of a key.
  join-Quiet :
      (p : Bytes) (v : Option Visit) (r : Option Json)
      → ((a : Visit) → v ≡ some a → matched_changes lib p a r ≡ [])
      → (is_some r ≡ true → (is_some r && is_some v) ≡ true)
      → Quiet p v r
  unfolding is_some
  join-Quiet p (some a) r left right = (matched_changes-Quiet p a r).0 (left a refl)
  join-Quiet p none none left right = key_changes-Quiet p none none λ h. cc h
  join-Quiet p none (some b) left right = absurd (cc (right refl))

  Quiet-join :
      (p : Bytes) (v : Option Visit) (r : Option Json)
      → Quiet p v r
      → is_some r ≡ true
      → (is_some r && is_some v) ≡ true
  unfolding is_some Quiet
  Quiet-join p (some a) (some b) q h = refl
  Quiet-join p none (some b) q h = absurd q
  Quiet-join p v none q h = cc h

  pub walk_by_id-Quiet :
      (path : Bytes) (l : Map Bytes Visit) (r : Map Bytes Json)
      → Distinct l
      → (walk_by_id lib path l r ≡ [])
        ↔ ((k : Bytes) → Quiet (at_id path k) (lookup k l) (lookup k r))
  unfolding walk_by_id
  walk_by_id-Quiet path l r d =
      let f = λ (e : Bytes × Visit). matched_changes lib (at_id path e.0) e.1 (lookup e.0 r) in
      let come_part = come_part-has path (matched l r) r in
      let parts = append_empty (over f l) (
        over
          (λ e.
            if any_of (bytes_eq e.0) (matched l r) then [] else come lib (at_id path e.0) e.1 ∷ [])
          r) in
      (
        λ e k.
            join-Quiet (at_id path k) (lookup k l) (lookup k r) (over-lookup f l (parts.0 e).0 k)
              (λ h. cc (has-matched k l r, come_part.0 (parts.0 e).1 k h)),
        λ g. parts.1 (
          lookup-over f l d λ k a here.
              (matched_changes-Quiet (at_id path k) a (lookup k r)).1 (rw (← here) (g k)),
          come_part.1 λ k h.
              cc (has-matched k l r, Quiet-join (at_id path k) (lookup k l) (lookup k r) (g k) h),
        ),
      )
