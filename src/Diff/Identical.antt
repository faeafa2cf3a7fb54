-- ===== src/Diff/Identical.antt =====
-- internal/diff/diff.go: `Bodies` says identical exactly of bodies that are.
use hooklens.Base.{
  true, false, ◌≡◌, ◌↔◌, refl, Option, none, some, List, [], ◌∷◌, Bytes, bytes_eq_iff, arith,
}
use hooklens.Diff.{Json, Library, Change}
use hooklens.Diff.Walk.{walk, insert_change, sort_changes, decode, compared, bodies}
use hooklens.Diff.Alike.{SameBody}
use hooklens.Diff.Sound.{walk-Alike}
use hooklens.Diff.Complete.{Alike-walk}

insert_change-some : (c : Change) (cs : List Change) → insert_change c cs ≡ [] → ⊥
unfolding insert_change
insert_change-some c [] e = cc e
insert_change-some c (d ∷ rest) e = ground arith

sort_changes-empty : (cs : List Change) → (sort_changes cs ≡ []) ↔ (cs ≡ [])
unfolding sort_changes
sort_changes-empty [] = (λ e. refl, λ e. refl)
sort_changes-empty (c ∷ cs) =
    (λ e. absurd (insert_change-some c (sort_changes cs) e), λ e. absurd (cc e))

none_left : (cs : List Change) → (elim cs [ [] ↦ true | c ∷ rest ↦ false ]) ≡ true → cs ≡ []
none_left [] e = refl
none_left (c ∷ rest) e = cc e

none_right : (cs : List Change) → cs ≡ [] → (elim cs [ [] ↦ true | c ∷ rest ↦ false ]) ≡ true
none_right [] e = refl
none_right (c ∷ rest) e = cc e

module _ (lib : Library) where
  compared-SameBody :
      (left right : Bytes) (l r : Option Json)
      → ((compared lib left right l r).identical ≡ true) ↔ SameBody lib left right l r
  unfolding compared SameBody
  compared-SameBody left right (some l) (some r) = (
    λ e.
        walk-Alike lib l [] r
          ((sort_changes-empty (walk lib l [] r)).0 (none_left (sort_changes (walk lib l [] r)) e)),
    λ alike.
        none_right (sort_changes (walk lib l [] r))
          ((sort_changes-empty (walk lib l [] r)).1 (Alike-walk lib alike [])),
  )
  compared-SameBody left right none r = ground (arith, bytes_eq_iff left right)
  compared-SameBody left right (some l) none = ground (arith, bytes_eq_iff left right)

  -- Whatever the JSON library does with them, two bodies are said to be identical if and only if their
  -- documents are alike (objects by their keys, arrays by the ids of their elements where all of both
  -- have some, and else by place, and scalars by their encoding), or, where one of the bodies is no
  -- document, the bodies are the same bytes.
  pub bodies-SameBody :
      (left right : Bytes)
      → ((bodies lib left right).identical ≡ true)
        ↔ SameBody lib left right (decode lib left) (decode lib right)
  unfolding bodies
  bodies-SameBody left right = compared-SameBody left right (decode lib left) (decode lib right)
