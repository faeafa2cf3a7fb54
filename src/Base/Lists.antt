-- ===== src/Base/Lists.antt =====
-- Lists measured by native numbers, under the library's names, and predicates over lists.
use Prim.Native.Nat.{ℕ, zero, suc, ◌+◌, ◌≤◌, min}
use mathlib.Core.Path.{◌≡◌, refl, ap}
use mathlib.Core.Bool.{Bool, true, false, ◌&&◌, ◌||◌}
use mathlib.Core.List.{List, [], ◌∷◌, ◌++◌}
use mathlib.Core.Option.{Option, none, some}
use native.Mathlib.Omega.{arith}
use hooklens.Base.Tests.{if◌then◌else◌, ◌==◌}

module _ {ℓ} {A : Type ℓ} where
  abbrev pub length : List A → ℕ
  length [] = 0
  length (x ∷ xs) = suc (length xs)

  abbrev pub take : ℕ → List A → List A
  take zero xs = []
  take (suc n) [] = []
  take (suc n) (x ∷ xs) = x ∷ take n xs

  abbrev pub drop : ℕ → List A → List A
  drop zero xs = xs
  drop (suc n) [] = []
  drop (suc n) (x ∷ xs) = drop n xs

  -- Go's `for range` with a test, as a fresh list of what passes.
  abbrev pub keep : (A → Bool) → List A → List A
  keep p [] = []
  keep p (x ∷ xs) = if p x then x ∷ keep p xs else keep p xs

  abbrev pub any_of : (A → Bool) → List A → Bool
  any_of p [] = false
  any_of p (x ∷ xs) = p x || any_of p xs

  abbrev pub all_of : (A → Bool) → List A → Bool
  all_of p [] = true
  all_of p (x ∷ xs) = p x && all_of p xs

  pub length-append : (xs ys : List A) → length (xs ++ ys) ≡ length xs + length ys
  length-append [] ys = omega arith
  length-append (x ∷ xs) ys = omega (arith, length-append xs ys)

  pub take-append-drop : (n : ℕ) (xs : List A) → take n xs ++ drop n xs ≡ xs
  take-append-drop zero xs = refl
  take-append-drop (suc n) [] = refl
  take-append-drop (suc n) (x ∷ xs) = ap (◌∷◌ x) (take-append-drop n xs)

  pub length-take : (n : ℕ) (xs : List A) → length (take n xs) ≡ min n (length xs)
  length-take zero xs = omega arith
  length-take (suc n) [] = omega arith
  length-take (suc n) (x ∷ xs) = omega (arith, length-take n xs)

  -- To take as many as there are, or more, is to take all.
  pub take_of_length-le : (count : ℕ) (list : List A) → length list ≤ count → take count list ≡ list
  take_of_length-le zero [] _ = refl
  take_of_length-le (suc count) [] _ = refl
  take_of_length-le zero (a ∷ list) fits = absurd (omega (arith, fits))
  take_of_length-le (suc count) (a ∷ list) fits =
      cc (take_of_length-le count list (omega (arith, fits)))

  pub length-keep-le : (p : A → Bool) (xs : List A) → length (keep p xs) ≤ length xs
  length-keep-le p [] = omega arith
  length-keep-le p (x ∷ xs) = ground (arith, length-keep-le p xs)

module _ {ℓ κ} {A : Type ℓ} (P : A → Type κ) where
  abbrev pub All : List A → Type κ
  All [] = Unit
  All (x ∷ xs) = P x × All xs

  pub All-append : (xs ys : List A) → All xs → All ys → All (xs ++ ys)
  All-append [] ys hx hy = hy
  All-append (x ∷ xs) ys hx hy = (hx.0, All-append xs ys hx.1 hy)

  pub All-keep : (p : A → Bool) (xs : List A) → All xs → All (keep p xs)
  All-keep p [] h = tt
  All-keep p (x ∷ xs) h = ground (arith, All-keep p xs)

module _ {ℓ} {A : Type ℓ} where
  unfoldable pub get_elem? : List A → ℕ → Option A
  get_elem? [] i = none
  get_elem? (x ∷ xs) zero = some x
  get_elem? (x ∷ xs) (suc i) = get_elem? xs i

  -- A write out of bounds changes nothing.
  unfoldable pub set : List A → ℕ → A → List A
  set [] i v = []
  set (x ∷ xs) zero v = v ∷ xs
  set (x ∷ xs) (suc i) v = x ∷ set xs i v

  pub get_elem?-set :
      (xs : List A) (i j : ℕ) (v x : A)
      → get_elem? xs i ≡ some x
      → get_elem? (set xs i v) j ≡ (if i == j then some v else get_elem? xs j)
  unfolding get_elem? set
  get_elem?-set [] i j v x h = cc
  get_elem?-set (y ∷ xs) zero zero v x h = refl
  get_elem?-set (y ∷ xs) zero (suc j) v x h = ground arith
  get_elem?-set (y ∷ xs) (suc i) zero v x h = ground arith
  get_elem?-set (y ∷ xs) (suc i) (suc j) v x h = ground (arith, get_elem?-set xs i j v x h)

  -- The sum of a weight over a list, and how one write changes it.
  unfoldable pub weigh : (A → ℕ) → List A → ℕ
  weigh w [] = 0
  weigh w (x ∷ xs) = w x + weigh w xs

  pub weigh-set :
      (w : A → ℕ) (xs : List A) (i : ℕ) (v x : A)
      → get_elem? xs i ≡ some x
      → weigh w (set xs i v) + w x ≡ weigh w xs + w v
  unfolding get_elem? set weigh
  weigh-set w [] i v x h = cc
  weigh-set w (y ∷ xs) zero v x h = ground arith
  weigh-set w (y ∷ xs) (suc i) v x h = ground (arith, weigh-set w xs i v x h)

  unfoldable pub replicate : ℕ → A → List A
  replicate zero x = []
  replicate (suc n) x = x ∷ replicate n x

  pub get_elem?-replicate : (n i : ℕ) (x y : A) → get_elem? (replicate n x) i ≡ some y → y ≡ x
  unfolding get_elem? replicate
  get_elem?-replicate zero i x y h = cc
  get_elem?-replicate (suc n) zero x y h = cc
  get_elem?-replicate (suc n) (suc i) x y h = get_elem?-replicate n i x y h

  pub weigh-replicate : (w : A → ℕ) (n : ℕ) (x : A) → w x ≡ 0 → weigh w (replicate n x) ≡ 0
  unfolding weigh replicate
  weigh-replicate w zero x h = refl
  weigh-replicate w (suc n) x h = ground (arith, weigh-replicate w n x h)

  -- What holds of every element holds at an index.
  pub all_of-get_elem? :
      (p : A → Bool) (xs : List A) (i : ℕ) (x : A)
      → all_of p xs ≡ true
      → get_elem? xs i ≡ some x
      → p x ≡ true
  unfolding get_elem?
  all_of-get_elem? p [] i x h e = cc
  all_of-get_elem? p (y ∷ xs) zero x h e = ground arith
  all_of-get_elem? p (y ∷ xs) (suc i) x h e = all_of-get_elem? p xs i x (ground arith) e

  pub weigh_of_all :
      (w : A → ℕ) (p : A → Bool)
      → ((x : A) → p x ≡ true → w x ≡ 0)
      → (xs : List A) → all_of p xs ≡ true
      → weigh w xs ≡ 0
  unfolding weigh
  weigh_of_all w p zero_at [] h = refl
  weigh_of_all w p zero_at (x ∷ xs) h = ground (arith, zero_at x, weigh_of_all w p zero_at xs)

  pub weigh-get_elem?-le :
      (w : A → ℕ) (xs : List A) (i : ℕ) (x : A) → get_elem? xs i ≡ some x → w x ≤ weigh w xs
  unfolding get_elem? weigh
  weigh-get_elem?-le w [] i x h = cc
  weigh-get_elem?-le w (y ∷ xs) zero x h = ground arith
  weigh-get_elem?-le w (y ∷ xs) (suc i) x h = ground (arith, weigh-get_elem?-le w xs i x h)
