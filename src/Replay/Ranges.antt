-- ===== src/Replay/Ranges.antt =====
-- internal/replay/safedial.go: prefixes as ranges, and the switch of `blocked` as a disjunction.
use hooklens.Base.{
  is_some, ℕ, suc, ◌+◌, ◌*◌, ◌-◌, ◌/◌, ◌%◌, ◌≤◌, ◌<◌, ◌≡◌, refl, ap, Bool, true, false, not, ◌&&◌,
  ◌||◌, Option, some, List, [], ◌∷◌, ◌==◌, leb, any_of, arith, if◌then◌else◌,
}
use native.Mathlib.Nat.{mul-le-mul_right, div-add-mod', mod-lt}
use hooklens.Replay.Addresses.{
  loopback, link_local, private_range, unspecified, multicast, not_global, Addr, leads, Prefix,
  contains, Reason, first_containing,
}

unfoldable pub within : ℕ → ℕ × ℕ → Bool
within n r = leb r.0 n && leb n r.1

mul-le-mul_right_suc : (size a b : ℕ) → a < b → a * size + size ≤ b * size
mul-le-mul_right_suc size a b h =
    let next : suc a * size ≤ b * size = mul-le-mul_right size h in grind (arith, next)

-- A number by its quotient and its remainder.
quotient-within :
    (size bits q r n : ℕ)
    → q * size + r ≡ n
    → r < size
    → (q == bits) ≡ within n (bits * size, bits * size + (size - 1))
unfolding within
quotient-within size bits q r n e small =
    let below : q < bits → q * size + size ≤ bits * size =
      λ h. mul-le-mul_right_suc size q bits h in
    let above : bits < q → bits * size + size ≤ q * size =
      λ h. mul-le-mul_right_suc size bits q h in
    let equal : q ≡ bits → q * size ≡ bits * size = λ h. ap (λ k. k * size) h in
    ground (arith, below, above, equal)

pub leads-within :
    (size bits n : ℕ)
    → 0 < size
    → leads size bits n ≡ within n (bits * size, bits * size + (size - 1))
unfolding leads
leads-within size bits n h =
    quotient-within size bits (n / size) (n % size) n (div-add-mod' n size) (mod-lt n h)

pub eq-within : (n k : ℕ) → (n == k) ≡ within n (k, k)
unfolding within
eq-within n k = ground arith

-- The switch, as a disjunction.
abbrev pub chosen : Bool → Bool → Bool → Bool → Bool → Bool → Bool → Option Reason → Option Reason
chosen l m n p u c b x =
    if l
    then some loopback
    else if m || n
    then some link_local
    else if p
    then some private_range
    else if u
    then some unspecified
    else if c
    then some multicast
    else if b
    then some not_global
    else x

pub chosen-any :
    (l m n p u c b : Bool) (x : Option Reason)
    → is_some (chosen l m n p u c b x) ≡ (l || m || n || p || u || c || b || is_some x)
unfolding is_some
chosen-any true m n p u c b x = refl
chosen-any false true n p u c b x = refl
chosen-any false false true p u c b x = refl
chosen-any false false false true u c b x = refl
chosen-any false false false false true c b x = refl
chosen-any false false false false false true b x = refl
chosen-any false false false false false false true x = refl
chosen-any false false false false false false false x = refl

pub first_containing-any :
    (ps : List Prefix) (a : Addr) → is_some (first_containing ps a) ≡ any_of (λ p. contains p a) ps
unfolding first_containing is_some
first_containing-any [] a = refl
first_containing-any (p ∷ rest) a = ground (arith, first_containing-any rest a)

-- The tests of the switch in another order, where the narrow ones imply wider ones.
pub reordered :
    (l m n p₁ p₂ p₃ u c b x₁ x₂ x₃ x₄ x₅ x₆ : Bool)
    → (n ≡ true → c ≡ true)
    → (u ≡ true → x₆ ≡ true)
    → (l
        || m
        || n
        || (p₁ || p₂ || p₃)
        || u
        || (c || false)
        || not (not (u || b) && not l && not c && not m)
        || (x₁ || (x₂ || (x₃ || (x₄ || (x₅ || (x₆ || (false))))))))
      ≡ (x₆
          || (p₁
              || (x₁
                  || (l
                      || (m
                          || (p₂
                              || (x₂ || (p₃ || (x₅ || (x₃ || (x₄ || (c || (b || (false))))))))))))))
reordered l m n p₁ p₂ p₃ u c b x₁ x₂ x₃ x₄ x₅ x₆ nc ux = ground (arith, nc, ux)

pub reordered6 :
    (l m n p u c j z x : Bool)
    → (l
        || m
        || (c && n)
        || p
        || (u && z)
        || (c || (c && j))
        || not (not ((u && z) || false) && not l && not c && not m)
        || ((x && z) || false))
      ≡ ((l || (p || (m || (c || false)))) || ((u || x) && z))
reordered6 l m n p u c j z x = ground arith

-- The mapped range is as large as IPv4, so a number's remainder is its place in the range.
pub place_in : (size bits n : ℕ) → 0 < size → leads size bits n ≡ true → n % size ≡ n - bits * size
unfolding leads
place_in size bits n h e =
    let whole = div-add-mod' n size in
    let quotient : n / size ≡ bits = ground arith in
    let scaled : n / size * size ≡ bits * size = ap (λ k. k * size) quotient in
    omega (arith, whole, scaled)
