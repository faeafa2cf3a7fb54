-- ===== src/Server/Events/Lines.antt =====
-- internal/server/sse.go: the lines of the stream, and what the reader makes of each kind.
use hooklens.Base.{
  split, onto_first, split-append, ℕ, ◌≡◌, ◌∙◌, refl, sym, ap, Bool, true, false, not, List, [],
  ◌∷◌, ◌++◌, Bytes, codes, cut_prefix, all_of, ◌==◌, append_assoc, append-nil, Bool-cases, inl, inr,
  arith,
}
use hooklens.Server.Events.{
  line_feed, split_lines, data_lines, passed, named, carries, field_of, classify, joined, consume,
}

-- No line feed stands in it.
abbrev pub one_line : Bytes → Bool
one_line s = all_of (λ c. not (c == line_feed)) s

pub split-line :
    (l rest : Bytes)
    → one_line l ≡ true
    → split_lines (l ++ (line_feed ∷ rest)) ≡ l ∷ split_lines rest
split-line l rest h = split-append line_feed l rest h

unfoldable pub is_nil : List Bytes → Bool
is_nil [] = true
is_nil (l ∷ ls) = false

onto_first-some : (c : ℕ) (ls : List Bytes) → is_nil (onto_first c ls) ≡ false
unfolding onto_first is_nil
onto_first-some c [] = refl
onto_first-some c (l ∷ ls) = refl

pub split-some : (s : Bytes) → is_nil (split_lines s) ≡ false
unfolding split onto_first is_nil
split-some [] = refl
split-some (c ∷ s) = elim (Bool-cases (c == line_feed)) [
  | inl feed ↦ ground arith
  | inr other ↦ ground (arith, onto_first-some c (split_lines s))
]

onto_first-one_line :
    (c : ℕ) (ls : List Bytes)
    → (c == line_feed) ≡ false
    → all_of one_line ls ≡ true
    → all_of one_line (onto_first c ls) ≡ true
unfolding onto_first
onto_first-one_line c [] other h = ground arith
onto_first-one_line c (l ∷ ls) other h = ground arith

pub split-one_line : (s : Bytes) → all_of one_line (split_lines s) ≡ true
unfolding split
split-one_line [] = refl
split-one_line (c ∷ s) = ground (arith, split-one_line s, onto_first-one_line c (split_lines s))

joined-onto_first :
    (c : ℕ) (ls : List Bytes) → is_nil ls ≡ false → joined (onto_first c ls) ≡ c ∷ joined ls
unfolding onto_first joined is_nil
joined-onto_first c [] h = cc
joined-onto_first c (l ∷ []) h = refl
joined-onto_first c (l ∷ m ∷ ls) h = refl

joined-blank : (ls : List Bytes) → is_nil ls ≡ false → joined ([] ∷ ls) ≡ line_feed ∷ joined ls
unfolding joined is_nil
joined-blank [] h = cc
joined-blank (l ∷ ls) h = refl

joined-empty : joined ([] ∷ []) ≡ []
unfolding joined
joined-empty = refl

pub joined-split : (s : Bytes) → joined (split_lines s) ≡ s
unfolding split
joined-split [] = joined-empty
joined-split (c ∷ s) = ground (
  arith,
  joined-split s,
  split-some s,
  joined-blank (split_lines s),
  joined-onto_first c (split_lines s),
)

data-carries : (l : Bytes) → classify (codes "data: " ++ l) ≡ carries l
unfolding classify field_of cut_prefix
data-carries l = refl

pub event-named : (l : Bytes) → classify (codes "event: " ++ l) ≡ named l
unfolding classify field_of cut_prefix
event-named l = refl

pub comment-passed : (l : Bytes) → classify (codes ": " ++ l) ≡ passed
unfolding classify field_of cut_prefix
comment-passed l = refl

consume-carries :
    (l text name : Bytes) (ls gathered : List Bytes)
    → classify l ≡ carries text
    → consume (l ∷ ls) name gathered ≡ consume ls name (gathered ++ (text ∷ []))
unfolding consume
consume-carries l text name ls gathered h = ground arith

pub consume-named :
    (l other name : Bytes) (ls gathered : List Bytes)
    → classify l ≡ named other
    → consume (l ∷ ls) name gathered ≡ consume ls other gathered
unfolding consume
consume-named l other name ls gathered h = ground arith

pub consume-passed :
    (l name : Bytes) (ls gathered : List Bytes)
    → classify l ≡ passed
    → consume (l ∷ ls) name gathered ≡ consume ls name gathered
unfolding consume
consume-passed l name ls gathered h = ground arith

data-one_line : (l : Bytes) → one_line l ≡ true → one_line (codes "data: " ++ l) ≡ true
data-one_line l h = h

pub consume-data :
    (ls : List Bytes) (rest name : Bytes) (gathered : List Bytes)
    → all_of one_line ls ≡ true
    → consume (split_lines (data_lines ls ++ rest)) name gathered
      ≡ consume (split_lines rest) name (gathered ++ ls)
unfolding data_lines
consume-data [] rest name gathered h =
    ap (consume (split_lines rest) name) (sym (append-nil gathered))
consume-data (l ∷ ls) rest name gathered h =
    let first = codes "data: " ++ l in
    let whole : one_line first ≡ true = ground arith in
    ap (λ t. consume (split_lines (codes "data: " ++ t)) name gathered)
      (append_assoc l (line_feed ∷ data_lines ls) rest)
    ∙ (ap (λ t. consume t name gathered) (split-line first (data_lines ls ++ rest) whole)
        ∙ (consume-carries first l name (split_lines (data_lines ls ++ rest)) gathered
              (data-carries l)
            ∙ (consume-data ls rest name (gathered ++ (l ∷ [])) (ground arith)
                ∙ ap (consume (split_lines rest) name) (append_assoc gathered (l ∷ []) ls))))
