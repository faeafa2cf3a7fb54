-- ===== src/Server/Net.antt =====
-- net.SplitHostPort of Go's standard library, as internal/server and internal/capture call it.
use hooklens.Base.{
  ℕ, suc, ◌+◌, Bool, ◌||◌, Option, none, some, [], ◌∷◌, Bytes, take, drop, ◌==◌, if◌then◌else◌,
  any_of, cut,
}

-- strings.LastIndexByte.
unfoldable pub last_index : ℕ → Bytes → Option ℕ
last_index b [] = none
last_index b (c ∷ s) = elim (last_index b s) [
  | some i ↦ some (i + 1)
  | none ↦ if c == b then some 0 else none
]

abbrev has_byte : ℕ → Bytes → Bool
has_byte b = any_of (λ c. c == b)

-- The text between the brackets and what stands behind them: the port's colon must be next and last.
split_bracketed : Bytes → Option (Bytes × Bytes)
unfolding cut last_index
split_bracketed s =
    let (host, behind) = cut s b']' in
    elim behind [
      | none ↦ none
      | some [] ↦ none
      | some (c ∷ port) ↦
          if c == b':'
          then (if has_byte b':' port
                || has_byte b'[' host
                || has_byte b'[' port
                || has_byte b']' port
              then none
              else some (host, port))
          else none
    ]

-- Host and port, or none where Go returns an error.
unfoldable pub split_host_port : Bytes → Option (Bytes × Bytes)
unfolding split_bracketed last_index
split_host_port [] = none
split_host_port (c ∷ s) = if c == b'[' then split_bracketed s else elim (last_index b':' (c ∷ s)) [
  | none ↦ none
  | some i ↦
      let host = take i (c ∷ s) in
      if has_byte b':' host || has_byte b'[' (c ∷ s) || has_byte b']' (c ∷ s)
      then none
      else some (host, drop (suc i) (c ∷ s))
]
