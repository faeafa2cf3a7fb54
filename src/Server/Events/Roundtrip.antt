-- ===== src/Server/Events/Roundtrip.antt =====
-- internal/server/sse.go: that the reader of the stream gets the events that were written.
use hooklens.Base.{
  split, ◌≡◌, ◌∙◌, refl, ap, Bool, true, false, ◌&&◌, List, [], ◌∷◌, ◌++◌, Bytes, codes, bytes_eq,
  append_assoc, arith,
}
use hooklens.Server.Events.{
  line_feed, split_lines, data_lines, name_line, event, comment, Write, event_of, comment_of,
  stream, classify, joined, dispatched, consume,
}
use hooklens.Server.Events.Lines.{
  one_line, split-line, is_nil, split-some, split-one_line, joined-split, event-named,
  comment-passed, consume-named, consume-passed, consume-data,
}

split-blank : (rest : Bytes) → split_lines (line_feed ∷ rest) ≡ [] ∷ split_lines rest
unfolding split
split-blank rest = refl

consume-blank :
    (name : Bytes) (ls gathered : List Bytes)
    → consume ([] ∷ ls) name gathered ≡ dispatched name gathered ++ consume ls [] []
unfolding consume classify
consume-blank name ls gathered = refl

dispatched-some :
    (name : Bytes) (ls : List Bytes)
    → is_nil ls ≡ false
    → dispatched name ls ≡ (name, joined ls) ∷ []
unfolding dispatched is_nil
dispatched-some name [] h = cc
dispatched-some name (l ∷ ls) h = refl

dispatched-none : (name : Bytes) → dispatched name [] ≡ []
unfolding dispatched
dispatched-none name = refl

consume-text :
    (name text rest : Bytes)
    → consume (split_lines (data_lines (split_lines text) ++ (line_feed ∷ rest))) name []
      ≡ (name, text) ∷ consume (split_lines rest) [] []
consume-text name text rest =
    let ls = split_lines text in
    cc (
      consume-data ls (line_feed ∷ rest) name [] (split-one_line text),
      split-blank rest,
      consume-blank name (split_lines rest) ls,
      dispatched-some name ls (split-some text),
      joined-split text,
    )

consume-event :
    (name text rest : Bytes)
    → one_line name ≡ true
    → consume (split_lines (event name text ++ rest)) [] []
      ≡ (name, text) ∷ consume (split_lines rest) [] []
unfolding event name_line bytes_eq
consume-event [] text rest h =
    ap (λ t. consume (split_lines t) [] [])
      (append_assoc (data_lines (split_lines text)) (line_feed ∷ []) rest)
    ∙ consume-text [] text rest
consume-event (c ∷ n) text rest h =
    let name : Bytes = c ∷ n in
    let body = data_lines (split_lines text) in
    let first = codes "event: " ++ name in
    let whole : one_line first ≡ true = ground arith in
    ap (λ t. consume (split_lines (codes "event: " ++ t)) [] [])
      (append_assoc name (line_feed ∷ (body ++ (line_feed ∷ []))) rest)
    ∙ (ap (λ t. consume (split_lines (first ++ (line_feed ∷ t))) [] [])
          (append_assoc body (line_feed ∷ []) rest)
        ∙ (ap (λ t. consume t [] []) (split-line first (body ++ (line_feed ∷ rest)) whole)
            ∙ (consume-named first name [] (split_lines (body ++ (line_feed ∷ rest))) []
                  (event-named name)
                ∙ consume-text name text rest)))

consume-comment :
    (text rest : Bytes)
    → one_line text ≡ true
    → consume (split_lines (comment text ++ rest)) [] [] ≡ consume (split_lines rest) [] []
unfolding comment
consume-comment text rest h =
    let first = codes ": " ++ text in
    let whole : one_line first ≡ true = ground arith in
    ap (λ t. consume (split_lines (codes ": " ++ t)) [] [])
      (append_assoc text (line_feed ∷ line_feed ∷ []) rest)
    ∙ cc (
      split-line first (line_feed ∷ rest) whole,
      consume-passed first [] (split_lines (line_feed ∷ rest)) [] (comment-passed text),
      split-blank rest,
      consume-blank [] (split_lines rest) [],
      dispatched-none [],
    )

consume-end : consume (split_lines []) [] [] ≡ []
unfolding consume classify split dispatched
consume-end = refl

-- The names and the comments stand on one line.
unfoldable pub well_formed : List Write → Bool
well_formed [] = true
well_formed (event_of name text ∷ rest) = one_line name && well_formed rest
well_formed (comment_of text ∷ rest) = one_line text && well_formed rest

-- The events among the writes.
unfoldable pub events_of : List Write → List (Bytes × Bytes)
events_of [] = []
events_of (event_of name text ∷ rest) = (name, text) ∷ events_of rest
events_of (comment_of text ∷ rest) = events_of rest

-- A reader of the stream gets exactly the events that were written, in their order, each with its
-- name and its data byte for byte, line feeds in the data included; the comments between them are
-- passed over. The names and the comments must stand on one line.
pub consume-stream :
    (writes : List Write)
    → well_formed writes ≡ true
    → consume (split_lines (stream writes)) [] [] ≡ events_of writes
unfolding stream well_formed events_of
consume-stream [] h = consume-end
consume-stream (event_of name text ∷ rest) h =
    consume-event name text (stream rest) (ground arith)
    ∙ ap (◌∷◌ (name, text)) (consume-stream rest (ground arith))
consume-stream (comment_of text ∷ rest) h =
    consume-comment text (stream rest) (ground arith) ∙ consume-stream rest (ground arith)
