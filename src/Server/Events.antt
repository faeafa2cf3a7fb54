-- ===== src/Server/Events.antt =====
-- internal/server/sse.go: the text of the event stream, and a reader of that text as the format of
-- server-sent events has it, for lines that end with a line feed.
pub mod Lines
pub mod Roundtrip
use hooklens.Base.{
  split, ℕ, Bool, Option, none, some, List, [], ◌∷◌, ◌++◌, Bytes, codes, bytes_eq, cut_prefix,
  format_uint, ◌==◌, if◌then◌else◌,
}

abbrev pub line_feed : ℕ
line_feed = 10

-- strings.SplitSeq at a line feed.
abbrev pub split_lines : Bytes → List Bytes
split_lines = split line_feed

unfoldable pub data_lines : List Bytes → Bytes
data_lines [] = []
data_lines (l ∷ ls) = codes "data: " ++ (l ++ (line_feed ∷ data_lines ls))

unfoldable pub name_line : Bytes → Bytes → Bytes
name_line name rest =
    if bytes_eq name [] then rest else codes "event: " ++ (name ++ (line_feed ∷ rest))

unfoldable pub event : Bytes → Bytes → Bytes
event name text = name_line name (data_lines (split_lines text) ++ (line_feed ∷ []))

unfoldable pub comment : Bytes → Bytes
comment text = codes ": " ++ (text ++ (line_feed ∷ line_feed ∷ []))

-- The argument is in milliseconds.
unfoldable pub retry : ℕ → Bytes
retry ms = codes "retry: " ++ (format_uint ms ++ (line_feed ∷ line_feed ∷ []))

-- What the handler writes, in its order.
pub data Write : Type 0 where
  event_of : Bytes → Bytes → Write
  comment_of : Bytes → Write

unfoldable pub stream : List Write → Bytes
stream [] = []
stream (event_of name text ∷ rest) = event name text ++ stream rest
stream (comment_of text ∷ rest) = comment text ++ stream rest

-- The reader. A line is blank, has a field that counts here, or is passed over.
pub data Line : Type 0 where
  blank passed : Line
  named carries : Bytes → Line

unfoldable pub field_of : Bytes → Line
field_of line = elim (cut_prefix line (codes "event: ")) [
  | some name ↦ named name
  | none ↦ elim (cut_prefix line (codes "data: ")) [ some text ↦ carries text | none ↦ passed ]
]

unfoldable pub classify : Bytes → Line
classify [] = blank
classify (c ∷ l) = field_of (c ∷ l)

unfoldable pub joined : List Bytes → Bytes
joined [] = []
joined (l ∷ []) = l
joined (l ∷ m ∷ ls) = l ++ (line_feed ∷ joined (m ∷ ls))

-- A blank line dispatches what was gathered, if there is data.
unfoldable pub dispatched : Bytes → List Bytes → List (Bytes × Bytes)
dispatched name [] = []
dispatched name (l ∷ ls) = (name, joined (l ∷ ls)) ∷ []

unfoldable pub consume : List Bytes → Bytes → List Bytes → List (Bytes × Bytes)
consume [] name gathered = []
consume (l ∷ ls) name gathered = elim (classify l) [
  | blank ↦ dispatched name gathered ++ consume ls [] []
  | passed ↦ consume ls name gathered
  | named other ↦ consume ls other gathered
  | carries text ↦ consume ls name (gathered ++ (text ∷ []))
]
