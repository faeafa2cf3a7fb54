-- ===== src/Store/Cursors.antt =====
-- internal/store/cursor.go: a position in a list of requests, and its text. The format of times and
-- base64 are parameters.
pub mod Roundtrip
use hooklens.Base.{
  ℕ, Bool, true, false, Option, none, some, [], ◌++◌, Bytes, codes, bytes_eq, cut, ltb, ◌==◌,
  if◌then◌else◌,
}
use hooklens.Capture.{bytes_less}

-- time.RFC3339Nano of an instant in UTC, and base64.RawURLEncoding.
pub record TextFormat : Type 0 where
  pub format_time : ℕ → Bytes
  pub parse_time : Bytes → Option ℕ
  pub encode : Bytes → Bytes
  pub decode : Bytes → Option Bytes

pub record Cursor : Type 0 where
  pub received_at : ℕ
  pub id : Bytes

unfoldable pub to_string : TextFormat → Cursor → Bytes
to_string format c = format.encode (format.format_time c.received_at ++ (codes "|" ++ c.id))

unfoldable pub parse_parts : TextFormat → Bytes × Option Bytes → Option Cursor
parse_parts format (ts, none) = none
parse_parts format (ts, some id) = if bytes_eq id [] then none else elim (format.parse_time ts) [
  | none ↦ none
  | some at ↦ some (record { received_at = at; id = id })
]

-- None is ErrBadCursor, wrapped or not.
unfoldable pub parse_cursor : TextFormat → Bytes → Option Cursor
parse_cursor format s = elim (format.decode s) [
  | none ↦ none
  | some raw ↦ parse_parts format (cut raw b'|')
]

-- The comparison of rows that Postgres makes of `(received_at, id)`.
unfoldable pub precedes : Cursor → Cursor → Bool
precedes a b =
    if a.received_at == b.received_at then bytes_less a.id b.id else ltb a.received_at b.received_at
