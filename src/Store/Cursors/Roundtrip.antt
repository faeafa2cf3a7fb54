-- ===== src/Store/Cursors/Roundtrip.antt =====
-- internal/store/cursor.go: a cursor survives its text.
use hooklens.Base.{
  ℕ, ◌≡◌, ◌≢◌, false, some, [], ◌∷◌, ◌++◌, Bytes, codes, bytes_eq, cut-append, Lacks, arith,
}
use hooklens.Store.Cursors.{TextFormat, Cursor, to_string, parse_parts, parse_cursor}

-- What the source relies on: both formats can be read back, a time is written without a bar, and
-- no text decodes to no text.
pub record TextLaws (format : TextFormat) : Type 0 where
  pub read_time : (at : ℕ) → format.parse_time (format.format_time at) ≡ some at
  pub time_Lacks : (at : ℕ) → Lacks b'|' (format.format_time at)
  pub decode-encode : (s : Bytes) → format.decode (format.encode s) ≡ some s
  pub decode_empty : format.decode [] ≡ some []

module _ (format : TextFormat) (laws : TextLaws format) where
  parts-read :
      (c : Cursor)
      → bytes_eq c.id [] ≡ false
      → parse_parts format (format.format_time c.received_at, some c.id) ≡ some c
  unfolding parse_parts
  parts-read c h = ground (arith, laws.read_time c.received_at)

  -- The text of a cursor whose id is not empty is parsed to that cursor.
  pub parse_cursor-to_string :
      (c : Cursor) → bytes_eq c.id [] ≡ false → parse_cursor format (to_string format c) ≡ some c
  unfolding parse_cursor to_string
  parse_cursor-to_string c h =
      let text = format.format_time c.received_at ++ (codes "|" ++ c.id) in
      let parts =
        cut-append (format.format_time c.received_at) c.id b'|' (laws.time_Lacks c.received_at) in
      ground (arith, laws.decode-encode text, parts, parts-read c h)

  bar-nonempty : (s t : Bytes) → s ++ (codes "|" ++ t) ≢ []
  bar-nonempty [] t e = absurd (cc e)
  bar-nonempty (c ∷ s) t e = absurd (cc e)

  pub to_string-nonempty : (c : Cursor) → to_string format c ≢ []
  unfolding to_string
  to_string-nonempty c e =
      let text = format.format_time c.received_at ++ (codes "|" ++ c.id) in
      bar-nonempty (format.format_time c.received_at) c.id
        (cc (laws.decode-encode text, laws.decode_empty, e))
