-- ===== src/Capture/Body.antt =====
-- internal/capture/request.go (`readBody`): what is kept of a body.
use hooklens.Base.{
  ℕ, ◌+◌, ◌≡◌, refl, true, false, some, take, length, ltb, leb, if◌then◌else◌, ◌&&◌, length-take,
  take_of_length-le, arith, ap, List, [], ◌∷◌, suc, zero,
}
use hooklens.Capture.{Stream, read_limited, read_body}

take-take : (n : ℕ) (s : List ℕ) → take n (take (suc n) s) ≡ take n s
take-take zero s = refl
take-take (suc n) [] = refl
take-take (suc n) (c ∷ s) = ap (◌∷◌ c) (take-take n s)

-- A body within the limit is kept whole, byte for byte, and is refused if its reader fails; of a
-- longer one exactly the first `max_body` bytes are kept, and only it is marked as truncated, even
-- if the reader would fail behind them.
pub read_body_outcome :
    (s : Stream) (max_body : ℕ)
    → read_body (some s) max_body ≡ (
        if s.fails && leb (length s.bytes) max_body
        then (s.bytes, false, true)
        else (take max_body s.bytes, ltb max_body (length s.bytes), false))
unfolding read_body read_limited
read_body_outcome s max_body =
    let one_more : max_body + 1 ≡ suc max_body = omega arith in
    ground (
      arith,
      take-take max_body s.bytes,
      ap (λ n. take max_body (take n s.bytes)) one_more,
      length-take (max_body + 1) s.bytes,
      take_of_length-le max_body s.bytes,
    )
