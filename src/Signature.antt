-- ===== src/Signature.antt =====
-- internal/signature: webhook signatures. HMAC and the two encodings of a tag are parameters, and so
-- is strings.ToLower outside ASCII. The texts of problems are kept as a type; hints are left out.
pub mod Stripe
pub mod Providers
pub mod Detect
pub mod Honest
mod Tests
use hooklens.Base.{
  ℕ, suc, ◌+◌, ◌*◌, Bool, true, false, ◌&&◌, Option, none, some, List, [], ◌∷◌, ◌++◌, Bytes, codes,
  bytes_eq, length, ltb, ◌==◌, if◌then◌else◌, ℤ, pos, negsuc,
}

pub data Algorithm : Type 0 where
  sha256 sha1 : Algorithm

pub data Encoding : Type 0 where
  hex base64 : Encoding

-- `hmac` gives the digest of a secret and a payload; `encoded` its text; `wide` is strings.ToLower
-- of a text with a byte outside ASCII, and `wide_fold` strings.EqualFold of two such.
pub record Crypto : Type 0 where
  pub hmac : Algorithm → Bytes → Bytes → Bytes
  pub encoded : Encoding → Bytes → Bytes
  pub wide : Bytes → Bytes
  pub wide_fold : Bytes → Bytes → Bool

abbrev pub compute : Crypto → Algorithm → Encoding → Bytes → Bytes → Bytes
compute crypto alg enc secret payload = crypto.encoded enc (crypto.hmac alg secret payload)

-- `hmac.Equal` compares byte for byte.
unfoldable pub equal : Bytes → Bytes → Bool
equal a b = if length a == length b then bytes_eq a b else false

pub data Problem : Type 0 where
  no_header : Bytes → Problem
  bad_timestamp : Bytes → Problem
  no_timestamp no_signature no_match no_v1_match : Problem
  expired in_future : Problem
  expected_scheme : Bytes → Problem
  unknown_scheme : Bytes → Problem
  sha1_deprecated hex_encoded : Problem
  unsupported : Bytes → Problem

-- The timestamp is in seconds; the age, which is `now` less the timestamp, is not kept.
pub record Result : Type 0 where
  pub provider : Bytes
  pub valid : Bool
  pub signed : Bytes
  pub expected : Bytes
  pub provided : Bytes
  pub timestamp : Option ℤ
  pub problem : Option Problem

abbrev pub unchecked : Bytes → Option Problem → Result
unchecked provider problem = record {
  provider = provider;
  valid = false;
  signed = [];
  expected = [];
  provided = [];
  timestamp = none;
  problem = problem;
}

abbrev pub second : ℕ
second = 1000000000

-- Five minutes, Stripe's and Slack's.
abbrev pub default_tolerance : ℕ
default_tolerance = 300 * second

-- `res.Age > tolerance`, with `now` in nanoseconds after the epoch.
unfoldable pub too_old : ℕ → ℤ → ℕ → Bool
too_old now (pos n) tolerance = ltb (n * second + tolerance) now
too_old now (negsuc n) tolerance = ltb tolerance (now + suc n * second)

-- `res.Age < -tolerance`.
unfoldable pub too_new : ℕ → ℤ → ℕ → Bool
too_new now (pos n) tolerance = ltb (now + tolerance) (n * second)
too_new now (negsuc n) tolerance = false

-- `res.Age < 0`.
unfoldable pub ahead : ℕ → ℤ → Bool
ahead now (pos n) = ltb now (n * second)
ahead now (negsuc n) = false
