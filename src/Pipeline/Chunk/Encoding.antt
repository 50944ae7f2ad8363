-- ===== src/Pipeline/Chunk/Encoding.antt =====
-- The text forms of numbers and keys in headers: strconv and encoding/base64.
use jsync.Base.{ℕ, ◌<◌, ◌^◌, ◌≡◌, Option, some, Bytes}

pub record Codec : Type 0 where
  pub itoa : ℕ → Bytes
  -- a negative or malformed number is `none`
  pub atoi : Bytes → Option ℕ
  pub format_uint : ℕ → Bytes
  -- `ParseUint` of 32 bits
  pub parse_uint : Bytes → Option ℕ
  -- `ParseInt` with its error ignored: zero for what is malformed or absent
  pub parse_int : Bytes → ℕ
  pub encode_base64 : Bytes → Bytes
  pub decode_base64 : Bytes → Option Bytes

pub record IsLawful (C : Codec) : Type 0 where
  pub atoi-itoa : (n : ℕ) → C.atoi (C.itoa n) ≡ some n
  pub parse_uint-format_uint : (n : ℕ) → n < 2 ^ 32 → C.parse_uint (C.format_uint n) ≡ some n
  pub parse_int-format_uint : (n : ℕ) → n < 2 ^ 63 → C.parse_int (C.format_uint n) ≡ n
  pub decode-encode : (b : Bytes) → C.decode_base64 (C.encode_base64 b) ≡ some b
