-- ===== src/Base/Buffer.antt =====
-- Node's `Buffer`: bytes as a list of numbers below 256, with the reads and the conversions that the
-- program makes.
pub mod Laws
use solnado_cash.Base.{
  ℕ, zero, suc, ◌+◌, ◌*◌, ◌^◌, ◌<◌, List, [], ◌∷◌, ◌++◌, length, take, drop, All,
}
use solnado_cash.Base.Radix.{value, digits, pad_start}

abbrev pub IsBytes : List ℕ → Type 0
IsBytes = All (λ b. b < 256)

-- buf.subarray(start, start + len)
abbrev pub subarray : List ℕ → ℕ → ℕ → List ℕ
subarray buf start len = take len (drop start buf)

-- The little-endian value of the bytes.
unfoldable pub little : List ℕ → ℕ
little [] = 0
little (b ∷ bs) = b + 256 * little bs

-- buf.readBigUInt64LE(start), where the buffer is long enough
abbrev pub read_u64_le : List ℕ → ℕ → ℕ
read_u64_le buf start = little (subarray buf start 8)

-- buf.readUInt32LE(start), where the buffer is long enough
abbrev pub read_u32_le : List ℕ → ℕ → ℕ
read_u32_le buf start = little (subarray buf start 4)

-- v = 0n; for (const b of bytes) v = (v << 8n) | BigInt(b)
unfoldable pub big : List ℕ → ℕ
big bytes = value 256 bytes

-- The bytes that a list of hexadecimal digits spells; an odd last digit is dropped.
unfoldable pub pairs : List ℕ → List ℕ
pairs (h ∷ l ∷ ds) = (h * 16 + l) ∷ pairs ds
pairs _ = []

-- n.toString(16).padStart(64, "0"), as the values of the digits
unfoldable pub hex64 : ℕ → List ℕ
hex64 n = pad_start 64 (digits 16 n)
