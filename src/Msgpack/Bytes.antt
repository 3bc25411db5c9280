-- ===== src/Msgpack/Bytes.antt =====
-- Numbers as bytes, the highest first.
use hl_maker_lighter_arb_cpp.Common.{
  ℕ, zero, suc, ◌+◌, ◌*◌, ◌/◌, ◌%◌, ◌^◌, ◌<◌, Option, none, some, List, [], ◌∷◌,
}

abbrev pub ByteBuffer : Type 0
ByteBuffer = List ℕ

-- `static_cast<std::uint8_t>`
abbrev pub u8 : ℕ → ℕ
u8 n = n % 256

abbrev pub IsByte : ℕ → Type 0
IsByte b = b < 256

-- The loop `for (shift = 8 * (k - 1); shift >= 0; shift -= 8) push((value >> shift) & 0xff)`.
unfoldable pub big_endian : ℕ → ℕ → ByteBuffer
big_endian zero value = []
big_endian (suc k) value = u8 (value / 256 ^ k) ∷ big_endian k value

-- The number that the next `k` bytes spell after `acc`, and the bytes behind them.
unfoldable pub read_big_endian : ℕ → ℕ → ByteBuffer → Option (ℕ × ByteBuffer)
read_big_endian zero acc bs = some (acc, bs)
read_big_endian (suc k) acc [] = none
read_big_endian (suc k) acc (b ∷ bs) = read_big_endian k (acc * 256 + b) bs
