-- ===== src/Msgpack/Unpack.antt =====
-- A reader of MessagePack by its published format table, independent of the writer: the forms that the
-- program uses.
use hl_maker_lighter_arb_cpp.Common.{
  ℕ, zero, suc, ◌-◌, Bool, true, false, Option, none, some, List, [], ◌∷◌, leb, ◌==◌, if◌then◌else◌,
}
use hl_maker_lighter_arb_cpp.Msgpack.Bytes.{ByteBuffer, read_big_endian}

pub data Token : Type 0 where
  uint : ℕ → Token
  bool : Bool → Token
  str : List ℕ → Token
  array_size : ℕ → Token
  map_size : ℕ → Token

-- The first `n` bytes and the rest.
unfoldable pub split_at? : ℕ → ByteBuffer → Option (ByteBuffer × ByteBuffer)
split_at? zero bs = some ([], bs)
split_at? (suc n) [] = none
split_at? (suc n) (b ∷ bs) = elim (split_at? n bs) [
  | none ↦ none
  | some (front, rest) ↦ some (b ∷ front, rest)
]

abbrev pub numbered : (ℕ → Token) → Option (ℕ × ByteBuffer) → Option (Token × ByteBuffer)
numbered f none = none
numbered f (some (n, rest)) = some (f n, rest)

unfoldable pub read_str : Option (ℕ × ByteBuffer) → Option (Token × ByteBuffer)
unfolding split_at?
read_str none = none
read_str (some (n, bs)) = elim (split_at? n bs) [
  | none ↦ none
  | some (front, rest) ↦ some (str front, rest)
]

unfoldable pub unpack_at : ℕ → ByteBuffer → Option (Token × ByteBuffer)
unpack_at tag bs =
    if leb tag 0x7f
    then some (uint tag, bs)
    else if leb tag 0x8f
    then some (map_size (tag - 0x80), bs)
    else if leb tag 0x9f
    then some (array_size (tag - 0x90), bs)
    else if leb tag 0xbf
    then read_str (some (tag - 0xa0, bs))
    else if tag == 0xc2
    then some (bool false, bs)
    else if tag == 0xc3
    then some (bool true, bs)
    else if tag == 0xcc
    then numbered uint (read_big_endian 1 0 bs)
    else if tag == 0xcd
    then numbered uint (read_big_endian 2 0 bs)
    else if tag == 0xce
    then numbered uint (read_big_endian 4 0 bs)
    else if tag == 0xcf
    then numbered uint (read_big_endian 8 0 bs)
    else if tag == 0xd9
    then read_str (read_big_endian 1 0 bs)
    else if tag == 0xdc
    then numbered array_size (read_big_endian 2 0 bs)
    else if tag == 0xde
    then numbered map_size (read_big_endian 2 0 bs)
    else none

unfoldable pub unpack : ByteBuffer → Option (Token × ByteBuffer)
unfolding unpack_at
unpack [] = none
unpack (tag ∷ bs) = unpack_at tag bs
