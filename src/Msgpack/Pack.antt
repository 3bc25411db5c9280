-- ===== src/Msgpack/Pack.antt =====
-- src/msgpack.cpp. The buffer is the list of its bytes, and the functions append to it; a string is
-- the list of its bytes.
use Prim.Native.Nat.{bit_or}
use hl_maker_lighter_arb_cpp.Common.{
  ℕ, ◌%◌, ◌/◌, ◌^◌, Bool, List, [], ◌∷◌, ◌++◌, length, leb, if◌then◌else◌,
}
use hl_maker_lighter_arb_cpp.Msgpack.Bytes.{ByteBuffer, u8, big_endian}

unfoldable pub mp_pack_str : ByteBuffer → List ℕ → ByteBuffer
mp_pack_str out value =
    let size = length value % 2 ^ 32 in
    (out ++ (if leb size 31 then u8 (bit_or 0xa0 size) ∷ [] else 0xd9 ∷ u8 size ∷ [])) ++ value

unfoldable pub mp_pack_bool : ByteBuffer → Bool → ByteBuffer
mp_pack_bool out value = out ++ ((if value then 0xc3 else 0xc2) ∷ [])

unfoldable pub mp_pack_uint : ByteBuffer → ℕ → ByteBuffer
mp_pack_uint out value =
    out
    ++ (if leb value 0x7f
        then u8 value ∷ []
        else if leb value 0xff
        then 0xcc ∷ u8 value ∷ []
        else if leb value 0xffff
        then 0xcd ∷ u8 (value / 256) ∷ u8 value ∷ []
        else if leb value 0xffffffff
        then 0xce ∷ big_endian 4 value
        else 0xcf ∷ big_endian 8 value)

unfoldable pub mp_pack_array_size : ByteBuffer → ℕ → ByteBuffer
mp_pack_array_size out size =
    out
    ++ (if leb size 15 then u8 (bit_or 0x90 size) ∷ [] else 0xdc ∷ u8 (size / 256) ∷ u8 size ∷ [])

unfoldable pub mp_pack_map_size : ByteBuffer → ℕ → ByteBuffer
mp_pack_map_size out size =
    out
    ++ (if leb size 15 then u8 (bit_or 0x80 size) ∷ [] else 0xde ∷ u8 (size / 256) ∷ u8 size ∷ [])
