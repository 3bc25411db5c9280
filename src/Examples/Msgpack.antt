-- ===== src/Examples/Msgpack.antt =====
-- The message writer at concrete inputs: the start of the message that a Hyperliquid order is hashed as.
use hl_maker_lighter_arb_cpp.Common.{◌≡◌, true, some, List, [], ◌∷◌, arith}
use hl_maker_lighter_arb_cpp.Msgpack.Unpack.{Token, uint, bool, str, array_size, map_size}
use hl_maker_lighter_arb_cpp.Msgpack.Message.{pack_all, unpack_all, unpack_all-pack_all}

-- {"type": [300, true]}
abbrev message : List Token
message = map_size 1 ∷ str (116 ∷ 121 ∷ 112 ∷ 101 ∷ []) ∷ array_size 2 ∷ uint 300 ∷ bool true ∷ []

unpack_all-pack_all_example : unpack_all 6 (pack_all [] message) ≡ some message
unpack_all-pack_all_example =
    unpack_all-pack_all message 6
      (omega arith, (omega arith, (omega arith, (omega arith, (tt, tt))))) (omega arith)
