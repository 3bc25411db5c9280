-- ===== src/Msgpack/Message.antt =====
-- Whole messages: what a sequence of calls writes into one buffer.
use mathlib.Core.List.{append_assoc, append-nil}
use mathlib.Core.Option.{some-injective}
use hl_maker_lighter_arb_cpp.Common.{
  ℕ, zero, suc, ◌+◌, ◌^◌, ◌<◌, ◌≡◌, refl, sym, ap, ◌∙◌, Option, none, some, List, [], ◌∷◌, ◌++◌,
  arith, length, All,
}
use hl_maker_lighter_arb_cpp.Msgpack.Bytes.{ByteBuffer}
use hl_maker_lighter_arb_cpp.Msgpack.Pack.{
  mp_pack_str, mp_pack_bool, mp_pack_uint, mp_pack_array_size, mp_pack_map_size,
}
use hl_maker_lighter_arb_cpp.Msgpack.Unpack.{Token, uint, bool, str, array_size, map_size, unpack}
use hl_maker_lighter_arb_cpp.Msgpack.RoundTrip.{
  unpack-pack_uint, unpack-pack_bool, unpack-pack_str, unpack-pack_size,
}

-- The call that writes a token.
unfoldable pub pack : ByteBuffer → Token → ByteBuffer
pack out (uint n) = mp_pack_uint out n
pack out (bool b) = mp_pack_bool out b
pack out (str s) = mp_pack_str out s
pack out (array_size n) = mp_pack_array_size out n
pack out (map_size n) = mp_pack_map_size out n

unfoldable pub pack_all : ByteBuffer → List Token → ByteBuffer
pack_all out [] = out
pack_all out (t ∷ ts) = pack_all (pack out t) ts

-- The tokens of a buffer up to its end, on fuel.
unfoldable pub unpack_all : ℕ → ByteBuffer → Option (List Token)
unpack_all zero bs = none
unpack_all (suc f) [] = some []
unpack_all (suc f) (b ∷ bs) = elim (unpack (b ∷ bs)) [
  | none ↦ none
  | some (t, rest) ↦ elim (unpack_all f rest) [ none ↦ none | some ts ↦ some (t ∷ ts) ]
]

-- What the writer has a form for.
abbrev pub Fits : Token → Type 0
Fits (uint n) = n < 2 ^ 64
Fits (bool b) = Unit
Fits (str s) = length s < 256
Fits (array_size n) = n < 2 ^ 16
Fits (map_size n) = n < 2 ^ 16

pack_appends : (out : ByteBuffer) (t : Token) → pack out t ≡ out ++ pack [] t
unfolding pack mp_pack_uint mp_pack_bool mp_pack_str mp_pack_array_size mp_pack_map_size
pack_appends out (uint n) = refl
pack_appends out (bool b) = refl
pack_appends out (str s) = append_assoc out _ s
pack_appends out (array_size n) = refl
pack_appends out (map_size n) = refl

pack_all_appends : (out : ByteBuffer) (ts : List Token) → pack_all out ts ≡ out ++ pack_all [] ts
unfolding pack_all
pack_all_appends out [] = sym (append-nil out)
pack_all_appends out (t ∷ ts) =
    pack_all_appends (pack out t) ts
    ∙ ap (λ b. b ++ pack_all [] ts) (pack_appends out t)
    ∙ append_assoc out (pack [] t) (pack_all [] ts)
    ∙ ap (λ b. out ++ b) (sym (pack_all_appends (pack [] t) ts))

unpack-pack : (t : Token) (rest : ByteBuffer) → Fits t → unpack (pack [] t ++ rest) ≡ some (t, rest)
unfolding pack
unpack-pack (uint n) rest h = unpack-pack_uint n rest h
unpack-pack (bool b) rest h = unpack-pack_bool b rest
unpack-pack (str s) rest h = unpack-pack_str s rest h
unpack-pack (array_size n) rest h = (unpack-pack_size n rest h).0
unpack-pack (map_size n) rest h = (unpack-pack_size n rest h).1

unpack_nil : unpack [] ≡ none
unfolding unpack
unpack_nil = refl

unpack_all_step :
    (f : ℕ) (bs rest : ByteBuffer) (t : Token) (ts : List Token)
    → unpack bs ≡ some (t, rest)
    → unpack_all f rest ≡ some ts
    → unpack_all (suc f) bs ≡ some (t ∷ ts)
unfolding unpack_all
unpack_all_step f [] rest t ts e r = cc unpack_nil
unpack_all_step f (b ∷ bs) rest t ts e r = ground arith

-- A message whose numbers, strings and sizes fit the writer's forms is read back token by token, with
-- fuel for one step more than it has tokens.
pub unpack_all-pack_all :
    (ts : List Token) (f : ℕ)
    → All Fits ts
    → length ts < f
    → unpack_all f (pack_all [] ts) ≡ some ts
unfolding pack_all
unpack_all-pack_all ts zero fits h = elim h [ ]
unpack_all-pack_all [] (suc f) fits h = unfold unpack_all in refl
unpack_all-pack_all (t ∷ ts) (suc f) (fit, fits) h =
    unpack_all_step f _ (pack_all [] ts) t ts
      (ap unpack (pack_all_appends (pack [] t) ts) ∙ unpack-pack t (pack_all [] ts) fit)
      (unpack_all-pack_all ts f fits (omega arith))

-- Two such messages with the same bytes are the same message, so what is hashed and signed says which
-- order is meant.
pub pack_all_injective :
    (ts us : List Token) → All Fits ts → All Fits us → pack_all [] ts ≡ pack_all [] us → ts ≡ us
pack_all_injective ts us fits fits' e =
    let fuel = suc (length ts + length us) in
    some-injective _ _ (
      sym (unpack_all-pack_all ts fuel fits (omega arith))
      ∙ ap (unpack_all fuel) e
      ∙ unpack_all-pack_all us fuel fits' (omega arith))
