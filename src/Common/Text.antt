-- ===== src/Common/Text.antt =====
-- std::to_string.
use Prim.Native.String.{String, slice, ◌++◌}
use Prim.Native.Nat.{ℕ, zero, suc, ◌+◌, ◌%◌, ◌/◌}
use mathlib.Core.Path.{◌≡◌, refl}
use hl_maker_lighter_arb_cpp.Common.Tests.{ltb, if◌then◌else◌}
use hl_maker_lighter_arb_cpp.Common.Int.{ℤ, pos, negsuc}

-- The decimal digits of a number, on fuel that bounds how many there are.
unfoldable pub decimal : ℕ → ℕ → String
decimal zero n = ""
decimal (suc f) n =
    let last = slice "0123456789" (n % 10) (n % 10 + 1) in
    let front = decimal f (n / 10) in if ltb n 10 then last else front ++ last

-- A number has no more digits than one more than itself.
unfoldable pub to_string : ℤ → String
unfolding decimal
to_string (pos n) = decimal (suc n) n
to_string (negsuc n) = "-" ++ decimal (suc (suc n)) (suc n)

to_string_1207 : to_string (pos 1207) ≡ "1207"
unfolding to_string decimal
to_string_1207 = refl
