-- ===== src/NativeHyperliquid/Client.antt =====
-- The client's configuration and its table of coins, and the numbers of an order as text. HTTP, the signing
-- curve, the channel and the clock are what a call finds: none is an exception.
use Prim.Native.String.{String, len}
use text.Mathlib.Text.{starts_with, ◌==◌ as str_eq}
use hl_maker_lighter_arb_cpp.Common.{
  ℕ, zero, suc, ◌+◌, ◌-◌, Bool, true, false, ◌&&◌, Option, none, some, List, [], ◌∷◌, ◌==◌,
  if◌then◌else◌,
}
use hl_maker_lighter_arb_cpp.Common.Int.{ℤ}
use hl_maker_lighter_arb_cpp.Double.{Double, lit, ◌*ᵈ◌, ◌/ᵈ◌, ◌-ᵈ◌, ◌≤ᵈ◌}
use hl_maker_lighter_arb_cpp.Scan.{find_from, drop, span, is_digit, is_char, not_quote}
use hl_maker_lighter_arb_cpp.Convert.{Conversions, stoi}

pub record HyperliquidConfig : Type 0 where
  pub private_key : String
  pub vault_address : Option String

pub record MetaEntry : Type 0 where
  pub asset : ℕ
  pub sz_decimals : ℤ

-- `meta_`: the first entry of a name counts, as with `emplace`.
abbrev pub Meta : Type 0
Meta = List (String × MetaEntry)

-- What one call finds outside: the bodies of the queries of the coins and of the book, the clock, the
-- recoverable signature of a digest under a key (64 bytes and the recovery number), and the channel, if one
-- is set, which answers what is posted.
pub record World : Type 0 where
  pub meta_body : Option String
  pub book_body : Option String
  pub now_ms : ℕ
  pub sign : List ℕ → List ℕ → Option (List ℕ × ℕ)
  pub action_transport : Option (String → String)

unfoldable pub find_meta : String → Meta → Option MetaEntry
find_meta coin [] = none
find_meta coin ((name, entry) ∷ meta) = if str_eq name coin then some entry else find_meta coin meta

-- The digits and the name of `([0-9]+),"name":"([^"]+)"` at the front of a text.
unfoldable pub match_entry : String → Option (String × String)
match_entry s =
    let decimals = span is_digit s in
    let middle = drop s (len decimals) in
    let name = span not_quote (drop middle 9) in
    if 0 == len decimals
    then none
    else if starts_with middle ",\"name\":\""
    then (if 0 == len name
        then none
        else if starts_with (drop middle (9 + len name)) "\""
        then some (decimals, name)
        else none)
    else none

-- The entries that were stored, and whether `std::stoi` threw on the next one.
pub record Fetched : Type 0 where
  pub meta : Meta
  pub threw : Bool

abbrev stored : String → MetaEntry → Fetched → Fetched
stored name entry f = record f { meta = (name, entry) ∷ f.meta }

-- The matches of the pattern in turn, each behind the one before, from position `p`; `asset` counts them.
-- Each round moves on, so that one more round than there are bytes is enough.
unfoldable pub entries : ℕ → String → ℕ → ℕ → Fetched
entries zero s p asset = record { meta = []; threw = false }
entries (suc f) s p asset = elim (find_from s "{\"szDecimals\":" p) [
  | none ↦ record { meta = []; threw = false }
  | some q ↦ elim (match_entry (drop s (q + 14))) [
    | none ↦ entries f s (suc q) asset
    | some (decimals, name) ↦ elim (stoi decimals) [
      | none ↦ record { meta = []; threw = true }
      | some n ↦
          stored name (record { asset = asset; sz_decimals = n })
            (entries f s (q + 14 + len decimals + 9 + len name + 1) (suc asset))
    ]
  ]
]

-- `ensure_meta`: the table after it, and whether it threw.
unfoldable pub ensure_meta : Meta → World → Fetched
ensure_meta (m ∷ meta) w = record { meta = m ∷ meta; threw = false }
ensure_meta [] w = elim w.meta_body [
  | none ↦ record { meta = []; threw = true }
  | some body ↦ entries (suc (len body)) body 0 0
]

-- `meta_for_coin`, behind `ensure_meta`.
unfoldable pub meta_for_coin : Fetched → String → Option MetaEntry
meta_for_coin f coin = if f.threw then none else find_meta coin f.meta

-- What `<cmath>` and a stream with fixed precision 8 compute.
pub record Formats (W : Type 0) : Type 0 where
  pub fixed_8 : W → String
  pub round : W → W
  pub floor : W → W
  pub log_10 : W → W
  pub pow_10 : W → W

-- `while (!out.empty() && out.back() == '0') out.pop_back();`
unfoldable pub drop_zeros : String → String
drop_zeros String.[] = String.[]
drop_zeros (String.◌∷◌ c s) =
    let rest = drop_zeros s in
    if 0 == len rest && is_char b'0' c then String.[] else String.◌∷◌ c rest

-- `if (!out.empty() && out.back() == '.') out.pop_back();`
unfoldable pub drop_point : String → String
drop_point String.[] = String.[]
drop_point (String.◌∷◌ c s) =
    let rest = drop_point s in if 0 == len s && is_char b'.' c then String.[] else String.◌∷◌ c rest

unfoldable pub trim_number : String → String
trim_number s = let out = drop_point (drop_zeros s) in if 0 == len out then "0" else out

module _ {W : Type 0} ⦃d : Double W⦄ ⦃c : Conversions W⦄ ⦃f : Formats W⦄ where
  unfoldable pub float_to_wire : W → String
  float_to_wire value = trim_number (f.fixed_8 value)

  unfoldable pub round_sig_figs : W → ℕ → W
  round_sig_figs value sig_figs =
      let scale = f.pow_10 (lit (sig_figs - 1) 0 -ᵈ f.floor (f.log_10 (d.fabs value))) in
      if (value ≤ᵈ lit 0 0) && (lit 0 0 ≤ᵈ value)
      then lit 0 0
      else f.round (value *ᵈ scale) /ᵈ scale

  -- `std::round(size * std::pow(10.0, n)) / std::pow(10.0, n)`
  unfoldable pub round_size : W → ℤ → W
  round_size size n = f.round (size *ᵈ c.pow_10 n) /ᵈ c.pow_10 n
