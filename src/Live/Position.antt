-- ===== src/Live/Position.antt =====
-- `query_hl_position`: the position that the loop takes over once the fill feed is back.
use Prim.Native.String.{String, ◌++◌}
use hl_maker_lighter_arb_cpp.Common.{ℕ, ◌+◌, ◌-◌, not, Option, none, some, ◌==◌, if◌then◌else◌}
use hl_maker_lighter_arb_cpp.Double.{Double, lit}
use hl_maker_lighter_arb_cpp.Scan.{◌>>=◌, or_else, find_from, substr}
use hl_maker_lighter_arb_cpp.Convert.{Conversions}

pub record HttpResponse : Type 0 where
  pub status_code : ℕ
  pub body : String

-- The position in the first account entry of the coin; none where one of its parts is missing, and where
-- `std::stod` throws.
unfoldable pub position_text : String → String → Option String
position_text body coin = find_from body ("\"coin\":\"" ++ (coin ++ "\"")) 0 >>= (λ coin_pos.
    find_from body "\"szi\":\"" coin_pos >>= (λ szi_pos.
      find_from body "\"" (szi_pos + 7)
      >>= (λ szi_end. some (substr body (szi_pos + 7) (szi_end - (szi_pos + 7))))))

module _ {W : Type 0} ⦃d : Double W⦄ ⦃c : Conversions W⦄ where
  -- What a response says; a response of none is an exception of the HTTP client.
  unfoldable pub read_hl_position : Option HttpResponse → String → Option W
  read_hl_position response coin = response >>= (λ r.
      if not (r.status_code == 200)
      then none
      else position_text r.body coin >>= (λ text. c.stod text))

  -- Every failure is a position of 0.
  unfoldable pub query_hl_position : Option HttpResponse → String → W
  query_hl_position response coin = or_else (read_hl_position response coin) (lit 0 0)
