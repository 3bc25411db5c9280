-- ===== src/NativeLighter/Codes.antt =====
-- Which answers the client takes for success.
use Prim.Native.String.{String, ◌++◌}
use hl_maker_lighter_arb_cpp.Common.{◌≡◌, true}
use hl_maker_lighter_arb_cpp.Scan.Bounds.{contains-append}
use hl_maker_lighter_arb_cpp.NativeLighter.Client.{tx_response_ok}

-- The client looks for the text `"code":200` and not for the number: every answer that has it counts as
-- success, whatever follows, so an answer with the code 2001 or 20013 does.
code_prefix_accepted :
    (front rest : String) → tx_response_ok (front ++ ("\"code\":200" ++ rest)) ≡ true
unfolding tx_response_ok
code_prefix_accepted front rest = rw (contains-append front "\"code\":200" rest)
