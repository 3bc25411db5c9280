-- ===== src/Transport.antt =====
-- The two request channels that orders go out on: src/hl_ws_post.cpp (many requests in flight, told
-- apart by id) and src/lighter_ws_sendtx.cpp (one request in flight).
pub mod HlPost
pub mod LighterSendTx
use Prim.Native.String.{String, ◌++◌}

unfoldable pub make_error_body : String → String
make_error_body message = "{\"status\":\"error\",\"error\":\"" ++ (message ++ "\"}")
