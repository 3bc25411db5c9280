-- ===== src/Lib.antt =====
-- Verification of hl-maker-lighter-arb-cpp, a program that trades the spread between two venues,
-- Hyperliquid and Lighter: it rests a maker order on one of them and hedges each fill at once with a
-- taker order on the other.
--
-- The parts and their files:
--   Types        include/arb/types.hpp: quotes, snapshots, orders, actions, the states.
--   Strategy     src/strategy.cpp: the prices (Strategy/Pricing) and the two state machines,
--                HlMakerLighterHedger (Strategy/HlMaker) and LighterMakerHlHedger
--                (Strategy/LighterMaker). In each, Defs has the methods, Trace the sequences of calls.
--   Exchange     include/arb/exchange.hpp: requests and answers, and the venues themselves.
--   Engine       src/engine.cpp: the engines that carry out the actions of a state machine.
--                Engine/HlMaker is MakerHedgeEngine: State (its fields and small methods), Execute
--                (execute_action), Fill (on_hl_fill), MarketData (on_market_data, the deferred action,
--                the reports on a hedge), TradeEvent (on_trade_event), Trace (sequences of events), Ready
--                and Late (fills of cancelled orders).
--                Engine/LighterMaker is LighterMakerTakerEngine: State, Execute, and Handlers
--                (on_market_data, the deferred action, on_lighter_fill, on_hl_hedge_reject).
--   Live         src/main_live.cpp. Under the policy HlMakerLtTaker: Defs (a tick: the kill switch decides
--                whether it reaches the engine), Queues (the queues of fills and trades, and a pass of the
--                loop), Position (query_hl_position), Config (the environment), KillSwitch, Outage
--                and Passes (what a lost feed stops, and what it does not). Under LtMakerHlTaker:
--                LighterPolicy (a pass of the loop) and Halted (fills while quotes are stale).
--   Scan         std::string searches, digits, and std::regex with a literal prefix and suffix.
--   Convert      std::stoi and its kin, and the conversions of `double` as an interface.
--   Transport    Transport/HlPost is src/hl_ws_post.cpp: Parse (what a response says), Table (the
--                requests in flight), Waiting and Answers (who gets which answer), Locks (its two kinds
--                of mutex as a step relation). Transport/LighterSendTx is src/lighter_ws_sendtx.cpp.
--   Connection   src/ws_client.cpp: one connection, its queue of messages and its reconnects, with Reconnect
--                (sequences of what happens to it), Delivery (what becomes of queued messages) and
--                Outbox (the connection as a bag of messages). A callback that throws ends its thread.
--   NativeLighter  src/native_trading.cpp, NativeLighterTrading: Client (set-up, nonces, the position
--                query), Limit (place_limit_order, cancel_order), Ioc (place_ioc_order), Nonce
--                (next_nonce on many threads), Confirmed, Moved, Cancelled and Codes (what an answer means).
--   Feed         src/market_feed.cpp: HlParse and LighterParse (the messages), Loop and Termination (their
--                loops), Market (MarketFeed), Fills (HlFillFeed), Account (LighterPositionFeed and
--                LighterAccountFeed), Quotes and Orders (what they keep), Silence (a silent feed and the
--                event loop), Confirm (the account's feed and the client of Lighter).
--   Risk         src/risk.cpp: RiskGuard, its limits and its kill switch.
--   Msgpack      src/msgpack.cpp: the writer of the messages that are hashed and signed (Pack), and a
--                reader of the format written from its description alone (Unpack).
--   Crypto       src/crypto.cpp: Permutation (keccakf), Hash (keccak256), Hex (hexadecimal text);
--                Reference is Keccak as its specification gives it, and Equivalence, Sponge and Digest
--                lead from the code to it.
--   NativeHyperliquid  src/native_trading.cpp, NativeHyperliquidTrading: Client (the table of coins,
--                numbers as text), Action (an order as JSON and as bytes), Sign (the hash, the digest),
--                Orders (the four calls and their answers), Preimage, Signed and Answers (what is hashed,
--                what is posted, what an answer means), Fixed (the formats of the examples).
--   Perf         src/perf.cpp: the counters, Maximum (its compare-and-exchange on many threads) and
--                Sampling (which calls of the hot path count).
--   Double       the arithmetic of `double` as an interface, its order laws, and a fixed-point instance.
--   Common       tests, lists and integers that the parts share.
--   Examples     a market, an engine and venues at concrete numbers; tests and applied theorems.
--
-- How the code is rendered. A class is a record of its fields; a method is a function from the record
-- and its arguments to the record after it, with what it returns. A handler of an engine returns an
-- Outcome: the engine after it, the calls it made to the venues in order, its log lines and its journal
-- entries. What the venues and clocks answer in one run of a handler is a record, Answers, which is a
-- parameter: a theorem that takes it as an argument holds for any venue. on_market_data runs two
-- actions in a row in one case, so it takes two of them. A constructor that throws returns
-- invalid_argument.
--
-- Numbers. `double` is a type W with operations and tests of which nothing is assumed, except where a
-- theorem takes the order laws IsOrdered; these hold of IEEE arithmetic, NaN included. int64 clock
-- readings and the `int` counters are unbounded integers. The bytes of the message writer are numbers
-- modulo 256, its sizes modulo 2 ^ 32. The reader of whole messages runs on fuel; one unit more than the
-- message has tokens is enough.
--
-- Texts and threads. A position in a text is a byte position, as in std::string; a loop over the objects
-- of a message runs on fuel, one round more than the message has bytes, which is enough. A function that
-- waits is two functions, before and after the wait; what arrives in between are steps of others. An
-- exception is none. Several threads are a step relation, one step for each atomic access or critical
-- section. The signer library, HTTP, the clocks and strtod are parameters.
--
-- Crypto. A word is a number below 2 ^ 64 and a byte one below 256; a shift to the left and the complement
-- are cut to 64 bits. The loop over full blocks runs on as much fuel as the message has bytes, which is
-- enough, since each round takes 136. The signature itself is a parameter: what is signed is not.
--
-- Not modelled: the sockets and pings of src/ws_client.cpp, HTTP, the elliptic curve, the journal's file, the
-- threads and the output of src/main_live.cpp, and the command-line tools, which are input and output,
-- threads and calls of libraries, or are not reached yet; the calls of the performance counters but for
-- those of a tick, the latency trace and the text of log lines, which no decision reads.
pub mod Common
pub mod Double
pub mod Types
pub mod Strategy
pub mod Risk
pub mod Msgpack
pub mod Exchange
pub mod Engine
pub mod Live
pub mod Scan
pub mod Convert
pub mod Transport
pub mod Connection
pub mod Perf
pub mod Crypto
pub mod NativeHyperliquid
pub mod NativeLighter
pub mod Feed
pub mod Examples
