-- ===== src/Feed/Silence.antt =====
-- A venue whose feed is silent stops the trading.
use hl_maker_lighter_arb_cpp.Common.{ℕ, ◌+◌, ◌≤◌, ◌≡◌, ◌⊎◌, inl, inr, true, arith}
use hl_maker_lighter_arb_cpp.Common.Int.{pos, ltb_ℤ}
use hl_maker_lighter_arb_cpp.Double.{Double}
use hl_maker_lighter_arb_cpp.Engine.HlMaker.Rate.{placements}
use hl_maker_lighter_arb_cpp.Live.Defs.{Live, Tick, tick, is_stale}
use hl_maker_lighter_arb_cpp.Live.KillSwitch.{HasBids, stale_quotes_halt}
use hl_maker_lighter_arb_cpp.Feed.Market.{AtomicBbo, MarketFeed, load, snapshot}

-- No quote yet, or none for 5001 ms.
abbrev pub Silent : {W : Type 0} → AtomicBbo W → ℕ → Type 0
Silent b now_ns = (b.last_update_ns ≡ 0) ⊎ (b.last_update_ns + 5_001_000_000 ≤ now_ns)

module _ {W : Type 0} where
  Silent-load :
      (b : AtomicBbo W) (now_ns : ℕ)
      → Silent b now_ns
      → ltb_ℤ (pos 5000) (load b now_ns).quote_age_ms ≡ true
  unfolding load
  Silent-load b now_ns (inl never) = ground arith
  Silent-load b now_ns (inr old) = ground arith

module _ {W : Type 0} ⦃d : Double W⦄ where
  -- If one venue has sent no usable quote for 5001 ms, a tick with the feed's snapshot leaves the kill switch
  -- on and places no order. Both venues have had a bid above 0.
  pub stale_venue_halts :
      (l : Live W) (t : Tick W) (f : MarketFeed W) (hl_now_ns lighter_now_ns : ℕ)
      → t.snap ≡ snapshot f hl_now_ns lighter_now_ns
      → HasBids t
      → (Silent f.hl_bbo hl_now_ns ⊎ Silent f.lighter_bbo lighter_now_ns)
      → let o = tick l t in (o.engine.risk.kill_switch ≡ true) × (placements o.sent ≡ 0)
  unfolding is_stale snapshot
  stale_venue_halts l t f hl_now_ns lighter_now_ns seen bids silent =
      let stale : is_stale t ≡ true = elim silent [
        | inl hl ↦ let old = Silent-load f.hl_bbo hl_now_ns hl in rw seen (ground arith)
        | inr lighter ↦
            let old = Silent-load f.lighter_bbo lighter_now_ns lighter in rw seen (ground arith)
      ] in
      let (on, none_placed, _, _) = stale_quotes_halt l t bids stale in (on, none_placed)
