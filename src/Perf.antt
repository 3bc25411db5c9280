-- ===== src/Perf.antt =====
-- src/perf.cpp: counters of samples by metric, which many threads fill and the event loop drains.
pub mod Maximum
pub mod Sampling
use Prim.Native.String.{String}
use hl_maker_lighter_arb_cpp.Common.{
  ℕ, ◌+◌, ◌%◌, ◌^◌, Bool, true, false, List, [], ◌∷◌, ◌==◌, ltb, if◌then◌else◌,
}
use hl_maker_lighter_arb_cpp.Common.Int.{pos}
use hl_maker_lighter_arb_cpp.Double.{Double, lit, ◌/ᵈ◌}
use hl_maker_lighter_arb_cpp.Convert.{Conversions}

pub data PerfMetric : Type 0 where
  hl_market_local_rx_to_bbo_update_ns lighter_market_local_rx_to_bbo_update_ns hl_quote_age_ms
        lighter_quote_age_ms cross_venue_alignment_ms strategy_decision_ns
        signal_to_hl_maker_send_ns hl_maker_send_to_ack_ns hl_maker_resting_lifetime_ns
        cancel_trigger_to_hl_cancel_send_ns hl_cancel_send_to_ack_ns
        hl_fill_local_rx_to_lighter_send_ns lighter_nonce_fetch_ns lighter_sign_order_ns
        lighter_send_tx_ack_ns hl_fill_to_lighter_http_ack_total_ns lighter_send_to_http_ack_ns
        lighter_http_ack_to_fill_confirm_ns lighter_send_to_ack_ns maker_fill_to_taker_ack_total_ns
        hedge_failure_to_unwind_send_ns unwind_send_to_ack_ns :
      PerfMetric

-- The metrics in the order of their values, without `Count`.
abbrev metrics : List PerfMetric
metrics =
    hl_market_local_rx_to_bbo_update_ns ∷ lighter_market_local_rx_to_bbo_update_ns ∷ hl_quote_age_ms
    ∷ lighter_quote_age_ms ∷ cross_venue_alignment_ms ∷ strategy_decision_ns
    ∷ signal_to_hl_maker_send_ns ∷ hl_maker_send_to_ack_ns ∷ hl_maker_resting_lifetime_ns
    ∷ cancel_trigger_to_hl_cancel_send_ns ∷ hl_cancel_send_to_ack_ns
    ∷ hl_fill_local_rx_to_lighter_send_ns ∷ lighter_nonce_fetch_ns ∷ lighter_sign_order_ns
    ∷ lighter_send_tx_ack_ns ∷ hl_fill_to_lighter_http_ack_total_ns ∷ lighter_send_to_http_ack_ns
    ∷ lighter_http_ack_to_fill_confirm_ns ∷ lighter_send_to_ack_ns
    ∷ maker_fill_to_taker_ack_total_ns ∷ hedge_failure_to_unwind_send_ns ∷ unwind_send_to_ack_ns
    ∷ []

unfoldable pub index : PerfMetric → ℕ
index hl_market_local_rx_to_bbo_update_ns = 0
index lighter_market_local_rx_to_bbo_update_ns = 1
index hl_quote_age_ms = 2
index lighter_quote_age_ms = 3
index cross_venue_alignment_ms = 4
index strategy_decision_ns = 5
index signal_to_hl_maker_send_ns = 6
index hl_maker_send_to_ack_ns = 7
index hl_maker_resting_lifetime_ns = 8
index cancel_trigger_to_hl_cancel_send_ns = 9
index hl_cancel_send_to_ack_ns = 10
index hl_fill_local_rx_to_lighter_send_ns = 11
index lighter_nonce_fetch_ns = 12
index lighter_sign_order_ns = 13
index lighter_send_tx_ack_ns = 14
index hl_fill_to_lighter_http_ack_total_ns = 15
index lighter_send_to_http_ack_ns = 16
index lighter_http_ack_to_fill_confirm_ns = 17
index lighter_send_to_ack_ns = 18
index maker_fill_to_taker_ack_total_ns = 19
index hedge_failure_to_unwind_send_ns = 20
index unwind_send_to_ack_ns = 21

unfoldable pub metric_name : PerfMetric → String
metric_name hl_market_local_rx_to_bbo_update_ns = "hl_market_local_rx_to_bbo_update"
metric_name lighter_market_local_rx_to_bbo_update_ns = "lighter_market_local_rx_to_bbo_update"
metric_name hl_quote_age_ms = "hl_quote_age"
metric_name lighter_quote_age_ms = "lighter_quote_age"
metric_name cross_venue_alignment_ms = "cross_venue_alignment"
metric_name strategy_decision_ns = "strategy_decision"
metric_name signal_to_hl_maker_send_ns = "signal_to_hl_maker_send"
metric_name hl_maker_send_to_ack_ns = "hl_maker_send_to_ack"
metric_name hl_maker_resting_lifetime_ns = "hl_maker_resting_lifetime"
metric_name cancel_trigger_to_hl_cancel_send_ns = "cancel_trigger_to_hl_cancel_send"
metric_name hl_cancel_send_to_ack_ns = "hl_cancel_send_to_ack"
metric_name hl_fill_local_rx_to_lighter_send_ns = "hl_fill_local_rx_to_lighter_send"
metric_name lighter_nonce_fetch_ns = "lighter_nonce_fetch"
metric_name lighter_sign_order_ns = "lighter_sign_order"
metric_name lighter_send_tx_ack_ns = "lighter_sendtx_ack"
metric_name hl_fill_to_lighter_http_ack_total_ns = "hl_fill_to_lighter_http_ack_total"
metric_name lighter_send_to_http_ack_ns = "lighter_send_to_http_ack"
metric_name lighter_http_ack_to_fill_confirm_ns = "lighter_http_ack_to_fill_confirm"
metric_name lighter_send_to_ack_ns = "lighter_send_to_ack"
metric_name maker_fill_to_taker_ack_total_ns = "maker_fill_to_taker_ack_total"
metric_name hedge_failure_to_unwind_send_ns = "hedge_failure_to_unwind_send"
metric_name unwind_send_to_ack_ns = "unwind_send_to_ack"

unfoldable pub unit_name : PerfMetric → String
unit_name metric = "ms"

unfoldable pub metric_uses_raw_ms : PerfMetric → Bool
metric_uses_raw_ms hl_quote_age_ms = true
metric_uses_raw_ms lighter_quote_age_ms = true
metric_uses_raw_ms cross_venue_alignment_ms = true
metric_uses_raw_ms other = false

-- The metrics whose line ends in " sampled=1".
unfoldable pub is_sampled : PerfMetric → Bool
is_sampled hl_market_local_rx_to_bbo_update_ns = true
is_sampled lighter_market_local_rx_to_bbo_update_ns = true
is_sampled hl_quote_age_ms = true
is_sampled lighter_quote_age_ms = true
is_sampled cross_venue_alignment_ms = true
is_sampled strategy_decision_ns = true
is_sampled other = false

pub record Counter : Type 0 where
  pub count : ℕ
  pub sum : ℕ
  pub max : ℕ

pub record PerfCollector : Type 0 where
  pub counters : ℕ → Counter

unfoldable pub add_sample : ℕ → Counter → Counter
add_sample value counter = record {
  count = (counter.count + 1) % 2 ^ 64;
  sum = (counter.sum + value) % 2 ^ 64;
  max = if ltb counter.max value then value else counter.max;
}

-- `record_sample`, and `record_trade_path`, on one thread.
unfoldable pub record_sample : PerfMetric → ℕ → PerfCollector → PerfCollector
unfolding add_sample
record_sample metric value c = record {
  counters = λ i. if i == index metric then add_sample value (c.counters i) else c.counters i;
}

-- `record_hot_path` on a thread whose `seq` is given: every 64th call is a sample.
unfoldable pub record_hot_path : PerfMetric → ℕ → ℕ → PerfCollector → ℕ × PerfCollector
record_hot_path metric value seq c =
    let next = (seq + 1) % 2 ^ 32 in
    if next % 64 == 0 then (next, record_sample metric value c) else (next, c)

-- A line of the summary, with the numbers before they are written.
pub record SummaryLine (W : Type 0) : Type 0 where
  pub metric : String
  pub samples : ℕ
  pub mean : W
  pub max : W
  pub unit : String
  pub sampled : Bool

module _ {W : Type 0} ⦃d : Double W⦄ ⦃c : Conversions W⦄ where
  unfoldable pub in_unit : PerfMetric → W → W
  in_unit metric value = if metric_uses_raw_ms metric then value else value /ᵈ lit 1_000_000 0

  unfoldable pub summary_line : PerfMetric → Counter → SummaryLine W
  summary_line metric counter = record {
    metric = metric_name metric;
    samples = counter.count;
    mean = in_unit metric (c.from_int (pos counter.sum) /ᵈ c.from_int (pos counter.count));
    max = in_unit metric (c.from_int (pos counter.max));
    unit = unit_name metric;
    sampled = is_sampled metric;
  }

  unfoldable pub drain_lines : List PerfMetric → PerfCollector → List (SummaryLine W)
  drain_lines [] c = []
  drain_lines (metric ∷ rest) c =
      let counter = c.counters (index metric) in
      let lines = drain_lines rest c in
      if counter.count == 0 then lines else summary_line metric counter ∷ lines

  -- The lines of the metrics with a sample, and the counters at 0 again.
  unfoldable pub drain_summary_lines : PerfCollector → PerfCollector × List (SummaryLine W)
  drain_summary_lines c = (
    record {
      counters = λ i. if ltb i 22 then record { count = 0; sum = 0; max = 0 } else c.counters i;
    },
    drain_lines metrics c,
  )
