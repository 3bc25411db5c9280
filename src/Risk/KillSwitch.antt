-- ===== src/Risk/KillSwitch.antt =====
-- The kill switch of RiskGuard over any sequence of reports.
use Prim.Native.String.{String}
use Prim.Native.Nat.{max}
use hl_maker_lighter_arb_cpp.Common.{
  ◌↔◌, ◌<◌, ℕ, suc, ◌≤◌, ◌≡◌, refl, true, List, [], ◌∷◌, All, arith, leb,
}
use hl_maker_lighter_arb_cpp.Common.Int.{pos, ◌+ℤ◌}
use hl_maker_lighter_arb_cpp.Double.{Double}
use hl_maker_lighter_arb_cpp.Types.{SpreadSnapshot}
use hl_maker_lighter_arb_cpp.Risk.Defs.{
  RiskGuard, RiskConfig, kill_switch_active, construct, check_new_entry, on_hedge_failure,
  on_hedge_success, activate_kill_switch, reset_kill_switch, set_exposure,
}

pub data Report (W : Type 0) : Type 0 where
  hedge_failure hedge_success : Report W
  activate : String → Report W
  reset : Report W
  exposure : W → Report W

-- The most hedge failures in a row, with no success between, where `n` came just before and `p` is the
-- most so far.
abbrev pub longest_streak : {W : Type 0} → ℕ → ℕ → List (Report W) → ℕ
longest_streak p n [] = p
longest_streak p n (hedge_failure ∷ rs) = longest_streak (max p (suc n)) (suc n) rs
longest_streak p n (hedge_success ∷ rs) = longest_streak p 0 rs
longest_streak p n (_ ∷ rs) = longest_streak p n rs

abbrev pub IsReset : {W : Type 0} → Report W → Type 0
IsReset reset = Unit
IsReset _ = ⊥

abbrev pub IsManual : {W : Type 0} → Report W → Type 0
IsManual reset = Unit
IsManual (activate reason) = Unit
IsManual _ = ⊥

module _ {W : Type 0} ⦃d : Double W⦄ where
  unfoldable pub report : RiskGuard W → Report W → RiskGuard W
  report g hedge_failure = on_hedge_failure g
  report g hedge_success = on_hedge_success g
  report g (activate reason) = activate_kill_switch g reason
  report g reset = reset_kill_switch g
  report g (exposure x) = set_exposure g x

  unfoldable pub report_all : RiskGuard W → List (Report W) → RiskGuard W
  report_all g [] = g
  report_all g (r ∷ rs) = report_all (report g r) rs

  -- The guard has counted `n` failures in a row and at most `p`, out of `m` allowed.
  record Counted (g : RiskGuard W) (m p n : ℕ) : Type 0 where
    limit : g.config.max_consecutive_hedge_failures ≡ pos m
    count : g.consecutive_hedge_failures ≡ pos n
    switch : g.kill_switch ≡ leb m p

  report_all-Counted :
      (g : RiskGuard W) (rs : List (Report W)) (m p n : ℕ)
      → Counted g m p n
      → All (λ r. ¬ IsManual r) rs
      → (report_all g rs).kill_switch ≡ leb m (longest_streak p n rs)
  unfolding report_all report on_hedge_failure on_hedge_success set_exposure ◌+ℤ◌
  report_all-Counted g [] m p n c no_manual = c.switch
  report_all-Counted g (hedge_failure ∷ rs) m p n c (_, no_manual) =
      report_all-Counted (on_hedge_failure g) rs m (max p (suc n)) (suc n)
        (record { limit = ground arith; count = ground arith; switch = ground arith }) no_manual
  report_all-Counted g (hedge_success ∷ rs) m p n c (_, no_manual) =
      report_all-Counted (on_hedge_success g) rs m p 0
        (record { limit = c.limit; count = refl; switch = c.switch }) no_manual
  report_all-Counted g (exposure x ∷ rs) m p n c (_, no_manual) =
      report_all-Counted (set_exposure g x) rs m p n
        (record { limit = c.limit; count = c.count; switch = c.switch }) no_manual
  report_all-Counted g (activate reason ∷ rs) m p n c (never, _) = absurd (never tt)
  report_all-Counted g (reset ∷ rs) m p n c (never, _) = absurd (never tt)

  -- As long as nobody sets or resets it by hand, the kill switch of a new guard is on exactly if at
  -- some time as many hedges in a row had failed as the configuration allows.
  pub kill_switch_iff_streak :
      (c : RiskConfig W) (m : ℕ) (rs : List (Report W))
      → c.max_consecutive_hedge_failures ≡ pos m
      → 0 < m
      → All (λ r. ¬ IsManual r) rs
      → ((report_all (construct c) rs).kill_switch ≡ true) ↔ (m ≤ longest_streak 0 0 rs)
  unfolding construct
  kill_switch_iff_streak c m rs e h no_manual =
      let known =
        report_all-Counted (construct c) rs m 0 0
          (record { limit = e; count = refl; switch = ground arith }) no_manual in
      (λ on. ground arith, λ long. ground arith)

  switch_stays :
      (g : RiskGuard W) (rs : List (Report W))
      → g.kill_switch ≡ true
      → All (λ r. ¬ IsReset r) rs
      → (report_all g rs).kill_switch ≡ true
  unfolding report_all report on_hedge_failure on_hedge_success activate_kill_switch set_exposure
  switch_stays g [] on no_reset = on
  switch_stays g (hedge_failure ∷ rs) on (_, no_reset) =
      switch_stays (on_hedge_failure g) rs (ground arith) no_reset
  switch_stays g (reset ∷ rs) on (never, _) = absurd (never tt)
  switch_stays g (hedge_success ∷ rs) on (_, no_reset) =
      switch_stays (on_hedge_success g) rs on no_reset
  switch_stays g (activate reason ∷ rs) on (_, no_reset) =
      switch_stays (activate_kill_switch g reason) rs refl no_reset
  switch_stays g (exposure x ∷ rs) on (_, no_reset) = switch_stays (set_exposure g x) rs on no_reset

  -- Once the kill switch is on, every entry is refused for it, whatever is reported and whatever the
  -- market does, until `reset_kill_switch`.
  kill_switch_blocks :
      (g : RiskGuard W) (rs : List (Report W)) (size : W) (s : SpreadSnapshot W)
      → g.kill_switch ≡ true
      → All (λ r. ¬ IsReset r) rs
      → check_new_entry (report_all g rs) size s ≡ kill_switch_active
  unfolding check_new_entry
  kill_switch_blocks g rs size s on no_reset = rw (switch_stays g rs on no_reset)
