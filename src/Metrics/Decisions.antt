-- ===== src/Metrics/Decisions.antt =====
-- `DecisionLog`, the counts of decisions and `AlertManager` of
-- rust/crates/metrics_observability/src/lib.rs. A reason is counted under its discriminant.
use ibkr_bot.Base.{
  ℕ, nat_eq, String, Bool, true, false, Option, some, none, List, [], ◌∷◌, ◌++◌, ◌==◌,
  if◌then◌else◌, leb, length,
}
use ibkr_bot.Base.Map.{lookup, insert}
use ibkr_bot.Base.Float.{Float}
use ibkr_bot.Base.Int.{ℤ, add_u64}
use ibkr_bot.Core.Types.{
  SymbolId, RejectReason, blocklist, corporate_action_block, price_range, liquidity, regime,
  daily_context, mtf_veto, anti_chase, guard_spread, guard_imbalance, guard_stale, guard_slippage,
  guard_l2_vacuum, guard_flicker, tape_score_low, net_negative, exposure, tape_reversal,
  monitor_only, max_daily_loss, pdt_violation, unknown, ColdStartState, cold_start, RegimeState,
  normal,
}
use ibkr_bot.Metrics.{MetricsCollector}

pub data DecisionAction : Type 0 where
  enter reject : DecisionAction

pub record DecisionLog (F : Type 0) : Type 0 where
  pub symbol_id : SymbolId
  pub timestamp : ℕ
  pub action : DecisionAction
  pub reject_reason : Option RejectReason
  pub secondary_reasons : List (Option RejectReason)
  pub gate_blocklist : Bool
  pub gate_corporate : Bool
  pub gate_price_range : Bool
  pub gate_universe : Bool
  pub gate_regime : Bool
  pub gate_daily_context : Bool
  pub gate_mtf : Bool
  pub gate_anti_chase : Bool
  pub gate_guards : Bool
  pub r_score : F
  pub a_score : F
  pub lp_score : F
  pub spr_score : F
  pub abs_score : F
  pub bls_score : F
  pub tape_score : F
  pub tape_score_threshold : F
  pub price : F
  pub expected_net : F
  pub expected_gross : F
  pub total_fees : F
  pub expected_slippage : F
  pub latency_src_rx : ℕ
  pub latency_rx_proc : ℕ
  pub latency_proc_decision : ℕ
  pub cold_start_state : ColdStartState
  pub regime_state : RegimeState

abbrev pub new_reject : {F : Type 0} ⦃f : Float F⦄ → SymbolId → ℕ → RejectReason → DecisionLog F
new_reject ⦃f⦄ symbol_id timestamp reason = record {
  symbol_id = symbol_id;
  timestamp = timestamp;
  action = reject;
  reject_reason = some reason;
  secondary_reasons = none ∷ none ∷ none ∷ [];
  gate_blocklist = true;
  gate_corporate = true;
  gate_price_range = true;
  gate_universe = true;
  gate_regime = true;
  gate_daily_context = true;
  gate_mtf = true;
  gate_anti_chase = true;
  gate_guards = true;
  r_score = f.lit 0 0;
  a_score = f.lit 0 0;
  lp_score = f.lit 0 0;
  spr_score = f.lit 0 0;
  abs_score = f.lit 0 0;
  bls_score = f.lit 0 0;
  tape_score = f.lit 0 0;
  tape_score_threshold = f.lit 0 0;
  price = f.lit 0 0;
  expected_net = f.lit 0 0;
  expected_gross = f.lit 0 0;
  total_fees = f.lit 0 0;
  expected_slippage = f.lit 0 0;
  latency_src_rx = 0;
  latency_rx_proc = 0;
  latency_proc_decision = 0;
  cold_start_state = cold_start;
  regime_state = normal;
}

abbrev pub is_enter : DecisionAction → Bool
is_enter enter = true
is_enter reject = false

-- `reason as u8`.
abbrev pub reason_code : RejectReason → ℕ
reason_code blocklist = 0
reason_code corporate_action_block = 1
reason_code price_range = 2
reason_code liquidity = 3
reason_code regime = 4
reason_code daily_context = 5
reason_code mtf_veto = 6
reason_code anti_chase = 7
reason_code guard_spread = 8
reason_code guard_imbalance = 9
reason_code guard_stale = 10
reason_code guard_slippage = 11
reason_code guard_l2_vacuum = 12
reason_code guard_flicker = 13
reason_code tape_score_low = 14
reason_code net_negative = 15
reason_code exposure = 16
reason_code tape_reversal = 17
reason_code monitor_only = 18
reason_code max_daily_loss = 19
reason_code pdt_violation = 20
reason_code unknown = 255

abbrev pub count_of : MetricsCollector → RejectReason → ℕ
count_of c reason = elim (lookup (reason_code reason) c.reject_counts) [ some n ↦ n | none ↦ 0 ]

unfoldable pub count_reason : Option RejectReason → MetricsCollector → MetricsCollector
count_reason none c = c
count_reason (some reason) c = record c {
  reject_counts = insert (reason_code reason) (add_u64 (count_of c reason) 1) c.reject_counts;
}

unfoldable pub record_decision : {F : Type 0} → MetricsCollector → DecisionLog F → MetricsCollector
unfolding count_reason
record_decision c log = count_reason log.reject_reason (record c {
  total_decisions = add_u64 c.total_decisions 1;
  total_entries = if is_enter log.action then add_u64 c.total_entries 1 else c.total_entries;
})

unfoldable pub reject_rate : {F : Type 0} ⦃f : Float F⦄ → MetricsCollector → RejectReason → F
reject_rate ⦃f⦄ c reason =
    if c.total_decisions == 0
    then f.lit 0 0
    else f.over (f.of_nat (count_of c reason)) (f.of_nat c.total_decisions)

pub data Alert : Type 0 where
  data_api_down : Alert
  heartbeat_missing : ℕ → Alert
  sla_breach : ℕ → ℕ → Alert
  daily_loss_limit_reached : ℤ → Alert
  loss_ladder_activated : ℕ → Alert
  order_anomaly : ℕ → String → Alert
  ibkr_subscription_high : ℕ → ℕ → Alert
  mtf_reject_rate_high : ℕ → Alert

-- A deque that drops its oldest entry when it is full.
abbrev pub push_bounded : {A : Type 0} → ℕ → A → List A → List A
push_bounded capacity a [] = a ∷ []
push_bounded capacity a (x ∷ xs) =
    if leb capacity (length (x ∷ xs)) then xs ++ (a ∷ []) else (x ∷ xs) ++ (a ∷ [])

pub record AlertManager : Type 0 where
  pub alerts : List Alert
  pub capacity : ℕ

unfoldable pub raise : AlertManager → Alert → AlertManager
raise m alert = record m { alerts = push_bounded m.capacity alert m.alerts }
