-- ===== src/Core/Types.antt =====
-- The enums and records of rust/crates/core_types/src/lib.rs that the engines share. A `u32`, `u64`
-- or `usize` is a number; `F` stands for `f64`.
use ibkr_bot.Base.{ℕ, String, Bool, true, Option, ◌≡◌, ◌↔◌, arith, Key, nat_beq}

-- `SymbolId(pub u32)`.
abbrev pub SymbolId : Type 0
SymbolId = ℕ

pub data Side : Type 0 where
  bid ask : Side

pub data OrderType : Type 0 where
  limit market stop stop_limit : OrderType

pub data TimeInForce : Type 0 where
  day gtc ioc fok : TimeInForce

pub record OrderRequest (F : Type 0) : Type 0 where
  pub symbol_id : SymbolId
  pub side : Side
  pub qty : ℕ
  pub order_type : OrderType
  pub limit_price : Option F
  pub stop_price : Option F
  pub tif : TimeInForce
  pub idempotency_key : String
  pub take_profit_price : Option F
  pub stop_loss_price : Option F

pub data OrderStatus : Type 0 where
  pending live filled cancelled rejected pending_cancel : OrderStatus
  cancel_sent cancel_rejected cancel_timeout : OrderStatus

pub record Order (F : Type 0) : Type 0 where
  pub order_id : ℕ
  pub client_order_id : String
  pub broker_order_id : Option String
  pub symbol_id : SymbolId
  pub side : Side
  pub qty : ℕ
  pub filled_qty : ℕ
  pub avg_fill_price : F
  pub order_type : OrderType
  pub limit_price : Option F
  pub stop_price : Option F
  pub status : OrderStatus
  pub created_at : ℕ
  pub updated_at : ℕ

pub data RejectReason : Type 0 where
  blocklist corporate_action_block price_range liquidity regime daily_context : RejectReason
  mtf_veto anti_chase guard_spread guard_imbalance guard_stale guard_slippage : RejectReason
  guard_l2_vacuum guard_flicker tape_score_low net_negative exposure : RejectReason
  tape_reversal monitor_only max_daily_loss pdt_violation unknown : RejectReason

pub data CorporateAction : Type 0 where
  allowed watch block : CorporateAction

pub record TapeComponentScores (F : Type 0) : Type 0 where
  pub r_score : F
  pub a_score : F
  pub lp_score : F
  pub spr_score : F
  pub abs_score : F
  pub bls_score : F
  pub total_score : F

pub record LiquidityConfig (F : Type 0) : Type 0 where
  pub target_price_min : F
  pub target_price_max : F
  pub max_spread_pct : F
  pub min_avg_daily_volume : ℕ
  pub min_addv_usd : F

pub data RegimeState : Type 0 where
  normal caution risk_off : RegimeState

pub data DataQuality : Type 0 where
  ok degraded halted : DataQuality

pub data ContextState : Type 0 where
  undetermined play no_play : ContextState

pub record SectorMomentum (F : Type 0) : Type 0 where
  pub etf_symbol : String
  pub change_pct : F
  pub is_favorable : Bool

pub record VolumeProfile : Type 0 where
  pub current_volume : ℕ
  pub avg_20d_volume : ℕ
  pub is_surge : Bool

pub record DailyContext (F : Type 0) : Type 0 where
  pub symbol_id : SymbolId
  pub state : ContextState
  pub volume_profile : VolumeProfile
  pub has_news : Bool
  pub sector_momentum : Option (SectorMomentum F)

pub record MtfAnalysis : Type 0 where
  pub weekly_trend_confirmed : Bool
  pub daily_resistance_cleared : Bool
  pub structure_4h_bullish : Bool
  pub pullback_15m_valid : Bool
  pub mtf_pass : Bool

pub data Tier : Type 0 where
  a b c : Tier

pub data SubscriptionStatus : Type 0 where
  none pending active error : SubscriptionStatus

pub data ColdStartState : Type 0 where
  cold_start warm_active full_active : ColdStartState

pub record TapeMetrics (F : Type 0) : Type 0 where
  pub price : F
  pub bid : F
  pub ask : F
  pub bid_size : ℕ
  pub ask_size : ℕ
  pub volume : ℕ
  pub rate_ticks_per_sec : F
  pub aggressive_buy_ratio : F
  pub large_print_score : F
  pub absorption_score : F
  pub buy_limit_support_score : F
  pub spread_cents : F
  pub is_reversal : Bool
  pub total_score : F
  pub vwap : F
  pub atr_1m : F
  pub vol_1m : F
  pub avg_depth_top3 : F
  pub atr : F

-- The discriminants, by which a derived `==` compares.
abbrev status_code : OrderStatus → ℕ
status_code OrderStatus.pending = 0
status_code live = 1
status_code filled = 2
status_code cancelled = 3
status_code rejected = 4
status_code pending_cancel = 5
status_code cancel_sent = 6
status_code cancel_rejected = 7
status_code cancel_timeout = 8

pub status_beq_iff :
    (s t : OrderStatus) → (nat_beq (status_code s) (status_code t) ≡ true) ↔ (s ≡ t)
status_beq_iff s t = ground arith

instance abbrev pub status_eq : Key OrderStatus
status_eq = record {
  same = λ s t. nat_beq (status_code s) (status_code t);
  same_iff = status_beq_iff;
}

abbrev side_code : Side → ℕ
side_code bid = 0
side_code ask = 1

pub side_beq_iff : (s t : Side) → (nat_beq (side_code s) (side_code t) ≡ true) ↔ (s ≡ t)
side_beq_iff s t = ground arith

instance abbrev pub side_eq : Key Side
side_eq = record { same = λ s t. nat_beq (side_code s) (side_code t); same_iff = side_beq_iff }

abbrev regime_code : RegimeState → ℕ
regime_code normal = 0
regime_code caution = 1
regime_code risk_off = 2

pub regime_beq_iff :
    (s t : RegimeState) → (nat_beq (regime_code s) (regime_code t) ≡ true) ↔ (s ≡ t)
regime_beq_iff s t = ground arith

instance abbrev pub regime_eq : Key RegimeState
regime_eq = record {
  same = λ s t. nat_beq (regime_code s) (regime_code t);
  same_iff = regime_beq_iff;
}

abbrev quality_code : DataQuality → ℕ
quality_code ok = 0
quality_code degraded = 1
quality_code halted = 2

pub quality_beq_iff :
    (s t : DataQuality) → (nat_beq (quality_code s) (quality_code t) ≡ true) ↔ (s ≡ t)
quality_beq_iff s t = ground arith

instance abbrev pub quality_eq : Key DataQuality
quality_eq = record {
  same = λ s t. nat_beq (quality_code s) (quality_code t);
  same_iff = quality_beq_iff;
}

abbrev context_code : ContextState → ℕ
context_code undetermined = 0
context_code play = 1
context_code no_play = 2

pub context_beq_iff :
    (s t : ContextState) → (nat_beq (context_code s) (context_code t) ≡ true) ↔ (s ≡ t)
context_beq_iff s t = ground arith

instance abbrev pub context_eq : Key ContextState
context_eq = record {
  same = λ s t. nat_beq (context_code s) (context_code t);
  same_iff = context_beq_iff;
}

abbrev tier_code : Tier → ℕ
tier_code a = 0
tier_code b = 1
tier_code c = 2

pub tier_beq_iff : (s t : Tier) → (nat_beq (tier_code s) (tier_code t) ≡ true) ↔ (s ≡ t)
tier_beq_iff s t = ground arith

instance abbrev pub tier_eq : Key Tier
tier_eq = record { same = λ s t. nat_beq (tier_code s) (tier_code t); same_iff = tier_beq_iff }
