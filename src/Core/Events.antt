-- ===== src/Core/Events.antt =====
-- Market and broker events, and the commands to the broker: rust/crates/core_types/src/lib.rs.
use ibkr_bot.Base.{ℕ, String, Bool, List}
use ibkr_bot.Base.Int.{ℤ}
use ibkr_bot.Core.Types.{SymbolId, Side, OrderStatus, Order, OrderRequest}

pub record CancelRequest : Type 0 where
  pub order_id : ℕ

pub data OmsCommand (F : Type 0) : Type 0 where
  new_order : OrderRequest F → OmsCommand F
  cancel_order : CancelRequest → OmsCommand F

pub record PositionData (F : Type 0) : Type 0 where
  pub symbol_id : SymbolId
  pub qty : ℤ
  pub avg_cost : F

pub record StateSyncData (F : Type 0) : Type 0 where
  pub open_orders : List (Order F)
  pub positions : List (PositionData F)

pub record TickData (F : Type 0) : Type 0 where
  pub price : F
  pub size : ℕ
  pub flags : ℕ

pub record L2DeltaData (F : Type 0) : Type 0 where
  pub price : F
  pub size : ℕ
  pub side : Side
  pub level : ℕ
  pub is_delete : Bool

pub record SnapshotData (F : Type 0) : Type 0 where
  pub bid_price : F
  pub ask_price : F
  pub bid_size : ℕ
  pub ask_size : ℕ
  pub volume : ℕ
  pub avg_volume_20d : ℕ
  pub has_news_today : Bool
  pub weekly_ema : F
  pub daily_resistance : F

pub record FillData (F : Type 0) : Type 0 where
  pub order_id : ℕ
  pub price : F
  pub size : ℕ
  pub side : Side
  pub liquidity : ℕ

pub record OrderStatusData (F : Type 0) : Type 0 where
  pub order_id : ℕ
  pub status : OrderStatus
  pub filled_qty : ℕ
  pub remaining_qty : ℕ
  pub avg_fill_price : F

pub record RejectData : Type 0 where
  pub order_id : ℕ
  pub reason : String
  pub code : ℕ

pub record CancelAckData : Type 0 where
  pub order_id : ℕ

pub record CancelRejectData : Type 0 where
  pub order_id : ℕ
  pub reason : String

pub data EventKind (F : Type 0) : Type 0 where
  tick : TickData F → EventKind F
  l2_delta : L2DeltaData F → EventKind F
  snapshot : SnapshotData F → EventKind F
  fill : FillData F → EventKind F
  order_status : OrderStatusData F → EventKind F
  reject : RejectData → EventKind F
  heartbeat : EventKind F
  reconnect : EventKind F
  state_sync : StateSyncData F → EventKind F
  halt : EventKind F
  cancel_ack : CancelAckData → EventKind F
  cancel_reject : CancelRejectData → EventKind F

pub record Event (F : Type 0) : Type 0 where
  pub ts_src : ℕ
  pub ts_rx : ℕ
  pub ts_proc : ℕ
  pub seq : ℕ
  pub symbol_id : SymbolId
  pub kind : EventKind F
