-- ===== src/Oms/Timeouts.antt =====
-- The timeout scans of rust/crates/execution_engine/src/lib.rs: `find_timed_out_orders`,
-- `check_timeouts`, `check_cancel_timeouts`.
use ibkr_bot.Base.{ℕ, Bool, List, [], ◌∷◌, map, ◌-◌, ltb, ◌==◌, if◌then◌else◌, ◌&&◌, ◌||◌, retain}
use ibkr_bot.Base.Map.{Map, map_values}
use ibkr_bot.Core.Types.{
  Order, OrderStatus, live, pending_cancel, cancel_sent, cancel_timeout, status_eq,
}
use ibkr_bot.Oms.Order.{Oms}

module _ {F : Type 0} where
  -- `status == Pending || status == Live`.
  abbrev pub is_open : Order F → Bool
  is_open order = order.status == OrderStatus.pending || order.status == live

  -- `values()`.
  unfoldable pub values : Map ℕ (Order F) → List (Order F)
  values [] = []
  values ((k, order) ∷ m) = order ∷ values m

  -- `saturating_sub` is the subtraction of numbers that stops at zero.
  unfoldable pub find_timed_out_orders : Oms F → ℕ → ℕ → List ℕ
  unfolding values
  find_timed_out_orders o now_micros timeout_micros =
      map (λ order. order.order_id)
        (retain (λ order. ltb timeout_micros (now_micros - order.created_at))
          (retain is_open (values o.orders)))

  abbrev pub is_timed_out : ℕ → ℕ → Order F → Bool
  is_timed_out now_us timeout_us order =
      is_open order && (ltb order.created_at now_us && ltb timeout_us (now_us - order.created_at))

  -- The loop of `check_timeouts`, over the entries that are left.
  unfoldable pub timed_out_ids : ℕ → ℕ → Map ℕ (Order F) → List ℕ
  timed_out_ids now_us timeout_us [] = []
  timed_out_ids now_us timeout_us ((id, order) ∷ m) =
      if is_timed_out now_us timeout_us order
      then id ∷ timed_out_ids now_us timeout_us m
      else timed_out_ids now_us timeout_us m

  unfoldable pub check_timeouts : Oms F → ℕ → ℕ → List ℕ
  unfolding timed_out_ids
  check_timeouts o now_us timeout_us = timed_out_ids now_us timeout_us o.orders

  abbrev pub is_cancel_timed_out : ℕ → ℕ → Order F → Bool
  is_cancel_timed_out now_us cancel_timeout_us order =
      (order.status == pending_cancel || order.status == cancel_sent)
      && (ltb order.updated_at now_us && ltb cancel_timeout_us (now_us - order.updated_at))

  unfoldable pub expire_cancel : ℕ → ℕ → ℕ → Order F → Order F
  expire_cancel now_us cancel_timeout_us id order =
      if is_cancel_timed_out now_us cancel_timeout_us order
      then record order { status = cancel_timeout }
      else order

  unfoldable pub cancel_timed_out_ids : ℕ → ℕ → Map ℕ (Order F) → List ℕ
  cancel_timed_out_ids now_us cancel_timeout_us [] = []
  cancel_timed_out_ids now_us cancel_timeout_us ((id, order) ∷ m) =
      if is_cancel_timed_out now_us cancel_timeout_us order
      then id ∷ cancel_timed_out_ids now_us cancel_timeout_us m
      else cancel_timed_out_ids now_us cancel_timeout_us m

  -- One pass over the orders: each is tested once, changed and listed.
  unfoldable pub check_cancel_timeouts : Oms F → ℕ → ℕ → Oms F × List ℕ
  unfolding expire_cancel cancel_timed_out_ids
  check_cancel_timeouts o now_us cancel_timeout_us = (
    record o { orders = map_values (expire_cancel now_us cancel_timeout_us) o.orders },
    cancel_timed_out_ids now_us cancel_timeout_us o.orders,
  )
