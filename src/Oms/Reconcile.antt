-- ===== src/Oms/Reconcile.antt =====
-- What holds after `reconcile_state` of rust/crates/execution_engine/src/lib.rs.
use ibkr_bot.Base.{ℕ, nat_eq, String, string_eq, true, List, ◌≡◌, arith, inl, inr, Bool-cases}
use ibkr_bot.Base.Map.{Entries, Entries-map_values_all}
use ibkr_bot.Core.Types.{Order}
use ibkr_bot.Core.Events.{StateSyncData}
use ibkr_bot.Oms.Order.{Oms}
use ibkr_bot.Oms.Timeouts.{is_open}
use ibkr_bot.Oms.Sync.{reconcile_state, broker_order_ids, cancel_stale, is_stale, is_listed}

module _ {F : Type 0} where
  -- No order is open unless the broker listed it.
  abbrev pub IsListed : List String → Order F → Type 0
  IsListed ids order = is_open order ≡ true → is_listed ids order.broker_order_id ≡ true

  cancel_stale-IsListed :
      (ids : List String) (id : ℕ) (order : Order F) → IsListed ids (cancel_stale ids id order)
  unfolding cancel_stale
  cancel_stale-IsListed ids id order = elim (Bool-cases (is_stale ids order)) [
    | inl t ↦ rw (t, cancel_stale) (λ h. cc)
    | inr t ↦ rw (t, cancel_stale) (λ h. ground arith)
  ]

  -- After a reconciliation every local order that is pending or live has a broker's id, and the
  -- broker listed it.
  pub reconcile_state-IsListed :
      (o : Oms F) (sync_data : StateSyncData F)
      → Entries
          (λ id order. IsListed (broker_order_ids sync_data.open_orders) order)
          (reconcile_state o sync_data).0.orders
  unfolding reconcile_state
  reconcile_state-IsListed o sync_data =
      Entries-map_values_all _ _ _ (cancel_stale-IsListed (broker_order_ids sync_data.open_orders))
