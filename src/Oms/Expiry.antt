-- ===== src/Oms/Expiry.antt =====
-- The timeout scans agree and expire each cancel once: rust/crates/execution_engine/src/lib.rs.
use ibkr_bot.Base.{
  ℕ, nat_eq, false, List, [], ◌∷◌, map, ◌≡◌, refl, arith, ◌-◌, ◌<◌, inl, inr, Bool-cases, retain,
  ltb, ◌&&◌,
}
use ibkr_bot.Base.Map.{Map, Entries, map_values}
use ibkr_bot.Core.Types.{Order, status_eq}
use ibkr_bot.Oms.Order.{Oms}
use ibkr_bot.Oms.Timeouts.{
  values, find_timed_out_orders, is_open, is_timed_out, timed_out_ids, check_timeouts,
  is_cancel_timed_out, expire_cancel, cancel_timed_out_ids, check_cancel_timeouts,
}
use ibkr_bot.Oms.Valid.{IsValid}

module _ {F : Type 0} (now timeout : ℕ) where
  -- A time that has passed is more than zero, so the guard `now > created_at` adds nothing.
  is_timed_out_lem :
      (order : Order F)
      → is_timed_out now timeout order ≡ (is_open order && ltb timeout (now - order.created_at))
  is_timed_out_lem order = ground arith

  found_ids : Map ℕ (Order F) → List ℕ
  found_ids m =
      map (λ order. order.order_id)
        (retain (λ order. ltb timeout (now - order.created_at)) (retain is_open (values m)))

  found_ids-eq :
      (n : ℕ) (m : Map ℕ (Order F))
      → Entries (λ id order. (order.order_id ≡ id) × (id < n)) m
      → found_ids m ≡ timed_out_ids now timeout m
  unfolding found_ids values timed_out_ids
  found_ids-eq n [] _ = refl
  found_ids-eq n ((id, order) ∷ m) ((same, lt), rest) =
      let ih = found_ids-eq n m rest in rw (is_timed_out_lem order) (ground (arith, ih))

  -- On a valid system the two scans for orders that got no answer in time find the same ids.
  pub find_timed_out_orders-eq-check_timeouts :
      (o : Oms F) → IsValid o → find_timed_out_orders o now timeout ≡ check_timeouts o now timeout
  unfolding find_timed_out_orders check_timeouts found_ids
  find_timed_out_orders-eq-check_timeouts o v = found_ids-eq o.next_order_id o.orders v.named

  expire_cancel_again :
      (id : ℕ) (order : Order F)
      → let after = expire_cancel now timeout id order in
        (is_cancel_timed_out now timeout after ≡ false)
        × (expire_cancel now timeout id after ≡ after)
  unfolding expire_cancel
  expire_cancel_again id order = elim (Bool-cases (is_cancel_timed_out now timeout order)) [
    | inl t ↦ rw (t, expire_cancel) (refl, refl)
    | inr t ↦ rw (t, expire_cancel) (t, rw (t, expire_cancel))
  ]

  expired_once :
      (m : Map ℕ (Order F))
      → let m' = map_values (expire_cancel now timeout) m in
        (cancel_timed_out_ids now timeout m' ≡ [])
        × (map_values (expire_cancel now timeout) m' ≡ m')
  unfolding map_values cancel_timed_out_ids
  expired_once [] = (refl, refl)
  expired_once ((id, order) ∷ m) =
      let (none_left, fixed) = expired_once m in
      let (quiet, same) = expire_cancel_again id order in (rw quiet none_left, rw (same, fixed))

  -- A cancel that expired is reported once: the same scan, run again, finds nothing and changes
  -- nothing.
  check_cancel_timeouts_again :
      (o : Oms F)
      → let o' = (check_cancel_timeouts o now timeout).0 in
        check_cancel_timeouts o' now timeout ≡ (o', [])
  unfolding check_cancel_timeouts
  check_cancel_timeouts_again o =
      let (none_left, fixed) = expired_once o.orders in rw (none_left, fixed)
