-- ===== src/Oms/Fills.antt =====
-- What fills do to an order: `handle_fill` of rust/crates/execution_engine/src/lib.rs.
use mathlib.Core.Path.{subst}
use ibkr_bot.Base.{
  ℕ, nat_eq, true, some, List, [], ◌∷◌, ◌≡◌, ◌∙◌, ap, arith, if◌then◌else◌, ◌+◌, ◌%◌, ◌^◌, ◌<◌, All,
  leb,
}
use ibkr_bot.Base.Map.{lookup, lookup-adjust_self}
use ibkr_bot.Base.Result.{ok}
use ibkr_bot.Base.Float.{Float}
use ibkr_bot.Base.Int.{add_u32}
use ibkr_bot.Core.Types.{Order, live, filled, cancelled, pending_cancel}
use ibkr_bot.Core.Events.{FillData}
use ibkr_bot.Oms.Order.{Oms, handle_fill, fill_order}
use ibkr_bot.Oms.Cancel.{cancel_order, handle_cancel_ack, advance_if, awaits_ack, set_status}
use ibkr_bot.Oms.Flow.{cancel_order_accepted}

abbrev pub volume : {F : Type 0} → List (FillData F × ℕ) → ℕ
volume [] = 0
volume ((fill, ts) ∷ fs) = fill.size + volume fs

add_volume : (a b c : ℕ) → (add_u32 a b + c) % 2 ^ 32 ≡ (a + (b + c)) % 2 ^ 32
add_volume a b c = omega arith

module _ {F : Type 0} ⦃f : Float F⦄ where
  -- The reports of fills, in the order in which they come in.
  pub handle_fills : Oms F → List (FillData F × ℕ) → Oms F
  handle_fills o [] = o
  handle_fills o ((fill, ts) ∷ fs) = handle_fills (handle_fill o fill ts) fs

  abbrev pub Holds : Oms F → ℕ → (Order F → Type 0) → Type 0
  Holds o id P = (order : Order F) × (lookup id o.orders ≡ some order) × P order

  -- The quantity after some fills, and the status that it decides.
  abbrev pub Counted : Order F → ℕ → Order F → Type 0
  Counted order total after =
      (after.filled_qty ≡ total) × (after.status ≡ (if leb order.qty total then filled else live))

  lookup-handle_fill :
      (o : Oms F) (id : ℕ) (fill : FillData F) (ts : ℕ) (order : Order F)
      → lookup id o.orders ≡ some order
      → fill.order_id ≡ id
      → lookup id (handle_fill o fill ts).orders ≡ some (fill_order fill ts order)
  unfolding handle_fill
  lookup-handle_fill o id fill ts order e same =
      rw same (lookup-adjust_self id (fill_order fill ts) o.orders order e)

  Counted-after :
      (fill : FillData F) (ts : ℕ) (order after : Order F) (n : ℕ)
      → Counted
          (fill_order fill ts order)
          (((fill_order fill ts order).filled_qty + n) % 2 ^ 32)
          after
      → Counted order ((order.filled_qty + (fill.size + n)) % 2 ^ 32) after
  unfolding fill_order
  Counted-after fill ts order after n =
      subst (λ total. Counted order total after) (add_volume order.filled_qty fill.size n)

  -- After one or more fills of an order its filled quantity is the old one with their sizes, as a
  -- `u32`, and it is filled exactly if that reaches the quantity that was ordered; else it is live.
  pub handle_fills_lem :
      (o : Oms F) (id : ℕ) (fill : FillData F) (ts : ℕ) (fs : List (FillData F × ℕ))
      (order : Order F)
      → lookup id o.orders ≡ some order
      → fill.order_id ≡ id
      → All (λ e. e.0.order_id ≡ id) fs
      → Holds
          (handle_fills o ((fill, ts) ∷ fs))
          id
          (Counted order ((order.filled_qty + (fill.size + volume fs)) % 2 ^ 32))
  unfolding handle_fills
  handle_fills_lem o id fill ts [] order e same _ = (
    fill_order fill ts order,
    lookup-handle_fill o id fill ts order e same,
    unfold fill_order in ground arith,
  )
  handle_fills_lem o id fill ts ((next, ts') ∷ fs) order e same (same', all) =
      let (after, found, counted) =
        handle_fills_lem (handle_fill o fill ts) id next ts' fs (fill_order fill ts order)
          (lookup-handle_fill o id fill ts order e same) same' all in
      (after, found, Counted-after fill ts order after (next.size + volume fs) counted)

  fill_order_live :
      (fill : FillData F) (ts : ℕ) (order : Order F)
      → add_u32 order.filled_qty fill.size < order.qty
      → (fill_order fill ts order).status ≡ live
  unfolding fill_order
  fill_order_live fill ts order partial = ground arith

  advance_if_live :
      (ts : ℕ) (order : Order F)
      → order.status ≡ live
      → advance_if awaits_ack cancelled ts order ≡ order
  unfolding advance_if
  advance_if_live ts order h = ground arith

  -- The bug: a cancel that was accepted is lost when the order is filled in part before the broker's
  -- answer. The fill puts the order back to live, and the broker's acknowledgement changes nothing.
  pub cancel_lost_by_partial_fill :
      (o : Oms F) (ts filled_at acked_at : ℕ) (fill : FillData F) (order : Order F)
      → (cancel_order o fill.order_id ts).1 ≡ ok true
      → lookup fill.order_id o.orders ≡ some order
      → add_u32 order.filled_qty fill.size < order.qty
      → Holds
          (handle_cancel_ack
            (handle_fill (cancel_order o fill.order_id ts).0 fill filled_at)
            fill.order_id
            acked_at)
          fill.order_id
          (λ after. after.status ≡ live)
  unfolding handle_fill handle_cancel_ack set_status
  cancel_lost_by_partial_fill o ts filled_at acked_at fill order accepted e partial =
      let id = fill.order_id in
      let waiting = set_status pending_cancel ts order in
      let revived = fill_order fill filled_at waiting in
      let is_live = fill_order_live fill filled_at waiting partial in
      (
        revived,
        rw (cancel_order_accepted o id ts accepted) (
            lookup-adjust_self id _ _ revived
              (lookup-adjust_self id _ _ waiting (lookup-adjust_self id _ o.orders order e))
            ∙ ap some (advance_if_live acked_at revived is_live)),
        is_live,
      )
