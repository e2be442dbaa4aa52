-- ===== src/Runtime/Resend.antt =====
-- The OMS task sends a repeated request on: rust/crates/app_runtime/src/lib.rs and
-- rust/crates/execution_engine/src/lib.rs.
use mathlib.Core.Path.{subst}
use ibkr_bot.Base.{ℕ, true, Bool, String, string_eq, List, [], ◌∷◌, ◌≡◌, refl, sym, ap}
use ibkr_bot.Base.Result.{ok}
use ibkr_bot.Base.Float.{Float}
use ibkr_bot.Core.Types.{OrderRequest}
use ibkr_bot.Core.Events.{OmsCommand, new_order}
use ibkr_bot.Oms.Order.{Oms, place_order}
use ibkr_bot.Oms.Ids.{Cached, step-Cached, place_order-Cached', place_order_known}
use ibkr_bot.Runtime.OmsTask.{OmsTask, OmsInput, obeys, oms_command, oms_input, run_oms}
use ibkr_bot.Runtime.OmsSteps.{input_cost, oms_input_lem}

module _ {F : Type 0} ⦃f : Float F⦄ (key : String) (id : ℕ) (cancel_timeout_ms : ℕ) where
  run_oms-Cached :
      (t : OmsTask F) (is : List ((OmsCommand F → Bool) × OmsInput F))
      → Cached key id t.oms
      → Cached key id (run_oms cancel_timeout_ms t is).oms
  unfolding run_oms
  run_oms-Cached t [] h = h
  run_oms-Cached t ((sends, i) ∷ is) h =
      run_oms-Cached (oms_input sends cancel_timeout_ms t i).0 is (
        oms_input_lem (Cached key id) (Cached key id) (input_cost i) (λ o c. c)
          (λ o c e. step-Cached key id o c) (λ o c e. step-Cached key id o c) (λ o ids c. c) sends
          cancel_timeout_ms t i refl h)

module _ {F : Type 0} ⦃f : Float F⦄ where
  oms_command_known :
      (sends : OmsCommand F → Bool) (now id : ℕ) (s : OrderRequest F) (o : Oms F)
      → place_order o s now ≡ (o, ok id)
      → sends (new_order s) ≡ true
      → oms_command sends now (new_order s) o ≡ (o, new_order s ∷ [])
  unfolding oms_command
  oms_command_known sends now id s o known sent = rw (known, sent)

  -- A request whose key the order system has taken before, whatever inputs came in between, leaves
  -- the task as it is, and the bridge gets it again if the send succeeds.
  pub oms_input_resends :
      (cancel_timeout_ms : ℕ) (t : OmsTask F) (r s : OrderRequest F) (ts now id : ℕ)
      (is : List ((OmsCommand F → Bool) × OmsInput F)) (sends : OmsCommand F → Bool)
      → (place_order t.oms r ts).1 ≡ ok id
      → s.idempotency_key ≡ r.idempotency_key
      → sends (new_order s) ≡ true
      → let t' = run_oms cancel_timeout_ms (record t { oms = (place_order t.oms r ts).0 }) is in
        oms_input sends cancel_timeout_ms t' (obeys now (new_order s)) ≡ (t', new_order s ∷ [])
  unfolding oms_input
  oms_input_resends cancel_timeout_ms t r s ts now id is sends placed same sent =
      let t' = run_oms cancel_timeout_ms (record t { oms = (place_order t.oms r ts).0 }) is in
      let known : place_order t'.oms s now ≡ (t'.oms, ok id) = place_order_known t'.oms s now id (
        subst (λ k. Cached k id t'.oms) (sym same)
          (run_oms-Cached r.idempotency_key id cancel_timeout_ms _ is
            (place_order-Cached' t.oms r ts id placed))) in
      ap (λ r. (record t' { oms = r.0 }, r.1)) (oms_command_known sends now id s t'.oms known sent)
