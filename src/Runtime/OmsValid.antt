-- ===== src/Runtime/OmsValid.antt =====
-- The order system of the OMS task stays valid: rust/crates/app_runtime/src/lib.rs.
use ibkr_bot.Base.{ℕ, nat_eq, Bool, List, [], ◌∷◌, ◌+◌, ◌^◌, ◌<◌, ◌≡◌, refl, arith}
use ibkr_bot.Base.Float.{Float}
use ibkr_bot.Core.Events.{OmsCommand}
use ibkr_bot.Oms.Order.{Oms}
use ibkr_bot.Oms.History.{Call, step, cost}
use ibkr_bot.Oms.Valid.{IsValid, adjust-IsValid}
use ibkr_bot.Oms.Steps.{NextBelow, step-NextBelow, step-IsValid}
use ibkr_bot.Runtime.OmsTask.{
  OmsTask, OmsInput, new_oms_task, reject_each, reject_order, oms_input, run_oms,
}
use ibkr_bot.Runtime.OmsSteps.{input_cost, oms_input_lem}

abbrev pub input_costs : {F : Type 0} → List ((OmsCommand F → Bool) × OmsInput F) → ℕ
input_costs [] = 0
input_costs ((sends, i) ∷ is) = input_cost i + input_costs is

module _ {F : Type 0} ⦃f : Float F⦄ where
  -- A valid system with room for `n` more ids.
  abbrev HasRoom : ℕ → Oms F → Type 0
  HasRoom n o = IsValid o × NextBelow o n

  reject_each-HasRoom :
      (n : ℕ) (ids : List ℕ) (o : Oms F)
      → HasRoom n o
      → HasRoom n (record o { orders = reject_each ids o.orders })
  unfolding reject_each
  reject_each-HasRoom n [] o h = h
  reject_each-HasRoom n (id ∷ ids) o (v, room) =
      reject_each-HasRoom n ids _ (adjust-IsValid o id reject_order (λ order. (refl, refl)) v, room)

  step-HasRoom :
      (n m : ℕ) (o : Oms F) (c : Call F) → cost c ≡ n → HasRoom (n + m) o → HasRoom m (step o c)
  step-HasRoom n m o c e (v, room) =
      (step-IsValid m o c (omega arith) v, step-NextBelow m o c (omega arith))

  run_oms-HasRoom :
      (cancel_timeout_ms : ℕ) (t : OmsTask F) (is : List ((OmsCommand F → Bool) × OmsInput F))
      → HasRoom (input_costs is) t.oms
      → IsValid (run_oms cancel_timeout_ms t is).oms
  unfolding run_oms
  run_oms-HasRoom cancel_timeout_ms t [] (v, room) = v
  run_oms-HasRoom cancel_timeout_ms t ((sends, i) ∷ is) h =
      let m = input_costs is in
      let n = input_cost i in
      run_oms-HasRoom cancel_timeout_ms (oms_input sends cancel_timeout_ms t i).0 is (
        oms_input_lem (HasRoom (n + m)) (HasRoom m) n (λ o (v, room). (v, omega arith))
          (λ o c e (v, room). step-HasRoom 0 (n + m) o c e (v, omega arith))
          (λ o c e. step-HasRoom n m o c e) (λ o ids. reject_each-HasRoom (n + m) ids o) sends
          cancel_timeout_ms t i refl h)

  -- After any inputs from its start, whichever sends to the bridge succeed, the tables of the task's
  -- order system fit together, as long as the inputs hand out fewer than 2 ^ 64 - 1 ids.
  pub run_oms-IsValid :
      (cancel_timeout_ms : ℕ) (is : List ((OmsCommand F → Bool) × OmsInput F))
      → 1 + input_costs is < 2 ^ 64
      → IsValid (run_oms cancel_timeout_ms new_oms_task is).oms
  run_oms-IsValid cancel_timeout_ms is room =
      run_oms-HasRoom cancel_timeout_ms new_oms_task is
        (record { named = tt; cached = tt; mapped = tt }, room)
