-- ===== src/Oms/Matched.antt =====
-- Where the broker's ids lead after `reconcile_state` of rust/crates/execution_engine/src/lib.rs.

use ibkr_bot.Base.{
  ℕ, nat_eq, String, string_eq, Bool, true, false, Option, some, none, List, [], ◌∷◌, ◌≡◌, ◌∙◌,
  refl, sym, ap, arith, ◌==◌, inl, inr, Bool-cases, Option-cases, length, if◌then◌else◌,
}
use ibkr_bot.Base.Map.{
  Map, lookup, insert, adjust, map_values, is_some, Entries-lookup, lookup-insert, lookup-adjust,
  lookup-map_values,
}
use ibkr_bot.Core.Types.{Order}
use ibkr_bot.Core.Events.{StateSyncData}
use ibkr_bot.Oms.Order.{Oms}
use ibkr_bot.Oms.Sync.{
  reconcile_state, sync_orders, sync_by_id, sync_order, adopt, import, take_over, cancel_stale,
  broker_order_ids,
}
use ibkr_bot.Oms.Valid.{IsValid, Keeps, client_at}
use ibkr_bot.Oms.Steps.{NextBelow, sync_by_id-IsValid, sync_by_id-NextBelow, cancel_stale-Keeps}

abbrev pub or_else : Option String → Option String → Option String
or_else (some x) y = some x
or_else none y = y

or_else_assoc : (x y z : Option String) → or_else (or_else x y) z ≡ or_else x (or_else y z)
or_else_assoc (some x) y z = refl
or_else_assoc none y z = refl

or_else-none : (x : Option String) → or_else x none ≡ x
or_else-none (some x) = refl
or_else-none none = refl

or_else-some : (x y : Option String) → is_some x ≡ true → or_else x y ≡ x
or_else-some (some x) y h = refl
or_else-some none y h = cc

or_else-if :
    (t : Bool) (x : String) (y : Option String)
    → or_else (if t then some x else none) y ≡ (if t then some x else y)
or_else-if true x y = refl
or_else-if false x y = refl

abbrev carries : Option String → String → Bool
carries none id = false
carries (some j) id = j == id

module _ {F : Type 0} where
  abbrev client_at_found : Map ℕ (Order F) → Option ℕ → Option String
  client_at_found m none = none
  client_at_found m (some i) = client_at m i

  -- The client's key of the order that a broker's id leads to.
  abbrev pub client_of : Oms F → String → Option String
  client_of o id = client_at_found o.orders (lookup id o.broker_map)

  -- The client's key of the first listed order with a broker's id.
  abbrev pub first_key : List (Order F) → String → Option String
  first_key [] id = none
  first_key (b ∷ bs) id =
      if carries b.broker_order_id id then some b.client_order_id else first_key bs id

  client_at-adjust :
      (i k : ℕ) (g : Order F → Order F) (m : Map ℕ (Order F))
      → Keeps g
      → client_at (adjust i g m) k ≡ client_at m k
  client_at-adjust i k g m keeps = elim (Option-cases (lookup k m)) [
    | inl e ↦ ground (arith, lookup-adjust i k g m)
    | inr (order, e) ↦ ground (arith, lookup-adjust i k g m, keeps order)
  ]

  client_at-map_values :
      (k : ℕ) (g : ℕ → Order F → Order F) (m : Map ℕ (Order F))
      → ((id : ℕ) → Keeps (g id))
      → client_at (map_values g m) k ≡ client_at m k
  client_at-map_values k g m keeps = elim (Option-cases (lookup k m)) [
    | inl e ↦ ground (arith, lookup-map_values k g m)
    | inr (order, e) ↦ ground (arith, lookup-map_values k g m, keeps k order)
  ]

  client_at_found-same :
      (m m' : Map ℕ (Order F)) (x : Option ℕ)
      → ((k : ℕ) → client_at m' k ≡ client_at m k)
      → client_at_found m' x ≡ client_at_found m x
  client_at_found-same m m' none same = refl
  client_at_found-same m m' (some k) same = same k

  -- A broker's id that is known leads to an order.
  client_of-known :
      (o : Oms F) (id : String) (i : ℕ)
      → lookup id o.broker_map ≡ some i
      → IsValid o
      → is_some (client_of o id) ≡ true
  client_of-known o id i e v = rw e (Entries-lookup _ id i o.broker_map v.mapped e)

  -- A new id for an order that has the key.
  client_of-point :
      (o : Oms F) (m : Map ℕ (Order F)) (j id key : String) (i : ℕ)
      → lookup j o.broker_map ≡ none
      → client_at m i ≡ some key
      → client_at_found m (lookup id o.broker_map) ≡ client_of o id
      → client_at_found m (lookup id (insert j i o.broker_map))
        ≡ or_else (client_of o id) (if j == id then some key else none)
  client_of-point o m j id key i new at same = elim (Bool-cases (j == id)) [
    | inl t ↦
        let e : j ≡ id = (string_eq.same_iff j id).0 t in
        let unknown : lookup id o.broker_map ≡ none =
          ap (λ k. lookup k o.broker_map) (sym e) ∙ new in
        rw (lookup-insert j id i o.broker_map, t, unknown) at
    | inr t ↦ rw (lookup-insert j id i o.broker_map, t) (same ∙ sym (or_else-none (client_of o id)))
  ]

  client_of-adopt :
      (o : Oms F) (i : ℕ) (j id : String) (b : Order F)
      → lookup j o.broker_map ≡ none
      → client_at o.orders i ≡ some b.client_order_id
      → client_of (adopt o i j b) id
        ≡ or_else (client_of o id) (if j == id then some b.client_order_id else none)
  unfolding adopt take_over
  client_of-adopt o i j id b new at = elim (Option-cases (lookup i o.orders)) [
    | inl e ↦ absurd (ground arith)
    | inr (l, e) ↦
        let g = λ (l : Order F). take_over b (record l { broker_order_id = some j }) in
        let same = λ (k : ℕ). client_at-adjust i k g o.orders (λ order. (refl, refl)) in
        rw (e, adopt)
          (client_of-point o (adjust i g o.orders) j id b.client_order_id i new (same i ∙ at)
            (client_at_found-same o.orders (adjust i g o.orders) (lookup id o.broker_map) same))
  ]

  client_at-next :
      (o : Oms F) (order : Order F) (x : Option ℕ)
      → ((k : ℕ) → x ≡ some k → is_some (client_at o.orders k) ≡ true)
      → IsValid o
      → client_at_found (insert o.next_order_id order o.orders) x ≡ client_at_found o.orders x
  client_at-next o order none h v = refl
  client_at-next o order (some k) h v = elim (Option-cases (lookup k o.orders)) [
    | inl e ↦ let there = h k refl in absurd (ground arith)
    | inr (old, e) ↦
        let low = (Entries-lookup _ k old o.orders v.named e).1 in
        ground (arith, lookup-insert o.next_order_id k order o.orders)
  ]

  client_of-import :
      (o : Oms F) (j id : String) (b : Order F)
      → lookup j o.broker_map ≡ none
      → IsValid o
      → client_of (import o j b) id
        ≡ or_else (client_of o id) (if j == id then some b.client_order_id else none)
  unfolding import
  client_of-import o j id b new v =
      let order : Order F = record b { order_id = o.next_order_id } in
      client_of-point o (insert o.next_order_id order o.orders) j id b.client_order_id
        o.next_order_id new
        (ground (arith, lookup-insert o.next_order_id o.next_order_id order o.orders))
        (client_at-next o order (lookup id o.broker_map)
          (λ k e. Entries-lookup _ id k o.broker_map v.mapped e) v)

  client_of-sync_order :
      (o : Oms F) (j id : String) (b : Order F)
      → IsValid o
      → client_of (sync_order o j b) id
        ≡ or_else (client_of o id) (if j == id then some b.client_order_id else none)
  unfolding sync_order take_over
  client_of-sync_order o j id b v = elim (Option-cases (lookup j o.broker_map)) [
    | inr (i, e) ↦
        let same =
          client_at_found-same o.orders (adjust i (take_over b) o.orders) (lookup id o.broker_map)
            (λ k. client_at-adjust i k (take_over b) o.orders (λ order. (refl, refl))) in
        rw (e, sync_order)
          (same ∙ elim (Bool-cases (j == id)) [
            | inl t ↦
                let known : lookup id o.broker_map ≡ some i =
                  ap (λ k. lookup k o.broker_map) (sym ((string_eq.same_iff j id).0 t)) ∙ e in
                sym (or_else-some (client_of o id) _ (client_of-known o id i known v))
            | inr t ↦ rw t (sym (or_else-none (client_of o id)))
          ])
    | inl e ↦ elim (Option-cases (lookup b.client_order_id o.idempotency_cache)) [
      | inl fresh ↦ rw (e, fresh, sync_order) (client_of-import o j id b e v)
      | inr (i, old) ↦
          rw (e, old, sync_order)
            (client_of-adopt o i j id b e
              (Entries-lookup _ b.client_order_id i o.idempotency_cache v.cached old))
    ]
  ]

  client_of-sync_by_id :
      (o : Oms F) (b : Order F) (j : Option String) (id : String)
      → IsValid o
      → client_of (sync_by_id o b j) id
        ≡ or_else (client_of o id) (if carries j id then some b.client_order_id else none)
  unfolding sync_by_id
  client_of-sync_by_id o b none id v = sym (or_else-none (client_of o id))
  client_of-sync_by_id o b (some j) id v = client_of-sync_order o j id b v

  client_of-sync_orders :
      (o : Oms F) (bs : List (Order F)) (id : String)
      → NextBelow o (length bs)
      → IsValid o
      → client_of (sync_orders o bs) id ≡ or_else (client_of o id) (first_key bs id)
  unfolding sync_orders
  client_of-sync_orders o [] id room v = sym (or_else-none (client_of o id))
  client_of-sync_orders o (b ∷ bs) id room v =
      let j = b.broker_order_id in
      let o' = sync_by_id o b j in
      let one = if carries j id then some b.client_order_id else none in
      client_of-sync_orders o' bs id (sync_by_id-NextBelow (length bs) o b j room)
        (sync_by_id-IsValid o b j (omega arith) v)
      ∙ ap (λ x. or_else x (first_key bs id)) (client_of-sync_by_id o b j id v)
      ∙ or_else_assoc (client_of o id) one (first_key bs id)
      ∙ ap (or_else (client_of o id))
          (or_else-if (carries j id) b.client_order_id (first_key bs id))

  -- After a reconciliation of a valid system with room for the new ids, a broker's id leads to an
  -- order of the client's key that it led to before; an id that was not known leads to an order of the
  -- key of the first order that the broker listed under it, and nowhere if there is none.
  pub client_of-reconcile_state :
      (o : Oms F) (sync_data : StateSyncData F) (id : String)
      → NextBelow o (length sync_data.open_orders)
      → IsValid o
      → client_of (reconcile_state o sync_data).0 id
        ≡ or_else (client_of o id) (first_key sync_data.open_orders id)
  unfolding reconcile_state
  client_of-reconcile_state o sync_data id room v =
      let synced = sync_orders o sync_data.open_orders in
      let ids = broker_order_ids sync_data.open_orders in
      client_at_found-same synced.orders (map_values (cancel_stale ids) synced.orders)
        (lookup id synced.broker_map)
        (λ k. client_at-map_values k (cancel_stale ids) synced.orders (cancel_stale-Keeps ids))
      ∙ client_of-sync_orders o sync_data.open_orders id room v
