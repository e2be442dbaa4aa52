-- ===== src/Oms/Valid.antt =====
-- The order system's tables fit together: rust/crates/execution_engine/src/lib.rs.
use mathlib.Core.Option
use ibkr_bot.Base.{
  ℕ, String, string_eq, nat_eq, true, Option, some, ◌<◌, ◌≡◌, ◌∙◌, arith, inl, inr, Option-cases,
  All-imp,
}
use ibkr_bot.Base.Map.{
  Map, lookup, insert, adjust, map_values, Entries, is_some, lookup-insert, lookup-adjust,
  lookup-map_values, Entries-insert, Entries-adjust, Entries-map_values, Entries-lookup,
}
use ibkr_bot.Core.Types.{Order}
use ibkr_bot.Oms.Order.{Oms}

module _ {F : Type 0} where
  -- The client's key of the order that stands under an id.
  abbrev pub client_at : Map ℕ (Order F) → ℕ → Option String
  client_at m id = Option.map (λ order. order.client_order_id) (lookup id m)

  -- Every order stands under its own id, ids below `next_order_id` are the only ones given out, the
  -- cache leads to an order with the key, and the broker's ids lead to an order.
  pub record IsValid (o : Oms F) : Type 0 where
    pub named : Entries (λ id order. (order.order_id ≡ id) × (id < o.next_order_id)) o.orders
    pub cached : Entries (λ key id. client_at o.orders id ≡ some key) o.idempotency_cache
    pub mapped : Entries (λ b id. is_some (client_at o.orders id) ≡ true) o.broker_map

  abbrev Grows : Map ℕ (Order F) → Map ℕ (Order F) → Type 0
  Grows m m' = (id : ℕ) (key : String) → client_at m id ≡ some key → client_at m' id ≡ some key

  grow-cached :
      (m m' : Map ℕ (Order F)) (cache : Map String ℕ)
      → Grows m m'
      → Entries (λ key id. client_at m id ≡ some key) cache
      → Entries (λ key id. client_at m' id ≡ some key) cache
  grow-cached m m' cache g = All-imp _ _ cache (λ (key, id) h. g id key h)

  is_some-grow :
      (m m' : Map ℕ (Order F)) (id : ℕ)
      → Grows m m'
      → is_some (client_at m id) ≡ true
      → is_some (client_at m' id) ≡ true
  is_some-grow m m' id g h = elim (Option-cases (client_at m id)) [
    | inl e ↦ ground arith
    | inr (key, e) ↦ rw (g id key e)
  ]

  grow-mapped :
      (m m' : Map ℕ (Order F)) (brokers : Map String ℕ)
      → Grows m m'
      → Entries (λ b id. is_some (client_at m id) ≡ true) brokers
      → Entries (λ b id. is_some (client_at m' id) ≡ true) brokers
  grow-mapped m m' brokers g = All-imp _ _ brokers (λ (b, id) h. is_some-grow m m' id g h)

  -- A change that keeps an order's id and its client's key.
  abbrev pub Keeps : (Order F → Order F) → Type 0
  Keeps g =
      (order : Order F)
      → ((g order).order_id ≡ order.order_id) × ((g order).client_order_id ≡ order.client_order_id)

  adjust-Grows :
      (id : ℕ) (g : Order F → Order F) (m : Map ℕ (Order F)) → Keeps g → Grows m (adjust id g m)
  adjust-Grows id g m keeps j key h = elim (Option-cases (lookup j m)) [
    | inl e ↦ ground (arith, lookup-adjust id j g m)
    | inr (order, e) ↦ ground (arith, lookup-adjust id j g m, keeps order)
  ]

  pub adjust-IsValid :
      (o : Oms F) (id : ℕ) (g : Order F → Order F)
      → Keeps g
      → IsValid o
      → IsValid (record o { orders = adjust id g o.orders })
  adjust-IsValid o id g keeps v = record {
    named =
        Entries-adjust _ id g o.orders (λ order (same, lt). ((keeps order).0 ∙ same, lt)) v.named;
    cached = grow-cached _ _ o.idempotency_cache (adjust-Grows id g o.orders keeps) v.cached;
    mapped = grow-mapped _ _ o.broker_map (adjust-Grows id g o.orders keeps) v.mapped;
  }

  map_values-Grows :
      (g : ℕ → Order F → Order F) (m : Map ℕ (Order F))
      → ((id : ℕ) → Keeps (g id))
      → Grows m (map_values g m)
  map_values-Grows g m keeps j key h = elim (Option-cases (lookup j m)) [
    | inl e ↦ ground (arith, lookup-map_values j g m)
    | inr (order, e) ↦ ground (arith, lookup-map_values j g m, keeps j order)
  ]

  pub map_values-IsValid :
      (o : Oms F) (g : ℕ → Order F → Order F)
      → ((id : ℕ) → Keeps (g id))
      → IsValid o
      → IsValid (record o { orders = map_values g o.orders })
  map_values-IsValid o g keeps v = record {
    named =
        Entries-map_values _ _ g o.orders (λ id order (same, lt). ((keeps id order).0 ∙ same, lt))
          v.named;
    cached = grow-cached _ _ o.idempotency_cache (map_values-Grows g o.orders keeps) v.cached;
    mapped = grow-mapped _ _ o.broker_map (map_values-Grows g o.orders keeps) v.mapped;
  }

  abbrev Named : ℕ → Map ℕ (Order F) → Type 0
  Named n = Entries (λ id order. (order.order_id ≡ id) × (id < n))

  insert-Grows :
      (n : ℕ) (order : Order F) (m : Map ℕ (Order F)) → Named n m → Grows m (insert n order m)
  insert-Grows n order m h j key e = elim (Option-cases (lookup j m)) [
    | inl absent ↦ ground arith
    | inr (old, found) ↦
        let low = (Entries-lookup _ j old m h found).1 in ground (arith, lookup-insert n j order m)
  ]

  insert-Named :
      (n n' : ℕ) (order : Order F) (m : Map ℕ (Order F))
      → n < n'
      → order.order_id ≡ n
      → Named n m
      → Named n' (insert n order m)
  insert-Named n n' order m lt e h =
      Entries-insert _ n order m (e, lt)
        (All-imp _ _ m (λ (id, x) (same, low). (same, omega arith)) h)

  client_at-insert :
      (n : ℕ) (order : Order F) (m : Map ℕ (Order F))
      → client_at (insert n order m) n ≡ some order.client_order_id
  client_at-insert n order m = ground (arith, lookup-insert n n order m)

  -- A new order under the next id, cached under its client's key or not.
  pub grow-IsValid :
      (o : Oms F) (order : Order F) (brokers : Map String ℕ) (next : ℕ)
      → o.next_order_id < next
      → order.order_id ≡ o.next_order_id
      → Entries
          (λ b id. is_some (client_at (insert o.next_order_id order o.orders) id) ≡ true)
          brokers
      → IsValid o
      → IsValid (record {
        orders = insert o.next_order_id order o.orders;
        idempotency_cache = insert order.client_order_id o.next_order_id o.idempotency_cache;
        broker_map = brokers;
        next_order_id = next;
      })
  grow-IsValid o order brokers next lt e b v = record {
    named = insert-Named o.next_order_id next order o.orders lt e v.named;
    cached =
        Entries-insert _ order.client_order_id o.next_order_id o.idempotency_cache
          (client_at-insert o.next_order_id order o.orders)
          (grow-cached _ _ o.idempotency_cache (insert-Grows o.next_order_id order o.orders v.named)
            v.cached);
    mapped = b;
  }

  pub grow_uncached-IsValid :
      (o : Oms F) (order : Order F) (brokers : Map String ℕ) (next : ℕ)
      → o.next_order_id < next
      → order.order_id ≡ o.next_order_id
      → Entries
          (λ b id. is_some (client_at (insert o.next_order_id order o.orders) id) ≡ true)
          brokers
      → IsValid o
      → IsValid (record {
        orders = insert o.next_order_id order o.orders;
        idempotency_cache = o.idempotency_cache;
        broker_map = brokers;
        next_order_id = next;
      })
  grow_uncached-IsValid o order brokers next lt e b v = record {
    named = insert-Named o.next_order_id next order o.orders lt e v.named;
    cached =
        grow-cached _ _ o.idempotency_cache (insert-Grows o.next_order_id order o.orders v.named)
          v.cached;
    mapped = b;
  }

  -- The broker's ids still lead to orders after an insertion under the next id.
  pub insert-mapped :
      (o : Oms F) (order : Order F)
      → IsValid o
      → Entries
          (λ b id. is_some (client_at (insert o.next_order_id order o.orders) id) ≡ true)
          o.broker_map
  insert-mapped o order v =
      grow-mapped _ _ o.broker_map (insert-Grows o.next_order_id order o.orders v.named) v.mapped

  pub insert-mapped_new :
      (o : Oms F) (id : String) (order : Order F)
      → IsValid o
      → Entries
          (λ b i. is_some (client_at (insert o.next_order_id order o.orders) i) ≡ true)
          (insert id o.next_order_id o.broker_map)
  insert-mapped_new o id order v =
      Entries-insert _ id o.next_order_id o.broker_map
        (rw (client_at-insert o.next_order_id order o.orders)) (insert-mapped o order v)
