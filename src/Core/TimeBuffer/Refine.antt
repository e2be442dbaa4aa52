-- ===== src/Core/TimeBuffer/Refine.antt =====
-- The ring buffer is a queue of the last entries, oldest first:
-- rust/crates/core_types/src/time_buffer.rs.
use ibkr_bot.Base.{
  ℕ, nat_eq, true, false, some, none, List, [], ◌∷◌, ◌++◌, ◌+◌, ◌-◌, ◌<◌, ◌≡◌, ◌∙◌, sym, ◌≢◌, ◌==◌,
  if◌then◌else◌, ltb, set, length, length-set, length-append, length-replicate, get_elem?-set_self,
  arith, inl, inr, Bool-cases, nat_beq_iff,
}
use ibkr_bot.Core.TimeBuffer.{TimeRingBuffer, new, push}
use ibkr_bot.Core.TimeBuffer.Ring.{
  gap, next, next_lem, gap-next_head, gap-next_full, gap_full, gap_free, Reads, Reads-set,
  Reads-snoc, Reads-drop_first, drop_first, length-drop_first,
}

module _ {A : Type 0} where
  -- The buffer holds the entries `xs`, oldest first.
  pub record Holds (rb : TimeRingBuffer A) (xs : List (ℕ × A)) : Type 0 where
    pub head_lt : rb.head < rb.capacity
    pub tail_lt : rb.tail < rb.capacity
    pub size : length rb.buffer ≡ rb.capacity
    pub count : gap rb.capacity rb.tail rb.head ≡ length xs
    pub reads : Reads rb.capacity rb.buffer rb.tail xs

  -- A new entry goes behind the others; where there is no room the oldest goes.
  abbrev pub push_last : ℕ → List (ℕ × A) → ℕ × A → List (ℕ × A)
  push_last room xs x = if ltb (length xs) room then xs ++ x ∷ [] else drop_first (xs ++ x ∷ [])

  pub new-Holds : (max_elements window : ℕ) → Holds (new max_elements window) []
  unfolding new
  new-Holds max_elements window = record {
    head_lt = omega arith;
    tail_lt = omega arith;
    size = length-replicate (max_elements + 1) none;
    count = ground arith;
    reads = tt;
  }

  -- The write of `push` at the head, with the tail as it is: what stands from the tail on.
  Reads-push :
      (rb : TimeRingBuffer A) (xs : List (ℕ × A)) (x : ℕ × A)
      → Holds rb xs
      → Reads rb.capacity (set rb.buffer rb.head (some x)) rb.tail (xs ++ x ∷ [])
  Reads-push rb xs x h =
      Reads-snoc rb.capacity rb.tail rb.head _ x xs h.tail_lt h.head_lt h.count
        (get_elem?-set_self rb.buffer rb.head (some x) (omega (arith, h.size, h.head_lt)))
        (Reads-set rb.capacity rb.tail rb.head rb.buffer (some x) xs h.tail_lt h.head_lt
          (omega (arith, h.count)) h.reads)

  push_room :
      (rb : TimeRingBuffer A) (xs : List (ℕ × A)) (ts : ℕ) (item : A)
      → Holds rb xs
      → next rb.capacity rb.head ≢ rb.tail
      → Holds
          (record rb {
            buffer = set rb.buffer rb.head (some (ts, item));
            head = next rb.capacity rb.head;
          })
          (xs ++ (ts, item) ∷ [])
  push_room rb xs ts item h free = record {
    head_lt = ground (arith, h.head_lt);
    tail_lt = h.tail_lt;
    size = length-set rb.buffer rb.head _ ∙ h.size;
    count = omega (
      arith,
      gap-next_head rb.capacity rb.tail rb.head h.tail_lt h.head_lt free,
      h.count,
      length-append xs ((ts, item) ∷ []),
    );
    reads = Reads-push rb xs (ts, item) h;
  }

  push_full :
      (rb : TimeRingBuffer A) (xs : List (ℕ × A)) (ts : ℕ) (item : A)
      → Holds rb xs
      → next rb.capacity rb.head ≡ rb.tail
      → Holds
          (record rb {
            tail = next rb.capacity rb.tail;
            buffer = set rb.buffer rb.head (some (ts, item));
            head = next rb.capacity rb.head;
          })
          (drop_first (xs ++ (ts, item) ∷ []))
  push_full rb xs ts item h full = record {
    head_lt = ground (arith, h.head_lt);
    tail_lt = ground (arith, h.tail_lt);
    size = length-set rb.buffer rb.head _ ∙ h.size;
    count =
        gap-next_full rb.capacity rb.tail rb.head h.tail_lt h.head_lt full
        ∙ h.count
        ∙ sym (length-drop_first xs (ts, item));
    reads =
        Reads-drop_first rb.capacity rb.tail _ (xs ++ (ts, item) ∷ [])
          (Reads-push rb xs (ts, item) h);
  }

  pub push-Holds :
      (rb : TimeRingBuffer A) (xs : List (ℕ × A)) (ts : ℕ) (item : A)
      → Holds rb xs
      → Holds (push rb ts item) (push_last (rb.capacity - 1) xs (ts, item))
  unfolding push
  push-Holds rb xs ts item h =
      let cap = rb.capacity in
      elim (Bool-cases (next cap rb.head == rb.tail)) [
        | inl t ↦
            let full = (nat_beq_iff (next cap rb.head) rb.tail).0 t in
            let none_left : ltb (length xs) (cap - 1) ≡ false =
              ground (arith, gap_full cap rb.tail rb.head h.tail_lt h.head_lt full, h.count) in
            rw (next_lem cap rb.head h.head_lt, next_lem cap rb.tail h.tail_lt, t, none_left)
              (push_full rb xs ts item h full)
        | inr t ↦
            let free : next cap rb.head ≢ rb.tail = λ e. ground (arith) in
            let some_left : ltb (length xs) (cap - 1) ≡ true =
              ground (arith, gap_free cap rb.tail rb.head h.tail_lt h.head_lt free, h.count) in
            rw (next_lem cap rb.head h.head_lt, t, some_left) (push_room rb xs ts item h free)
      ]
