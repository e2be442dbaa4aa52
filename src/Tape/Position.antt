-- ===== src/Tape/Position.antt =====
-- The position that the fills add up to: rust/crates/tape_engine/src/lib.rs.
use ibkr_bot.Base.{
  ℕ, nat_eq, true, List, [], ◌∷◌, ◌+◌, ◌-◌, ◌%◌, ◌^◌, ◌≡◌, ◌==◌, ==_refl, ap, refl, arith, inl, inr,
  if◌then◌else◌, Bool-cases,
}
use ibkr_bot.Base.Map.{Map, insert, lookup-insert}
use ibkr_bot.Base.Float.{Float}
use ibkr_bot.Base.Int.{ℤ, is_zero, as_u32, as_i32, neg_i32}
use ibkr_bot.Core.Types.{SymbolId, bid, side_eq}
use ibkr_bot.Core.Events.{FillData}
use ibkr_bot.Core.Accounting.{compute_unrealized_pnl}
use ibkr_bot.Tape.State.{SymbolState, TapeEngine, state_or_default}
use ibkr_bot.Tape.Ledger.{signed_fill_size, position_after}
use ibkr_bot.Tape.Events.{fill_state, process_fill, carry_unrealized}

-- The sizes of the buys and of the sales.
abbrev pub bought : {F : Type 0} → List (FillData F) → ℕ
bought [] = 0
bought (fill ∷ fs) = (if fill.side == bid then fill.size else 0) + bought fs

abbrev pub sold : {F : Type 0} → List (FillData F) → ℕ
sold [] = 0
sold (fill ∷ fs) = (if fill.side == bid then 0 else fill.size) + sold fs

as_u32-as_i32 : (n : ℕ) → as_u32 (as_i32 n) ≡ n % 2 ^ 32
as_u32-as_i32 n = ground arith

as_u32-negated : (n : ℕ) → (as_u32 (neg_i32 (as_i32 n)) + n) % 2 ^ 32 ≡ 0
as_u32-negated n =
    let once : as_u32 (as_i32 n) ≡ n % 2 ^ 32 = as_u32-as_i32 n in
    let twice : as_u32 (neg_i32 (as_i32 n)) ≡ (2 ^ 32 - as_u32 (as_i32 n)) % 2 ^ 32 =
      as_u32-as_i32 (2 ^ 32 - as_u32 (as_i32 n)) in
    rw (twice, once) (omega arith)

as_u32-zero : (p : ℤ) → is_zero p ≡ true → as_u32 p ≡ 0
as_u32-zero p z = ground arith

add_mod : (a b c : ℕ) → ((a + b) % 2 ^ 32 + c) % 2 ^ 32 ≡ (a + (b + c) % 2 ^ 32) % 2 ^ 32
add_mod a b c = omega arith

position_after-balance :
    {F : Type 0} ⦃f : Float F⦄ (p : ℤ) (fill : FillData F)
    → (as_u32 (position_after p fill) + (if fill.side == bid then 0 else fill.size)) % 2 ^ 32
      ≡ (as_u32 p + (if fill.side == bid then fill.size else 0)) % 2 ^ 32
unfolding position_after signed_fill_size
position_after-balance p fill = elim (Bool-cases (is_zero p)) [
  | inl z ↦ elim (Bool-cases (fill.side == bid)) [
    | inl b ↦ rw (z, b, as_u32-zero p z, as_u32-as_i32 fill.size) (omega arith)
    | inr b ↦ rw (z, b, as_u32-zero p z) (as_u32-negated fill.size)
  ]
  | inr z ↦ elim (Bool-cases (fill.side == bid)) [
    | inl b ↦
        rw (z, b, as_u32-as_i32 (as_u32 p + as_u32 (as_i32 fill.size)), as_u32-as_i32 fill.size)
          (omega arith)
    | inr b ↦
        rw
          (
            z,
            b,
            as_u32-as_i32 (as_u32 p + as_u32 (neg_i32 (as_i32 fill.size))),
            add_mod (as_u32 p) (as_u32 (neg_i32 (as_i32 fill.size))) fill.size,
            as_u32-negated fill.size,
          )
          (omega arith)
  ]
]

balances :
    (x q p s b s' b' : ℕ)
    → (x + s) % 2 ^ 32 ≡ (q + b) % 2 ^ 32
    → (q + s') % 2 ^ 32 ≡ (p + b') % 2 ^ 32
    → (x + (s' + s)) % 2 ^ 32 ≡ (p + (b' + b)) % 2 ^ 32
balances x q p s b s' b' h k = omega arith

module _ {F : Type 0} ⦃f : Float F⦄ where
  pub state_or_default-insert :
      (symbol : SymbolId) (s : SymbolState F) (states : Map SymbolId (SymbolState F))
      → state_or_default (insert symbol s states) symbol ≡ s
  unfolding state_or_default
  state_or_default-insert symbol s states =
      rw (state_or_default, lookup-insert symbol symbol s states, ==_refl symbol) refl

  -- The unrealised profit that `process_fill` leaves.
  abbrev pub marked_at : SymbolState F → FillData F → F
  marked_at before fill =
      let s = fill_state before fill in
      compute_unrealized_pnl s.position s.avg_cost
        (if f.lt (f.lit 0 0) s.tape.price then s.tape.price else fill.price)

  pub process_fill-state :
      (e : TapeEngine F) (symbol : SymbolId) (fill : FillData F)
      → let before = state_or_default e.symbol_states symbol in
        state_or_default (process_fill e symbol fill).1.symbol_states symbol
        ≡ record (fill_state before fill) { current_unrealized_pnl = marked_at before fill }
  unfolding process_fill carry_unrealized
  process_fill-state e symbol fill = state_or_default-insert symbol _ e.symbol_states

  -- The fills of one symbol, one after the other.
  abbrev pub tape_fills : TapeEngine F → SymbolId → List (FillData F) → TapeEngine F
  tape_fills e symbol [] = e
  tape_fills e symbol (fill ∷ fs) = tape_fills (process_fill e symbol fill).1 symbol fs

  abbrev pub position_of : TapeEngine F → SymbolId → ℤ
  position_of e symbol = (state_or_default e.symbol_states symbol).position

  process_fill-position :
      (e : TapeEngine F) (symbol : SymbolId) (fill : FillData F)
      → position_of (process_fill e symbol fill).1 symbol
        ≡ position_after (position_of e symbol) fill
  unfolding fill_state
  process_fill-position e symbol fill = ap (λ s. s.position) (process_fill-state e symbol fill)

  -- After the fills of a symbol its position with what was sold is the old one with what was bought,
  -- in 32 bits.
  pub tape_fills-balance :
      (e : TapeEngine F) (symbol : SymbolId) (fs : List (FillData F))
      → (as_u32 (position_of (tape_fills e symbol fs) symbol) + sold fs) % 2 ^ 32
        ≡ (as_u32 (position_of e symbol) + bought fs) % 2 ^ 32
  tape_fills-balance e symbol [] = refl
  tape_fills-balance e symbol (fill ∷ fs) =
      let rest = tape_fills-balance (process_fill e symbol fill).1 symbol fs in
      let same = ap as_u32 (process_fill-position e symbol fill) in
      balances (as_u32 (position_of (tape_fills e symbol (fill ∷ fs)) symbol))
        (as_u32 (position_of (process_fill e symbol fill).1 symbol)) (as_u32 (position_of e symbol))
        (sold fs) (bought fs) (if fill.side == bid then 0 else fill.size)
        (if fill.side == bid then fill.size else 0) rest
        (rw same (position_after-balance (position_of e symbol) fill))
