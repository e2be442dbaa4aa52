-- ===== src/Watchlist/Oldest.antt =====
-- Which symbol of a full Tier C leaves: rust/crates/watchlist_engine/src/lib.rs.
use ibkr_bot.Base.{
  ℕ, nat_eq, false, some, none, [], ◌∷◌, ◌<◌, ◌≤◌, ◌≡◌, ◌⊎◌, inl, inr, ltb, length, arith, refl,
  sym, Bool-cases,
}
use ibkr_bot.Base.Map.{Map, lookup, contains_key, Entries}
use ibkr_bot.Base.Keys.{Distinct}
use ibkr_bot.Core.Types.{SymbolId}
use ibkr_bot.Watchlist.Tiers.{TierData}
use ibkr_bot.Watchlist.Moves.{oldest_from}

module _ {F : Type 0} where
  -- A table's entry with this key and this time.
  abbrev pub Held : SymbolId → ℕ → Map SymbolId (TierData F) → Type 0
  Held id since m = (d : TierData F) × (lookup id m ≡ some d) × (d.last_activity ≡ since)

  abbrev pub NoneOlder : ℕ → Map SymbolId (TierData F) → Type 0
  NoneOlder since = Entries (λ _ d. since ≤ d.last_activity)

  Held-tail :
      (i id since : ℕ) (d : TierData F) (m : Map SymbolId (TierData F))
      → contains_key i m ≡ false
      → Held id since m
      → Held id since ((i, d) ∷ m)
  unfolding lookup
  Held-tail i id since d m fresh (x, found, at) = (x, ground (arith, found, fresh), at)

  Held-head :
      (r t id : ℕ) (d : TierData F) (m : Map SymbolId (TierData F))
      → r ≡ id
      → t ≡ d.last_activity
      → Held r t ((id, d) ∷ m)
  unfolding lookup
  Held-head r t id d m p q = (d, ground arith, sym q)

  -- What the loop returns from the best so far.
  oldest_from_lem :
      (m : Map SymbolId (TierData F)) (o since : ℕ)
      → Distinct m
      → (r : ℕ) × (t : ℕ) × (oldest_from m (some (o, since)) ≡ some (r, t))
        × (t ≤ since)
        × NoneOlder t m
        × (((r ≡ o) × (t ≡ since)) ⊎ Held r t m)
  unfolding oldest_from
  oldest_from_lem [] o since _ = (o, since, refl, omega arith, tt, inl (refl, refl))
  oldest_from_lem ((id, d) ∷ m) o since (fresh, ds) =
      elim (Bool-cases (ltb d.last_activity since)) [
        | inl older ↦
            let (r, t, e, le, low, from) = oldest_from_lem m id d.last_activity ds in
            (
              r,
              t,
              rw (older, oldest_from) e,
              ground arith,
              (le, low),
              elim from [
                | inl (p, q) ↦ inr (Held-head r t id d m p q)
                | inr held ↦ inr (Held-tail id r t d m fresh held)
              ],
            )
        | inr newer ↦
            let (r, t, e, le, low, from) = oldest_from_lem m o since ds in
            (
              r,
              t,
              rw (newer, oldest_from) e,
              le,
              (ground arith, low),
              elim from [
                | inl start ↦ inl start
                | inr held ↦ inr (Held-tail id r t d m fresh held)
              ],
            )
      ]

  -- A table that is not empty has an oldest entry.
  pub oldest_from-none :
      (m : Map SymbolId (TierData F))
      → Distinct m
      → 0 < length m
      → (r : ℕ) × (t : ℕ) × (oldest_from m none ≡ some (r, t)) × NoneOlder t m × Held r t m
  unfolding oldest_from
  oldest_from-none [] _ lt = absurd (omega arith)
  oldest_from-none ((id, d) ∷ m) (fresh, ds) lt =
      let (r, t, e, le, low, from) = oldest_from_lem m id d.last_activity ds in
      (
        r,
        t,
        e,
        (le, low),
        elim from [
          | inl (p, q) ↦ Held-head r t id d m p q
          | inr held ↦ Held-tail id r t d m fresh held
        ],
      )
