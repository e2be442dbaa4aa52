-- ===== src/Base/Keys.antt =====
-- The keys of a table that the operations fill stand in it once.
use mathlib.Core.Path.{◌≡◌, refl, sym}
use mathlib.Core.Bool.{false}
use mathlib.Core.List.{[], ◌∷◌}
use mathlib.Core.Logic.{inl, inr}
use native.Mathlib.Omega.{arith}
use ibkr_bot.Base.Tests.{Key, ◌==◌, Bool-cases}
use ibkr_bot.Base.Map.{
  Map, lookup, insert, remove, adjust, map_values, contains_key, contains_key-insert,
  contains_key-remove, contains_key-adjust, contains_key-map_values,
}

module _ {ℓ} {K V : Type ℓ} ⦃e : Key K⦄ where
  abbrev pub Distinct : Map K V → Type 0
  Distinct [] = Unit
  Distinct ((k, v) ∷ m) = (contains_key k m ≡ false) × Distinct m

  pub Distinct-insert : (k : K) (v : V) (m : Map K V) → Distinct m → Distinct (insert k v m)
  unfolding insert lookup
  Distinct-insert k v [] _ = (refl, tt)
  Distinct-insert k v ((i, w) ∷ m) (d, ds) = elim (Bool-cases (i == k)) [
    | inl t ↦ let same : i ≡ k = (e.same_iff i k).0 t in rw (t, sym same) (d, ds)
    | inr t ↦
        let apart : (k == i) ≡ false = ground (arith, e.same_iff i k, e.same_iff k i) in
        rw t (rw (contains_key-insert k i v m, apart) d, Distinct-insert k v m ds)
  ]

  pub Distinct-remove : (k : K) (m : Map K V) → Distinct m → Distinct (remove k m)
  unfolding remove
  Distinct-remove k [] _ = tt
  Distinct-remove k ((i, w) ∷ m) (d, ds) = elim (Bool-cases (i == k)) [
    | inl t ↦ rw t (Distinct-remove k m ds)
    | inr t ↦ rw t (ground (arith, contains_key-remove k i m), Distinct-remove k m ds)
  ]

  pub Distinct-adjust : (k : K) (f : V → V) (m : Map K V) → Distinct m → Distinct (adjust k f m)
  unfolding adjust
  Distinct-adjust k f [] _ = tt
  Distinct-adjust k f ((i, w) ∷ m) (d, ds) = elim (Bool-cases (i == k)) [
    | inl t ↦ rw t (d, ds)
    | inr t ↦ rw t (rw (contains_key-adjust k i f m) d, Distinct-adjust k f m ds)
  ]

  pub Distinct-map_values : (f : K → V → V) (m : Map K V) → Distinct m → Distinct (map_values f m)
  unfolding map_values
  Distinct-map_values f [] _ = tt
  Distinct-map_values f ((i, w) ∷ m) (d, ds) =
      (rw (contains_key-map_values i f m) d, Distinct-map_values f m ds)
