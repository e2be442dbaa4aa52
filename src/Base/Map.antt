-- ===== src/Base/Map.antt =====
-- `HashMap` as an association list: the list's order is one order of iteration.
use mathlib.Core.Option
use Prim.Native.Nat.{◌+◌, ◌≤◌, ◌<◌}
use mathlib.Core.Path.{◌≡◌, refl, sym, subst, subst₂}
use mathlib.Core.Bool.{Bool, true, false}
use mathlib.Core.Option.{Option, none, some, some-injective}
use mathlib.Core.List.{List, [], ◌∷◌}
use mathlib.Core.Logic.{inl, inr}
use native.Mathlib.Omega.{arith}
use ibkr_bot.Base.Tests.{Key, ◌==◌, if◌then◌else◌, Bool-cases, ==_refl}
use ibkr_bot.Base.Lists.{length, All}

abbrev pub Map {ℓ} : Type ℓ → Type ℓ → Type ℓ
Map K V = List (K × V)

abbrev pub is_some {ℓ} : {A : Type ℓ} → Option A → Bool
is_some none = false
is_some (some a) = true

module _ {ℓ} {K V : Type ℓ} where
  -- `iter_mut`: every entry is given a new value.
  unfoldable pub map_values : (K → V → V) → Map K V → Map K V
  map_values f [] = []
  map_values f ((k, v) ∷ m) = (k, f k v) ∷ map_values f m

  -- `retain`, with the value changed in place.
  unfoldable pub retain_map : (V → Option V) → Map K V → Map K V
  retain_map f [] = []
  retain_map f ((k, v) ∷ m) = elim (f v) [
    | none ↦ retain_map f m
    | some w ↦ (k, w) ∷ retain_map f m
  ]

  pub length-map_values : (f : K → V → V) (m : Map K V) → length (map_values f m) ≡ length m
  unfolding map_values
  length-map_values f [] = refl
  length-map_values f ((k, v) ∷ m) = ground (arith, length-map_values f m)

  abbrev pub Entries : (K → V → Type 0) → Map K V → Type 0
  Entries P = All (λ p. P p.0 p.1)

  pub Entries-map_values :
      (P Q : K → V → Type 0) (f : K → V → V) (m : Map K V)
      → ((k : K) (v : V) → P k v → Q k (f k v))
      → Entries P m
      → Entries Q (map_values f m)
  unfolding map_values
  Entries-map_values P Q f [] h _ = tt
  Entries-map_values P Q f ((k, v) ∷ m) h (p, ps) = (h k v p, Entries-map_values P Q f m h ps)

  pub Entries-map_values_all :
      (Q : K → V → Type 0) (f : K → V → V) (m : Map K V)
      → ((k : K) (v : V) → Q k (f k v))
      → Entries Q (map_values f m)
  unfolding map_values
  Entries-map_values_all Q f [] h = tt
  Entries-map_values_all Q f ((k, v) ∷ m) h = (h k v, Entries-map_values_all Q f m h)

module _ {ℓ} {K V : Type ℓ} ⦃e : Key K⦄ where
  unfoldable pub lookup : K → Map K V → Option V
  lookup k [] = none
  lookup k ((i, w) ∷ rest) = if i == k then some w else lookup k rest

  unfoldable pub remove : K → Map K V → Map K V
  remove k [] = []
  remove k ((j, w) ∷ m) = if j == k then remove k m else (j, w) ∷ remove k m

  unfoldable pub insert : K → V → Map K V → Map K V
  insert k v [] = (k, v) ∷ []
  insert k v ((i, w) ∷ rest) = if i == k then (k, v) ∷ rest else (i, w) ∷ insert k v rest

  -- `get_mut` followed by writes through the reference.
  unfoldable pub adjust : K → (V → V) → Map K V → Map K V
  adjust k f [] = []
  adjust k f ((j, w) ∷ m) = if j == k then (j, f w) ∷ m else (j, w) ∷ adjust k f m

  abbrev pub contains_key : K → Map K V → Bool
  contains_key k m = is_some (lookup k m)

  pub lookup-insert :
      (k j : K) (v : V) (m : Map K V)
      → lookup j (insert k v m) ≡ (if k == j then some v else lookup j m)
  unfolding insert lookup
  lookup-insert k j v [] = refl
  lookup-insert k j v ((i, w) ∷ m) =
      ground (arith, e.same_iff k j, e.same_iff i k, e.same_iff i j, lookup-insert k j v m)

  pub lookup-remove :
      (k j : K) (m : Map K V) → lookup j (remove k m) ≡ (if k == j then none else lookup j m)
  unfolding lookup remove
  lookup-remove k j [] = ground arith
  lookup-remove k j ((i, w) ∷ m) =
      ground (arith, e.same_iff k j, e.same_iff i k, e.same_iff i j, lookup-remove k j m)

  pub lookup-adjust :
      (k j : K) (f : V → V) (m : Map K V)
      → lookup j (adjust k f m) ≡ (if k == j then Option.map f (lookup j m) else lookup j m)
  unfolding lookup adjust
  lookup-adjust k j f [] = ground arith
  lookup-adjust k j f ((i, w) ∷ m) =
      ground (arith, e.same_iff k j, e.same_iff i k, e.same_iff i j, lookup-adjust k j f m)

  pub lookup-adjust_self :
      (k : K) (f : V → V) (m : Map K V) (v : V)
      → lookup k m ≡ some v
      → lookup k (adjust k f m) ≡ some (f v)
  lookup-adjust_self k f m v h = rw (lookup-adjust k k f m, ==_refl k, h)

  pub lookup-map_values :
      (k : K) (f : K → V → V) (m : Map K V)
      → lookup k (map_values f m) ≡ Option.map (f k) (lookup k m)
  unfolding lookup map_values
  lookup-map_values k f [] = refl
  lookup-map_values k f ((i, w) ∷ m) = ground (arith, e.same_iff i k, lookup-map_values k f m)

  pub contains_key-insert :
      (k j : K) (v : V) (m : Map K V)
      → contains_key j (insert k v m) ≡ (if k == j then true else contains_key j m)
  contains_key-insert k j v m = ground (arith, lookup-insert k j v m)

  pub contains_key-remove :
      (k j : K) (m : Map K V)
      → contains_key j (remove k m) ≡ (if k == j then false else contains_key j m)
  contains_key-remove k j m = ground (arith, lookup-remove k j m)

  pub contains_key-adjust :
      (k j : K) (f : V → V) (m : Map K V) → contains_key j (adjust k f m) ≡ contains_key j m
  contains_key-adjust k j f m = rw (lookup-adjust k j f m) (ground arith)

  pub contains_key-map_values :
      (k : K) (f : K → V → V) (m : Map K V) → contains_key k (map_values f m) ≡ contains_key k m
  contains_key-map_values k f m = rw (lookup-map_values k f m) (ground arith)

  pub length-insert-le : (k : K) (v : V) (m : Map K V) → length (insert k v m) ≤ length m + 1
  unfolding insert
  length-insert-le k v [] = omega arith
  length-insert-le k v ((i, w) ∷ m) = ground (arith, length-insert-le k v m)

  pub length-insert_absent :
      (k : K) (v : V) (m : Map K V) → lookup k m ≡ none → length (insert k v m) ≡ length m + 1
  unfolding insert lookup
  length-insert_absent k v [] h = omega arith
  length-insert_absent k v ((i, w) ∷ m) h = ground (arith, length-insert_absent k v m)

  pub length-remove-le : (k : K) (m : Map K V) → length (remove k m) ≤ length m
  unfolding remove
  length-remove-le k [] = omega arith
  length-remove-le k ((i, w) ∷ m) = ground (arith, length-remove-le k m)

  pub length-remove-lt :
      (k : K) (v : V) (m : Map K V) → lookup k m ≡ some v → length (remove k m) < length m
  unfolding lookup remove
  length-remove-lt k v [] h = cc
  length-remove-lt k v ((i, w) ∷ m) h = ground (arith, length-remove-lt k v m, length-remove-le k m)

  pub length-adjust : (k : K) (f : V → V) (m : Map K V) → length (adjust k f m) ≡ length m
  unfolding adjust
  length-adjust k f [] = refl
  length-adjust k f ((i, w) ∷ m) = ground (arith, length-adjust k f m)

  module _ (P : K → V → Type 0) where
    pub Entries-lookup : (k : K) (v : V) (m : Map K V) → Entries P m → lookup k m ≡ some v → P k v
    unfolding lookup
    Entries-lookup k v [] h q = cc
    Entries-lookup k v ((i, w) ∷ m) (p, ps) q = elim (Bool-cases (i == k)) [
      | inl t ↦
          let same : i ≡ k = (e.same_iff i k).0 t in
          let it : w ≡ v = some-injective _ _ (rw t at q) in subst₂ P same it p
      | inr t ↦ Entries-lookup k v m ps (rw t at q)
    ]

    pub Entries-insert :
        (k : K) (v : V) (m : Map K V) → P k v → Entries P m → Entries P (insert k v m)
    unfolding insert
    Entries-insert k v [] p _ = (p, tt)
    Entries-insert k v ((i, w) ∷ m) p (q, qs) = elim (Bool-cases (i == k)) [
      | inl t ↦ rw t (p, qs)
      | inr t ↦ rw t (q, Entries-insert k v m p qs)
    ]

    pub Entries-remove : (k : K) (m : Map K V) → Entries P m → Entries P (remove k m)
    unfolding remove
    Entries-remove k [] _ = tt
    Entries-remove k ((i, w) ∷ m) (q, qs) = elim (Bool-cases (i == k)) [
      | inl t ↦ rw t (Entries-remove k m qs)
      | inr t ↦ rw t (q, Entries-remove k m qs)
    ]

    pub Entries-adjust :
        (k : K) (f : V → V) (m : Map K V)
        → ((v : V) → P k v → P k (f v))
        → Entries P m
        → Entries P (adjust k f m)
    unfolding adjust
    Entries-adjust k f [] h _ = tt
    Entries-adjust k f ((i, w) ∷ m) h (q, qs) = elim (Bool-cases (i == k)) [
      | inl t ↦
          let same : i ≡ k = (e.same_iff i k).0 t in
          rw t (subst (λ x. P x (f w)) (sym same) (h w (subst (λ x. P x w) same q)), qs)
      | inr t ↦ rw t (q, Entries-adjust k f m h qs)
    ]
