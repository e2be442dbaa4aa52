-- ===== src/Core/TimeBuffer/Ring.antt =====
-- Indices around the ring, and what stands in the slots: rust/crates/core_types/src/time_buffer.rs.
use native.Mathlib.Nat.{mod_self}
use ibkr_bot.Base.{
  ℕ, suc, nat_eq, Option, some, List, [], ◌∷◌, ◌++◌, ◌+◌, ◌-◌, ◌%◌, ◌<◌, ◌≤◌, ◌≡◌, ◌∙◌, ◌≢◌, refl,
  ◌==◌, if◌then◌else◌, leb, get_elem?, set, length, length-append, get_elem?-set_ne, arith, inl,
  inr, Bool-cases, nat_beq_iff,
}

-- The steps from one index up to another, around the ring.
abbrev pub gap : ℕ → ℕ → ℕ → ℕ
gap cap t h = if leb t h then h - t else cap + h - t

next_lt : (cap i : ℕ) → i < cap → i + 1 < cap → (i + 1) % cap ≡ i + 1
next_lt cap i h k = grind arith

next_wrap : (cap i : ℕ) → i + 1 ≡ cap → (i + 1) % cap ≡ 0
next_wrap cap i h = rw h (mod_self cap)

abbrev pub next : ℕ → ℕ → ℕ
next cap i = if i + 1 == cap then 0 else i + 1

pub next_lem : (cap i : ℕ) → i < cap → (i + 1) % cap ≡ next cap i
next_lem cap i h = elim (Bool-cases (i + 1 == cap)) [
  | inl t ↦ rw t (next_wrap cap i ((nat_beq_iff (i + 1) cap).0 t))
  | inr t ↦ rw t (next_lt cap i h (ground arith))
]

pub gap-next_tail :
    (cap t h n : ℕ) → t < cap → h < cap → gap cap t h ≡ suc n → gap cap (next cap t) h ≡ n
gap-next_tail cap t h n ht hh e = ground arith

pub gap-next_tail_le :
    (cap t h n : ℕ) → t < cap → h < cap → suc n ≤ gap cap t h → n ≤ gap cap (next cap t) h
gap-next_tail_le cap t h n ht hh e = ground arith

pub gap-next_head :
    (cap t h : ℕ) → t < cap → h < cap → next cap h ≢ t → gap cap t (next cap h) ≡ gap cap t h + 1
gap-next_head cap t h ht hh e = ground arith

pub gap-next_full :
    (cap t h : ℕ)
    → t < cap
    → h < cap
    → next cap h ≡ t
    → gap cap (next cap t) (next cap h) ≡ gap cap t h
gap-next_full cap t h ht hh e = ground arith

-- The head stands right behind the tail exactly when all places but one are taken.
pub gap_full : (cap t h : ℕ) → t < cap → h < cap → next cap h ≡ t → gap cap t h ≡ cap - 1
gap_full cap t h ht hh e = ground arith

pub gap_free : (cap t h : ℕ) → t < cap → h < cap → next cap h ≢ t → gap cap t h < cap - 1
gap_free cap t h ht hh e = ground arith

pub gap_lt : (cap t h : ℕ) → t < cap → h < cap → gap cap t h < cap
gap_lt cap t h ht hh = ground arith

abbrev pub drop_first : {A : Type 0} → List A → List A
drop_first [] = []
drop_first (x ∷ xs) = xs

module _ {A : Type 0} where
  -- The entries that stand from an index on.
  abbrev pub Reads : ℕ → List (Option (ℕ × A)) → ℕ → List (ℕ × A) → Type 0
  Reads cap buffer t [] = Unit
  Reads cap buffer t (x ∷ xs) =
      (get_elem? buffer t ≡ some (some x)) × Reads cap buffer (next cap t) xs

  pub Reads-set :
      (cap t h : ℕ) (buffer : List (Option (ℕ × A))) (v : Option (ℕ × A)) (xs : List (ℕ × A))
      → t < cap
      → h < cap
      → length xs ≤ gap cap t h
      → Reads cap buffer t xs
      → Reads cap (set buffer h v) t xs
  Reads-set cap t h buffer v [] ht hh le _ = tt
  Reads-set cap t h buffer v (x ∷ xs) ht hh le (r, rs) = (
    get_elem?-set_ne buffer h t v (λ e. ground arith) ∙ r,
    Reads-set cap (next cap t) h buffer v xs (ground arith) hh
        (gap-next_tail_le cap t h (length xs) ht hh le) rs,
  )

  pub Reads-snoc :
      (cap t h : ℕ) (buffer : List (Option (ℕ × A))) (x : ℕ × A) (xs : List (ℕ × A))
      → t < cap
      → h < cap
      → gap cap t h ≡ length xs
      → get_elem? buffer h ≡ some (some x)
      → Reads cap buffer t xs
      → Reads cap buffer t (xs ++ x ∷ [])
  Reads-snoc cap t h buffer x [] ht hh e g _ = let same : t ≡ h = ground arith in (rw same g, tt)
  Reads-snoc cap t h buffer x (y ∷ xs) ht hh e g (r, rs) = (
    r,
    Reads-snoc cap (next cap t) h buffer x xs (ground arith) hh
        (gap-next_tail cap t h (length xs) ht hh e) g rs,
  )

  pub Reads-drop_first :
      (cap t : ℕ) (buffer : List (Option (ℕ × A))) (xs : List (ℕ × A))
      → Reads cap buffer t xs
      → Reads cap buffer (next cap t) (drop_first xs)
  Reads-drop_first cap t buffer [] _ = tt
  Reads-drop_first cap t buffer (x ∷ xs) (r, rs) = rs

  pub length-drop_first :
      (xs : List (ℕ × A)) (x : ℕ × A) → length (drop_first (xs ++ x ∷ [])) ≡ length xs
  length-drop_first [] x = refl
  length-drop_first (y ∷ xs) x = omega (arith, length-append xs (x ∷ []))
