-- ===== src/Bridge/Stops.antt =====
-- The loop over a batch ends by itself: rust/crates/bridge_rx/src/lib.rs.
use ibkr_bot.Base.{
  ℕ, zero, suc, true, List, [], ◌∷◌, ◌≡◌, ◌≤◌, ◌<◌, ◌⊎◌, refl, arith, inl, inr, length,
}
use ibkr_bot.Core.Events.{Event}
use ibkr_bot.Bridge.Batch.{
  Decoded, decoded, unexpected_eof, syntax_error, other_error, drop, Batch, read_batch,
}

length-drop-le : {A : Type 0} (n : ℕ) (xs : List A) → length (drop n xs) ≤ length xs
length-drop-le zero xs = omega arith
length-drop-le (suc n) [] = omega arith
length-drop-le (suc n) (x ∷ xs) = let rest = length-drop-le n xs in omega arith

module _ {F : Type 0} (decode : List ℕ → Decoded F) where
  -- Why the loop ends: an error, no bytes, or bytes that are not yet an event.
  abbrev pub Ended : Batch F → Type 0
  Ended b =
      (b.failed ≡ true)
      ⊎ (b.rest ≡ [])
      ⊎ (decode b.rest ≡ unexpected_eof)
      ⊎ (decode b.rest ≡ syntax_error)

  module _
      (takes_bytes : (buf : List ℕ) (event : Event F) (n : ℕ)
        → decode buf ≡ decoded event n
        → 0 < n) where
    drops :
        (n x : ℕ) (buf : List ℕ) (fuel : ℕ)
        → 0 < n
        → length (x ∷ buf) ≤ suc fuel
        → length (drop n (x ∷ buf)) ≤ fuel
    drops zero x buf fuel p le = let absurd : ⊥ = omega arith in elim absurd [ ]
    drops (suc n) x buf fuel p le = let rest = length-drop-le n buf in omega arith

    -- The first event of a buffer, by what the decoder gives.
    by_decode :
        (fuel x : ℕ) (buf : List ℕ) (d : Decoded F)
        → decode (x ∷ buf) ≡ d
        → length (x ∷ buf) ≤ suc fuel
        → ((buf' : List ℕ) → length buf' ≤ fuel → Ended (read_batch decode fuel buf'))
        → Ended (read_batch decode (suc fuel) (x ∷ buf))
    unfolding read_batch
    by_decode fuel x buf (decoded event n) e le go =
        rw (e, read_batch)
          (go (drop n (x ∷ buf)) (drops n x buf fuel (takes_bytes (x ∷ buf) event n e) le))
    by_decode fuel x buf unexpected_eof e le go = rw (e, read_batch) (inr (inr (inl e)))
    by_decode fuel x buf syntax_error e le go = rw (e, read_batch) (inr (inr (inr e)))
    by_decode fuel x buf other_error e le go = rw (e, read_batch) (inl refl)

    -- With the buffer's length as fuel, or more, the loop over a batch ends by an error or because no
    -- further event stands whole in the buffer, where the decoder takes a byte or more for an event.
    pub read_batch-Ended :
        (fuel : ℕ) (buf : List ℕ) → length buf ≤ fuel → Ended (read_batch decode fuel buf)
    unfolding read_batch
    read_batch-Ended zero [] le = inr (inl refl)
    read_batch-Ended zero (x ∷ buf) le = let absurd : ⊥ = omega arith in elim absurd [ ]
    read_batch-Ended (suc fuel) [] le = inr (inl refl)
    read_batch-Ended (suc fuel) (x ∷ buf) le =
        by_decode fuel x buf (decode (x ∷ buf)) refl le (read_batch-Ended fuel)
