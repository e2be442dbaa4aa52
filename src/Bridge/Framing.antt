-- ===== src/Bridge/Framing.antt =====
-- The events that come out of a stream of bytes, however it is cut: rust/crates/bridge_rx/src/lib.rs.
-- What is asked of the decoder is what a self-delimiting format gives.
use mathlib.Core.Path.{subst, ap₂}
use ibkr_bot.Base.{
  ℕ, zero, suc, false, List, [], ◌∷◌, ◌++◌, ◌≡◌, ◌≤◌, All, ◌<◌, ◌+◌, ◌⊎◌, ◌∙◌, ap, sym, refl, arith,
  inl, inr, length, length-append,
}
use mathlib.Core.List.{append-nil, append_assoc}
use ibkr_bot.Core.Events.{Event}
use ibkr_bot.Bridge.Batch.{Decoded, decoded, unexpected_eof, drop, Batch, add_event, read_batch}

drop-append : {A : Type 0} (xs ys : List A) → drop (length xs) (xs ++ ys) ≡ ys
drop-append [] ys = refl
drop-append (x ∷ xs) ys = drop-append xs ys

-- Two cuts of one list: one begins with the other.
cut :
    {A : Type 0} (xs ys us vs : List A)
    → xs ++ ys ≡ us ++ vs
    → ((zs : List A) × (xs ≡ us ++ zs) × (zs ++ ys ≡ vs))
      ⊎ ((z : A) × (zs : List A) × (us ≡ xs ++ (z ∷ zs)) × (ys ≡ (z ∷ zs) ++ vs))
cut xs ys [] vs h = inl (xs, refl, h)
cut [] ys (u ∷ us) vs h = inr (u, us, refl, h)
cut (x ∷ xs) ys (u ∷ us) vs h =
    let same : x ≡ u = cc in
    let tails : xs ++ ys ≡ us ++ vs = cc in
    elim (cut xs ys us vs tails) [
      | inl (zs, e, k) ↦ inl (zs, cc, k)
      | inr (z, zs, e, k) ↦ inr (z, zs, cc, k)
    ]

module _ {F : Type 0} (decode : List ℕ → Decoded F) (encode : Event F → List ℕ)
    (Sent : Event F → Type 0) where
  -- The bytes of an event that the bridge sends decode to it, whatever follows, and a part of them is
  -- an unexpected end.
  pub record IsFraming : Type 0 where
    pub whole :
        (event : Event F) (rest : List ℕ)
        → Sent event
        → decode (encode event ++ rest) ≡ decoded event (length (encode event))
    pub part :
        (event : Event F) (x : ℕ) (xs : List ℕ) (z : ℕ) (zs : List ℕ)
        → Sent event
        → encode event ≡ (x ∷ xs) ++ (z ∷ zs)
        → decode (x ∷ xs) ≡ unexpected_eof
    pub some_byte : (event : Event F) → Sent event → 0 < length (encode event)

  abbrev pub encode_all : List (Event F) → List ℕ
  encode_all [] = []
  encode_all (event ∷ events) = encode event ++ encode_all events

  read-decoded :
      (fuel x : ℕ) (buf : List ℕ) (event : Event F) (n : ℕ)
      → decode (x ∷ buf) ≡ decoded event n
      → read_batch decode (suc fuel) (x ∷ buf)
        ≡ add_event event (read_batch decode fuel (drop n (x ∷ buf)))
  unfolding read_batch
  read-decoded fuel x buf event n d = rw (read_batch, d) refl

  read-eof :
      (fuel x : ℕ) (buf : List ℕ)
      → decode (x ∷ buf) ≡ unexpected_eof
      → read_batch decode (suc fuel) (x ∷ buf)
        ≡ record { events = []; rest = x ∷ buf; failed = false }
  unfolding read_batch
  read-eof fuel x buf d = rw (read_batch, d) refl

  -- No event stands whole at the buffer's start.
  abbrev Stuck : List ℕ → Type 0
  Stuck buf = (buf ≡ []) ⊎ (decode buf ≡ unexpected_eof)

  -- A batch took the first of the events of the stream `events`, and left the bytes of the others.
  record Took (b : Batch F) (future : List ℕ) (events : List (Event F)) : Type 0 where
    left : List (Event F)
    split : b.events ++ left ≡ events
    bytes : b.rest ++ future ≡ encode_all left
    stuck : Stuck b.rest
    fine : b.failed ≡ false
    sent : All Sent left

  Took-add :
      (event : Event F) (b : Batch F) (future : List ℕ) (events : List (Event F))
      → Took b future events
      → Took (add_event event b) future (event ∷ events)
  Took-add event b future events t = record {
    left = t.left;
    split = ap (λ xs. event ∷ xs) t.split;
    bytes = t.bytes;
    stuck = t.stuck;
    fine = t.fine;
    sent = t.sent;
  }

  -- The chunks of a stream, read one after the other: the events and the bytes that are left.
  unfoldable pub receive_chunks : List ℕ → List (List ℕ) → List (Event F) × List ℕ
  unfolding read_batch
  receive_chunks buf [] = ([], buf)
  receive_chunks buf (chunk ∷ chunks) =
      let bytes = buf ++ chunk in
      let batch = read_batch decode (length bytes) bytes in
      let rest = receive_chunks batch.rest chunks in (batch.events ++ rest.0, rest.1)

  abbrev pub concat : List (List ℕ) → List ℕ
  concat [] = []
  concat (chunk ∷ chunks) = chunk ++ concat chunks

  module _ (framing : IsFraming) where
    read_batch-Took :
        (fuel : ℕ) (buf future : List ℕ) (events : List (Event F))
        → All Sent events
        → length buf ≤ fuel
        → buf ++ future ≡ encode_all events
        → Took (read_batch decode fuel buf) future events
    unfolding read_batch
    read_batch-Took zero [] future events all le h = record {
      left = events;
      split = refl;
      bytes = h;
      stuck = inl refl;
      fine = refl;
      sent = all;
    }
    read_batch-Took zero (x ∷ buf) future events all le h =
        let absurd : ⊥ = omega arith in elim absurd [ ]
    read_batch-Took (suc fuel) [] future events all le h = record {
      left = events;
      split = refl;
      bytes = h;
      stuck = inl refl;
      fine = refl;
      sent = all;
    }
    read_batch-Took (suc fuel) (x ∷ buf) future [] all le h = cc
    read_batch-Took (suc fuel) (x ∷ buf) future (event ∷ events) (now, all) le h =
        elim (cut (x ∷ buf) future (encode event) (encode_all events) h) [
          | inl (zs, e, k) ↦
              let n = length (encode event) in
              let d : decode (x ∷ buf) ≡ decoded event n =
                ap decode e ∙ framing.whole event zs now in
              let behind : drop n (x ∷ buf) ≡ zs = ap (drop n) e ∙ drop-append (encode event) zs in
              let sizes : length (x ∷ buf) ≡ n + length zs =
                ap length e ∙ length-append (encode event) zs in
              let byte = framing.some_byte event now in
              let rest = read_batch-Took fuel zs future events all (omega arith) k in
              let same =
                read-decoded fuel x buf event n d
                ∙ ap (λ ys. add_event event (read_batch decode fuel ys)) behind in
              subst (λ b. Took b future (event ∷ events)) (sym same)
                (Took-add event (read_batch decode fuel zs) future events rest)
          | inr (z, zs, e, k) ↦
              let d = framing.part event x buf z zs now e in
              subst (λ b. Took b future (event ∷ events)) (sym (read-eof fuel x buf d))
                (record {
                  left = event ∷ events;
                  split = refl;
                  bytes = h;
                  stuck = inr d;
                  fine = refl;
                  sent = (now, all);
                })
        ]

    cut_event :
        (buf : List ℕ) (events : List (Event F))
        → All Sent events
        → Stuck buf
        → buf ≡ encode_all events
        → (events ≡ []) × (buf ≡ [])
    cut_event buf [] all s h = (refl, h)
    cut_event buf (event ∷ events) (now, all) (inl e) h =
        let byte = framing.some_byte event now in
        let none_left : 0 ≡ length (encode_all (event ∷ events)) = ap length (sym e ∙ h) in
        let sizes = length-append (encode event) (encode_all events) in
        let absurd : ⊥ = omega arith in elim absurd [ ]
    cut_event buf (event ∷ events) (now, all) (inr d) h =
        let both = sym d ∙ ap decode h ∙ framing.whole event (encode_all events) now in cc

    chunks-from :
        (buf : List ℕ) (chunks : List (List ℕ)) (events : List (Event F))
        → All Sent events
        → Stuck buf
        → buf ++ concat chunks ≡ encode_all events
        → receive_chunks buf chunks ≡ (events, [])
    unfolding receive_chunks
    chunks-from buf [] events all s h =
        let (none_left, no_bytes) = cut_event buf events all s (sym (append-nil buf) ∙ h) in
        ap₂ (λ xs ys. (xs, ys)) (sym none_left) no_bytes
    chunks-from buf (chunk ∷ chunks) events all s h =
        let bytes = buf ++ chunk in
        let batch = read_batch decode (length bytes) bytes in
        let t =
          read_batch-Took (length bytes) bytes (concat chunks) events all (omega arith)
            (append_assoc buf chunk (concat chunks) ∙ h) in
        let rest = chunks-from batch.rest chunks t.left t.sent t.stuck t.bytes in
        ap (λ (r : List (Event F) × List ℕ). (batch.events ++ r.0, r.1)) rest
        ∙ ap (λ xs. (xs, [])) t.split

    -- However the bytes of some events that the bridge sends are cut into reads, these give exactly the events, in order, and
    -- leave no bytes.
    pub receive_chunks-encode_all :
        (chunks : List (List ℕ)) (events : List (Event F))
        → All Sent events
        → concat chunks ≡ encode_all events
        → receive_chunks [] chunks ≡ (events, [])
    receive_chunks-encode_all chunks events all h = chunks-from [] chunks events all (inl refl) h
