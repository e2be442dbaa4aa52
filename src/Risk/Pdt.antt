-- ===== src/Risk/Pdt.antt =====
-- `PdtGuard` of rust/crates/risk_engine/src/pdt.rs: day trades in a window of five days. The deque is
-- a list, its front first.
use ibkr_bot.Base.{
  ℕ, Bool, List, [], ◌∷◌, ◌++◌, ◌+◌, ◌-◌, ◌≤◌, ◌≡◌, refl, if◌then◌else◌, ltb, leb, length, retain,
  All, arith,
}

pub record PdtGuard : Type 0 where
  pub trades : List (ℕ × ℕ)
  pub max_day_trades : ℕ

abbrev pub new_pdt_guard : ℕ → PdtGuard
new_pdt_guard max_day_trades = record { trades = []; max_day_trades = max_day_trades }

abbrev pub in_window : ℕ → ℕ × ℕ → Bool
in_window today (d, symbol) = ltb (today - d) 5

unfoldable pub day_trade_count_last_5_days : PdtGuard → ℕ → ℕ
day_trade_count_last_5_days g today = length (retain (in_window today) g.trades)

-- The `while let` loop of `record_day_trade`.
unfoldable pub prune_front : ℕ → List (ℕ × ℕ) → List (ℕ × ℕ)
prune_front date [] = []
prune_front date ((d, symbol) ∷ rest) =
    if leb 5 (date - d) then prune_front date rest else (d, symbol) ∷ rest

unfoldable pub record_day_trade : PdtGuard → ℕ → ℕ → PdtGuard
unfolding prune_front
record_day_trade g date symbol = record g {
  trades = prune_front date (g.trades ++ (date, symbol) ∷ []);
}

unfoldable pub would_violate : PdtGuard → ℕ → Bool
unfolding day_trade_count_last_5_days
would_violate g today = leb g.max_day_trades (day_trade_count_last_5_days g today)

-- Day trades recorded one after the other.
abbrev pub record_all : PdtGuard → List (ℕ × ℕ) → PdtGuard
record_all g [] = g
record_all g ((date, symbol) ∷ rest) = record_all (record_day_trade g date symbol) rest

-- What is pruned on one day is in no window from that day on.
length-prune_front :
    (date today : ℕ) (ts : List (ℕ × ℕ))
    → date ≤ today
    → length (retain (in_window today) (prune_front date ts)) ≡ length (retain (in_window today) ts)
unfolding prune_front
length-prune_front date today [] le = refl
length-prune_front date today ((d, symbol) ∷ ts) le =
    ground (arith, length-prune_front date today ts le)

length-retain-append :
    (today : ℕ) (ts us : List (ℕ × ℕ))
    → length (retain (in_window today) (ts ++ us))
      ≡ length (retain (in_window today) ts) + length (retain (in_window today) us)
length-retain-append today [] us = omega arith
length-retain-append today (t ∷ ts) us = ground (arith, length-retain-append today ts us)

record_all-count :
    (g : PdtGuard) (history : List (ℕ × ℕ)) (today : ℕ)
    → All (λ t. t.0 ≤ today) history
    → day_trade_count_last_5_days (record_all g history) today
      ≡ day_trade_count_last_5_days g today + length (retain (in_window today) history)
unfolding day_trade_count_last_5_days record_day_trade
record_all-count g [] today _ = omega arith
record_all-count g ((date, symbol) ∷ rest) today (le, les) = ground (
  arith,
  record_all-count (record_day_trade g date symbol) rest today les,
  length-prune_front date today (g.trades ++ (date, symbol) ∷ []) le,
  length-retain-append today g.trades ((date, symbol) ∷ []),
)

record_all-limit :
    (g : PdtGuard) (history : List (ℕ × ℕ))
    → (record_all g history).max_day_trades ≡ g.max_day_trades
unfolding record_day_trade
record_all-limit g [] = refl
record_all-limit g ((date, symbol) ∷ rest) = record_all-limit (record_day_trade g date symbol) rest

none_before : (limit today : ℕ) → day_trade_count_last_5_days (new_pdt_guard limit) today ≡ 0
unfolding day_trade_count_last_5_days
none_before limit today = refl

-- No day trade that still counts is pruned: after any day trades none of which is later than today, an
-- entry is refused exactly if as many of them as the limit are less than five days old.
pub would_violate-record_all :
    (limit : ℕ) (history : List (ℕ × ℕ)) (today : ℕ)
    → All (λ t. t.0 ≤ today) history
    → would_violate (record_all (new_pdt_guard limit) history) today
      ≡ leb limit (length (retain (in_window today) history))
unfolding would_violate
would_violate-record_all limit history today le = ground (
  arith,
  record_all-limit (new_pdt_guard limit) history,
  record_all-count (new_pdt_guard limit) history today le,
  none_before limit today,
)
