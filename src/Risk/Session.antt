-- ===== src/Risk/Session.antt =====
-- `SessionGuard` of rust/crates/risk_engine/src/session.rs. The time of day in New York, in seconds,
-- is a parameter: it is what chrono and its time zone data make of a time in seconds.
use ibkr_bot.Base.{
  ℕ, Bool, true, false, ◌/◌, ◌*◌, ◌+◌, ◌≤◌, ◌<◌, ◌≡◌, ◌↔◌, ◌⊎◌, ◌||◌, if◌then◌else◌, ltb, leb,
  arith,
}

pub data SessionState : Type 0 where
  closed pre_market open_volatility trading_hours close_volatility after_hours : SessionState

pub record SessionGuard : Type 0 where
  pub pre_after_enabled : Bool

abbrev pub new_session_guard : Bool → SessionGuard
new_session_guard pre_after_enabled = record { pre_after_enabled = pre_after_enabled }

-- Hours and minutes as seconds.
abbrev pub hm : ℕ → ℕ → ℕ
hm hours minutes = hours * 3600 + minutes * 60

module _ (eastern : ℕ → ℕ) where
  unfoldable pub session_state : SessionGuard → ℕ → SessionState
  session_state g ts_micros =
      let t = eastern (ts_micros / 1_000_000) in
      if ltb t (hm 4 0) || leb (hm 20 0) t
      then closed
      else if ltb t (hm 9 30)
      then pre_market
      else if ltb t (hm 9 45)
      then open_volatility
      else if ltb t (hm 15 45)
      then trading_hours
      else if ltb t (hm 16 0)
      then close_volatility
      else after_hours

  unfoldable pub entry_allowed : SessionGuard → ℕ → Bool
  unfolding session_state
  entry_allowed g ts_micros = elim (session_state g ts_micros) [
    | trading_hours ↦ true
    | pre_market ↦ g.pre_after_enabled
    | after_hours ↦ g.pre_after_enabled
    | _ ↦ false
  ]

  -- An entry is allowed from 09:45 to before 15:45, and from 04:00 to before 09:30 and from 16:00 to
  -- before 20:00 where the guard enables that, and at no other time.
  entry_allowed_iff :
      (g : SessionGuard) (ts : ℕ)
      → let t = eastern (ts / 1_000_000) in
        (entry_allowed g ts ≡ true) ↔ (
          ((hm 9 45 ≤ t) × (t < hm 15 45))
          ⊎ ((g.pre_after_enabled ≡ true)
              × (((hm 4 0 ≤ t) × (t < hm 9 30)) ⊎ ((hm 16 0 ≤ t) × (t < hm 20 0)))))
  unfolding entry_allowed
  entry_allowed_iff g ts = ground arith
