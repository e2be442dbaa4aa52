-- ===== src/Runtime/Keys.antt =====
-- `idempotency_key_stack` of rust/crates/app_runtime/src/lib.rs. The buffer of 64 bytes holds the
-- longest key, of 46: a prefix of 14, 10 and 20 digits, two dashes. A `u64` has at most 20 digits,
-- which are the fuel of `write_number`.
use Prim.Native.String.{◌++◌, slice}
use ibkr_bot.Base.{ℕ, zero, suc, String, string_eq, ◌+◌, ◌/◌, ◌%◌, ◌==◌, if◌then◌else◌, ltb}

abbrev pub digit : ℕ → String
digit n = slice "0123456789" n (n + 1)

unfoldable pub write_number : ℕ → ℕ → String
write_number zero n = ""
write_number (suc fuel) n =
    let rest = write_number fuel (n / 10) in if ltb n 10 then digit n else rest ++ digit (n % 10)

unfoldable pub idempotency_key_stack : String → ℕ → ℕ → String
unfolding write_number
idempotency_key_stack prefix symbol_id ts =
    let key = write_number 20 symbol_id ++ "-" ++ write_number 20 ts in
    if prefix == "" then key else prefix ++ "-" ++ key
