-- ===== src/Risk/Blocklist.antt =====
-- `Blocklist` of rust/crates/risk_engine/src/blocklist.rs. The clock, today's date and what the file
-- system and the TOML parser give are arguments; a set of ids is a list.
use ibkr_bot.Base.{
  ℕ, String, string_eq, nat_eq, Bool, true, false, Option, some, none, List, [], ◌∷◌, ◌-◌,
  if◌then◌else◌, leb, ltb, contains,
}
use ibkr_bot.Base.Map.{Map, lookup, insert}
use ibkr_bot.Core.Types.{SymbolId}

pub record BlocklistEntry : Type 0 where
  pub symbol : String
  pub reason : String
  pub date_added : String
  pub expiry : Option String
  pub auto_added : Bool

pub record Blocklist : Type 0 where
  pub entries : Map String BlocklistEntry
  pub blocked_ids : List SymbolId
  pub ticker_to_id : Map String SymbolId
  pub last_loaded : ℕ
  pub reload_interval : ℕ

-- What a reload finds at the path.
pub data FileRead : Type 0 where
  missing unreadable unparsable : FileRead
  parsed : List BlocklistEntry → FileRead

-- The world at a call: the time, today's date, `<=` on dates as strings, and the file.
pub record World : Type 0 where
  pub now : ℕ
  pub today : String
  pub at_most : String → String → Bool
  pub file : FileRead

-- The ids of the entries whose ticker is registered.
unfoldable pub ids_of : Map String BlocklistEntry → Map String SymbolId → List SymbolId
ids_of [] ids = []
ids_of ((ticker, entry) ∷ rest) ids = elim (lookup ticker ids) [
  | none ↦ ids_of rest ids
  | some id ↦ id ∷ ids_of rest ids
]

unfoldable pub rebuild_id_set : Blocklist → Blocklist
unfolding ids_of
rebuild_id_set bl = record bl { blocked_ids = ids_of bl.entries bl.ticker_to_id }

unfoldable pub register_symbol : Blocklist → String → SymbolId → Blocklist
unfolding rebuild_id_set
register_symbol bl ticker id =
    rebuild_id_set (record bl { ticker_to_id = insert ticker id bl.ticker_to_id })

unfoldable pub is_blocked : Blocklist → SymbolId → Bool
is_blocked bl id = contains bl.blocked_ids id

unfoldable pub auto_block : World → Blocklist → String → String → Blocklist
unfolding rebuild_id_set
auto_block w bl ticker reason =
    let entry : BlocklistEntry = record {
      symbol = ticker;
      reason = reason;
      date_added = w.today;
      expiry = none;
      auto_added = true;
    } in
    rebuild_id_set (record bl { entries = insert ticker entry bl.entries })

unfoldable pub is_expired : World → BlocklistEntry → Bool
is_expired w entry = elim entry.expiry [ none ↦ false | some exp ↦ w.at_most exp w.today ]

-- The `filter`, `map` and `collect` of `load`.
unfoldable pub active_entries :
    World → List BlocklistEntry → Map String BlocklistEntry → Map String BlocklistEntry
unfolding is_expired
active_entries w [] found = found
active_entries w (entry ∷ rest) found =
    if is_expired w entry
    then active_entries w rest found
    else active_entries w rest (insert entry.symbol entry found)

-- `load`, on what is found at the path.
unfoldable pub load_file : World → Blocklist → FileRead → Blocklist
unfolding rebuild_id_set active_entries
load_file w bl missing = record bl { last_loaded = w.now }
load_file w bl unreadable = bl
load_file w bl unparsable = bl
load_file w bl (parsed symbols) =
    record (rebuild_id_set (record bl { entries = active_entries w symbols [] })) {
      last_loaded = w.now;
    }

unfoldable pub load : World → Blocklist → Blocklist
unfolding load_file
load w bl = load_file w bl w.file

-- A clock that went back counts as the whole interval.
unfoldable pub reload_if_needed : World → Blocklist → Blocklist
unfolding load
reload_if_needed w bl =
    if ltb w.now bl.last_loaded
    then load w bl
    else if leb bl.reload_interval (w.now - bl.last_loaded)
    then load w bl
    else bl

unfoldable pub new_blocklist : World → ℕ → Blocklist
unfolding reload_if_needed
new_blocklist w reload_secs = reload_if_needed w (record {
  entries = [];
  blocked_ids = [];
  ticker_to_id = [];
  last_loaded = 0;
  reload_interval = reload_secs;
})
