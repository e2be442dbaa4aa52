-- ===== src/Risk/Reload.antt =====
-- What a reload of the file does to the blocklist: rust/crates/risk_engine/src/blocklist.rs.
use ibkr_bot.Base.{
  String, string_eq, nat_eq, true, false, some, none, List, [], ◌∷◌, ◌≡◌, ◌∙◌, refl, ◌==◌, ==_refl,
  contains, All, arith, inl, inr, Bool-cases, Option-cases,
}
use ibkr_bot.Base.Map.{Map, lookup, insert, lookup-insert}
use ibkr_bot.Core.Types.{SymbolId}
use ibkr_bot.Risk.Blocklist.{
  BlocklistEntry, Blocklist, World, parsed, ids_of, rebuild_id_set, is_blocked, auto_block,
  is_expired, active_entries, load, load_file,
}

-- The ids of a table have the id of each of its tickers.
ids_of-lookup :
    (entries : Map String BlocklistEntry) (ids : Map String SymbolId) (ticker : String)
    (id : SymbolId) (e : BlocklistEntry)
    → lookup ticker entries ≡ some e
    → lookup ticker ids ≡ some id
    → contains (ids_of entries ids) id ≡ true
unfolding ids_of lookup
ids_of-lookup [] ids ticker id e h at = cc
ids_of-lookup ((t, x) ∷ entries) ids ticker id e h at = elim (Bool-cases (t == ticker)) [
  | inl here ↦
      let same : t ≡ ticker = (string_eq.same_iff t ticker).0 here in
      let found : lookup t ids ≡ some id = rw same at in rw (ids_of, found) (rw (==_refl id) refl)
  | inr apart ↦
      let rest = ids_of-lookup entries ids ticker id e (rw apart at h) at in
      elim (Option-cases (lookup t ids)) [
        | inl none_at ↦ rw (ids_of, none_at) rest
        | inr (j, j_at) ↦ rw (ids_of, j_at) (ground (arith, rest))
      ]
]

active_entries-lookup :
    (w : World) (symbols : List BlocklistEntry) (found : Map String BlocklistEntry)
    (ticker : String)
    → All (λ e. (e.symbol == ticker) ≡ false) symbols
    → lookup ticker (active_entries w symbols found) ≡ lookup ticker found
unfolding active_entries
active_entries-lookup w [] found ticker _ = refl
active_entries-lookup w (e ∷ symbols) found ticker (ne, nes) = elim (Bool-cases (is_expired w e)) [
  | inl t ↦ rw t (active_entries-lookup w symbols found ticker nes)
  | inr t ↦ rw t (
      active_entries-lookup w symbols (insert e.symbol e found) ticker nes
      ∙ rw (lookup-insert e.symbol ticker e found, ne) refl)
]

abbrev no_entries : Map String BlocklistEntry
no_entries = []

nothing_in : (ticker : String) → lookup ticker no_entries ≡ none
unfolding lookup
nothing_in ticker = refl

-- A ticker that is blocked by `auto_block` and has an id is blocked, and the next reload of a file
-- that does not list it takes its entry away again.
pub auto_block_until_load :
    (w w' : World) (bl : Blocklist) (ticker reason : String) (id : SymbolId)
    (symbols : List BlocklistEntry)
    → lookup ticker bl.ticker_to_id ≡ some id
    → w'.file ≡ parsed symbols
    → All (λ e. (e.symbol == ticker) ≡ false) symbols
    → (is_blocked (auto_block w bl ticker reason) id ≡ true)
      × (lookup ticker (load w' (auto_block w bl ticker reason)).entries ≡ none)
unfolding is_blocked auto_block rebuild_id_set load load_file
auto_block_until_load w w' bl ticker reason id symbols at file absent =
    let e : BlocklistEntry = record {
      symbol = ticker;
      reason = reason;
      date_added = w.today;
      expiry = none;
      auto_added = true;
    } in
    (
      ids_of-lookup (insert ticker e bl.entries) bl.ticker_to_id ticker id e
          (rw (lookup-insert ticker ticker e bl.entries, ==_refl ticker) refl) at,
      rw file (
          active_entries-lookup (record w' { file = parsed symbols }) symbols no_entries ticker
            absent
          ∙ nothing_in ticker),
    )
