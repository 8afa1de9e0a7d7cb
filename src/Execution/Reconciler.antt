-- ===== src/Execution/Reconciler.antt =====
-- execution/reconciler.py: the broker's positions against the persisted records at a restart.
pub mod Drift
pub mod Preference
pub mod Backfill
use trader_ai.Prelude.{
  Bool, true, false, not, ◌&&◌, ◌||◌, Option, none, some, List, [], ◌∷◌, ◌++◌, map, if◌then◌else◌,
  ltb, eqb_ℤ, ℤ, String, str_eq,
}
use trader_ai.Prelude.Dict.{Dict, lookup, insert}
use trader_ai.Clock.{Datetime}
use trader_ai.Execution.Broker.{Position, PositionSide, long, short}
use trader_ai.Execution.OrderState.{OrderRecord, is_open}

pub record LocalPositionSnapshot (F : Type 0) : Type 0 where
  pub symbol : String
  pub side : PositionSide
  pub qty : ℤ
  pub entry_price : F
  pub strategy_id : String

pub record ReconciledOrder (F : Type 0) : Type 0 where
  pub order_id : String
  pub symbol : String
  pub status : String
  pub qty : ℤ
  pub price : F

-- a row of the orderbook; a missing text is empty and a missing number zero
pub record OrderbookRow (F : Type 0) : Type 0 where
  pub tag : String
  pub tradingsymbol : String
  pub order_id : String
  pub status : String
  pub quantity : ℤ
  pub price : F

pub record ReconciledState (F : Type 0) : Type 0 where
  pub reconciled_at : Datetime
  pub positions : List (Position F)
  pub open_orders : List (ReconciledOrder F)
  pub drift_symbols : List String

-- `symbol in symbols`
abbrev pub has : String → List String → Bool
has s [] = false
has s (t ∷ ts) = str_eq s t || has s ts

-- `drift.add(symbol)`
abbrev pub add_symbol : String → List String → List String
add_symbol s ts = if has s ts then ts else ts ++ s ∷ []

abbrev pub is_empty : {A : Type 0} → List A → Bool
is_empty [] = true
is_empty (x ∷ xs) = false

abbrev pub side_eq : PositionSide → PositionSide → Bool
side_eq long long = true
side_eq short short = true
side_eq a b = false

abbrev pub tag_matches : Option String → String → Bool
tag_matches none symbol = false
tag_matches (some t) symbol = str_eq t symbol

unfoldable pub is_open_status : String → Bool
is_open_status status =
    str_eq status "OPEN"
    || str_eq status "TRIGGER PENDING"
    || str_eq status "PUT ORDER REQ RECEIVED"

abbrev pub is_missing : {V : Type 0} → Option V → Bool
is_missing none = true
is_missing (some v) = false

module _ {F : Type 0} where
  -- `tag_to_symbol`; `strip` is `str.strip`
  unfoldable pub tags_from : (String → String) → Dict String → List (OrderbookRow F) → Dict String
  tags_from strip tags [] = tags
  tags_from strip tags (row ∷ rows) =
      let tag = strip row.tag in
      let symbol = strip row.tradingsymbol in
      let next = if str_eq tag "" || str_eq symbol "" then tags else insert tag symbol tags in
      tags_from strip next rows

  abbrev pub candidates_at : Option (List (OrderRecord F)) → List (OrderRecord F)
  candidates_at none = []
  candidates_at (some rs) = rs

  -- `records_by_symbol`
  unfoldable pub group_from :
      Dict (List (OrderRecord F)) → List (OrderRecord F) → Dict (List (OrderRecord F))
  group_from groups [] = groups
  group_from groups (r ∷ rs) =
      let next = insert r.symbol (candidates_at (lookup r.symbol groups) ++ r ∷ []) groups in
      group_from (if is_open r.state then next else groups) rs

  -- `sort(key=updated_at, reverse=True)`, which is stable
  abbrev pub insert_recent : OrderRecord F → List (OrderRecord F) → List (OrderRecord F)
  insert_recent r [] = r ∷ []
  insert_recent r (s ∷ ss) =
      let rest = insert_recent r ss in
      if ltb r.updated_at s.updated_at then s ∷ rest else r ∷ s ∷ ss

  abbrev pub by_recency : List (OrderRecord F) → List (OrderRecord F)
  by_recency [] = []
  by_recency (r ∷ rs) = insert_recent r (by_recency rs)

  abbrev pub head : List (OrderRecord F) → Option (OrderRecord F)
  head [] = none
  head (r ∷ rs) = some r

  abbrev pub tagged : Dict String → String → List (OrderRecord F) → Option (OrderRecord F)
  tagged tags symbol [] = none
  tagged tags symbol (r ∷ rs) =
      let rest = tagged tags symbol rs in
      if tag_matches (lookup r.client_order_id tags) symbol then some r else rest

  abbrev pub or_recent : Option (OrderRecord F) → List (OrderRecord F) → Option (OrderRecord F)
  or_recent (some r) rs = some r
  or_recent none rs = head (by_recency rs)

  -- `_pick_record`. It sorts the list of candidates in place; another position of the symbol then
  -- finds it sorted and picks the same record.
  unfoldable pub pick_record : List (OrderRecord F) → String → Dict String → Option (OrderRecord F)
  pick_record [] symbol tags = none
  pick_record (r ∷ []) symbol tags = some r
  pick_record (r ∷ s ∷ rs) symbol tags = or_recent (tagged tags symbol (r ∷ s ∷ rs)) (r ∷ s ∷ rs)

  -- `position.model_copy(update=...)`
  abbrev pub enriched : Position F → Option (OrderRecord F) → Position F
  enriched p none = p
  enriched p (some r) = record p {
    stop_loss = some r.stop_loss;
    target = some r.target;
    strategy_id = if str_eq r.strategy_id "" then p.strategy_id else r.strategy_id;
  }

  abbrev pub enrich_all :
      Dict (List (OrderRecord F)) → Dict String → List (Position F) → List (Position F)
  enrich_all groups tags [] = []
  enrich_all groups tags (p ∷ ps) =
      enriched p (pick_record (candidates_at (lookup p.symbol groups)) p.symbol tags)
      ∷ enrich_all groups tags ps

  -- `_backfill_from_records`
  unfoldable pub backfill_from_records :
      (String → String)
      → List (Position F)
      → List (OrderRecord F)
      → List (OrderbookRow F)
      → List (Position F)
  unfolding tags_from group_from pick_record
  backfill_from_records strip positions [] rows = positions
  backfill_from_records strip positions (r ∷ rs) rows =
      enrich_all (group_from [] (r ∷ rs)) (tags_from strip [] rows) positions

  -- `_map_open_orders`
  unfoldable pub map_open_orders : List (OrderbookRow F) → List (ReconciledOrder F)
  map_open_orders [] = []
  map_open_orders (row ∷ rows) =
      let rest = map_open_orders rows in
      if is_open_status row.status
      then record {
        order_id = row.order_id;
        symbol = row.tradingsymbol;
        status = row.status;
        qty = row.quantity;
        price = row.price;
      }
        ∷ rest
      else rest

  -- `{p.symbol: p for p in broker}`, and that of the snapshot
  abbrev pub broker_map : Dict (Position F) → List (Position F) → Dict (Position F)
  broker_map d [] = d
  broker_map d (p ∷ ps) = broker_map (insert p.symbol p d) ps

  abbrev pub local_map :
      Dict (LocalPositionSnapshot F)
      → List (LocalPositionSnapshot F)
      → Dict (LocalPositionSnapshot F)
  local_map d [] = d
  local_map d (p ∷ ps) = local_map (insert p.symbol p d) ps

  -- whether the broker's position differs from the snapshot's
  abbrev pub mismatch : LocalPositionSnapshot F → Option (Position F) → Bool
  mismatch l none = true
  mismatch l (some p) = not (eqb_ℤ p.qty l.qty) || not (side_eq p.side l.side)

  -- `{r.symbol for r in records if r.state in OPEN_STATES}`
  abbrev pub open_symbols : List (OrderRecord F) → List String
  open_symbols [] = []
  open_symbols (r ∷ rs) =
      let rest = open_symbols rs in if is_open r.state then r.symbol ∷ rest else rest

  abbrev pub add_mismatches :
      Dict (Position F) → Dict (LocalPositionSnapshot F) → List String → List String
  add_mismatches broker [] drift = drift
  add_mismatches broker ((symbol, l) ∷ ls) drift =
      add_mismatches broker ls
        (if mismatch l (lookup symbol broker) then add_symbol symbol drift else drift)

  abbrev pub add_unknown :
      Dict (LocalPositionSnapshot F) → Dict (Position F) → List String → List String
  add_unknown local [] drift = drift
  add_unknown local ((symbol, p) ∷ ps) drift =
      add_unknown local ps
        (if is_missing (lookup symbol local) then add_symbol symbol drift else drift)

-- the symbols of the first set that are not in the second
abbrev pub add_difference : List String → List String → List String → List String
add_difference [] ts drift = drift
add_difference (s ∷ ss) ts drift =
    add_difference ss ts (if has s ts then drift else add_symbol s drift)

module _ {F : Type 0} where
  abbrev pub drift_of_records : List (Position F) → List (OrderRecord F) → List String
  drift_of_records broker records =
      let opened = open_symbols records in
      let held = map (λ (p : Position F). p.symbol) broker in
      let drift = add_difference opened held [] in
      if is_empty opened then drift else add_difference held opened drift

  -- `_detect_drift`; `sorted` on texts is a parameter, and the order in which the symbols are added
  -- does not matter to it
  unfoldable pub detect_drift :
      (List String → List String)
      → List (Position F)
      → List (LocalPositionSnapshot F)
      → List (OrderRecord F)
      → List String
  detect_drift sorted broker [] records = sorted (drift_of_records broker records)
  detect_drift sorted broker (l ∷ ls) records =
      let held = broker_map [] broker in
      let local = local_map [] (l ∷ ls) in
      sorted (add_unknown local held (add_mismatches held local []))

  -- `reconcile`, on the broker's positions, the open records of the store and the local snapshot
  unfoldable pub reconcile :
      (String → String)
      → (List String → List String)
      → Datetime
      → List (Position F)
      → List (LocalPositionSnapshot F)
      → List (OrderRecord F)
      → List (OrderbookRow F)
      → ReconciledState F
  unfolding backfill_from_records detect_drift map_open_orders
  reconcile strip sorted now broker local records rows =
      let positions = backfill_from_records strip broker records rows in
      record {
        reconciled_at = now;
        positions = positions;
        open_orders = map_open_orders rows;
        drift_symbols = detect_drift sorted positions local records;
      }
