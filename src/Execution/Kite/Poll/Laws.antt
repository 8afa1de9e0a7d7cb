-- ===== src/Execution/Kite/Poll/Laws.antt =====
-- How one round of `poll_and_advance` moves a record.
use trader_ai.Prelude.{◌≡◌, refl, ◌⊎◌, inl, inr, Option, none, some, List, Bool-cases, ℤ, String}
use trader_ai.Float.{Float}
use trader_ai.Text.{codes, text_eq}
use trader_ai.Execution.Exceptions.{Outcome, returned, raised}
use trader_ai.Execution.OrderState.{
  OrderState, pending_entry, entered, exited, failed, cancelled, OrderRecord, Step, fills, fails,
  exits,
}
use trader_ai.Execution.Kite.Client.{GttRow, GttResponse, OrderRow}
use trader_ai.Execution.Kite.Monad.{Setup, Broker, stored, persist, now, ◌>>=◌}
use trader_ai.Clock.{Datetime}
use trader_ai.Execution.Kite.Payload.{upper, lower, order_by_id, gtt_by_id, trigger_id_of}
use trader_ai.Execution.Kite.Poll.{
  mark_failed, mark_entered, place_oco_gtt, advance_by_order, mark_refused, advance_pending,
  advance_by_gtt, advance_entered, advance, gtt_error, after_gtt, mark_exited, failed_record,
  entered_record, exited_record, pending_by_row, pending_by_id, entered_by_row, entered_by_id,
  advance_in,
}

pub Step-from : {s t u : OrderState} → s ≡ t → Step t u → Step s u
Step-from e st = rw e st

module _ {F : Type 0} where
  -- A record after a legal step of its life, with what was ordered unchanged.
  pub record Successor (r r' : OrderRecord F) : Type 0 where
    pub step : Step r.state r'.state
    pub same_id : r'.client_order_id ≡ r.client_order_id
    pub same_order :
        (r'.symbol ≡ r.symbol)
        × (r'.side ≡ r.side)
        × (r'.qty ≡ r.qty)
        × (r'.stop_loss ≡ r.stop_loss)
        × (r'.target ≡ r.target)

module _ {F W : Type 0} ⦃fl : Float F⦄ where
  -- The call returned. It left the store alone, or wrote a successor of the record and nothing else.
  abbrev pub Moves : OrderRecord F → Broker F W → Outcome (Unit {0}) × Broker F W → Type 0
  Moves r b (res, c) =
      (res ≡ returned tt)
      × ((c.state_store ≡ b.state_store)
          ⊎ ((r' : OrderRecord F) × Successor r r' × (c.state_store ≡ stored r' b.state_store)))

  pub persist-Moves :
      (su : Setup F W) (r : OrderRecord F) (update : Datetime → OrderRecord F) (b : Broker F W)
      → ((at : Datetime) → Successor r (update at))
      → Moves r b ((now su >>= λ at. persist (update at)) b)
  unfolding persist
  persist-Moves su r update b h =
      let at = (su.client.clock b.world).0 in (refl, inr (update at, h at, refl))

  mark_failed-Moves :
      (su : Setup F W) (r : OrderRecord F) (reason : String) (b : Broker F W)
      → r.state ≡ pending_entry
      → Moves r b (mark_failed su r reason b)
  unfolding mark_failed
  mark_failed-Moves su r reason b e = persist-Moves su r (failed_record r reason) b (λ at. record {
    step = Step-from e fails;
    same_id = refl;
    same_order = (refl, refl, refl, refl, refl);
  })

  mark_refused-Moves :
      (su : Setup F W) (r : OrderRecord F) (reason : String) (b : Broker F W)
      → r.state ≡ pending_entry
      → Moves r b (mark_refused su r reason b)
  unfolding mark_refused
  mark_refused-Moves su r reason b e = persist-Moves su r (failed_record r reason) b (λ at. record {
    step = Step-from e fails;
    same_id = refl;
    same_order = (refl, refl, refl, refl, refl);
  })

  mark_entered-Moves :
      (su : Setup F W) (r : OrderRecord F) (fill : F) (id : Option ℤ) (b : Broker F W)
      → r.state ≡ pending_entry
      → Moves r b (mark_entered su r fill id b)
  unfolding mark_entered
  mark_entered-Moves su r fill none b e = mark_failed-Moves su r "gtt_no_trigger_id" b e
  mark_entered-Moves su r fill (some id) b e =
      persist-Moves su r (entered_record r fill id) b (λ at. record {
        step = Step-from e fills;
        same_id = refl;
        same_order = (refl, refl, refl, refl, refl);
      })

  mark_exited-Moves :
      (su : Setup F W) (r : OrderRecord F) (price : F) (b : Broker F W)
      → r.state ≡ entered
      → Moves r b (mark_exited su r price b)
  unfolding mark_exited
  mark_exited-Moves su r price b e = persist-Moves su r (exited_record r price) b (λ at. record {
    step = Step-from e exits;
    same_id = refl;
    same_order = (refl, refl, refl, refl, refl);
  })

  after_gtt-Moves :
      (su : Setup F W) (r : OrderRecord F) (fill : F) (answer : Outcome GttResponse)
      (b : Broker F W)
      → r.state ≡ pending_entry
      → Moves r b (after_gtt su r fill answer b)
  after_gtt-Moves su r fill (raised x) b e = mark_failed-Moves su r (gtt_error x) b e
  after_gtt-Moves su r fill (returned a) b e = mark_entered-Moves su r fill (trigger_id_of a) b e

  stays : (r : OrderRecord F) (b : Broker F W) → Moves r b (returned tt, b)
  stays r b = (refl, inl refl)

  advance_by_order-Moves :
      (su : Setup F W) (r : OrderRecord F) (order : OrderRow F) (b : Broker F W)
      → r.state ≡ pending_entry
      → Moves r b (advance_by_order su r order b)
  unfolding advance_by_order place_oco_gtt
  advance_by_order-Moves su r order b e =
      elim (Bool-cases (text_eq (upper order.status) (codes "COMPLETE"))) [
        | inl full ↦ rw full (after_gtt-Moves su r _ _ (record b { world = _ }) e)
        | inr other ↦ elim (Bool-cases (text_eq (upper order.status) (codes "REJECTED"))) [
          | inl no_fill ↦ rw (other, no_fill) (mark_refused-Moves su r _ b e)
          | inr other' ↦ elim (Bool-cases (text_eq (upper order.status) (codes "CANCELLED"))) [
            | inl cancelled_ ↦ rw (other, other', cancelled_) (mark_refused-Moves su r _ b e)
            | inr open_ ↦ rw (other, other', open_) (stays r b)
          ]
        ]
      ]

  advance_by_gtt-Moves :
      (su : Setup F W) (r : OrderRecord F) (gtt : GttRow F) (rows : List (OrderRow F))
      (b : Broker F W)
      → r.state ≡ entered
      → Moves r b (advance_by_gtt su r gtt rows b)
  unfolding advance_by_gtt
  advance_by_gtt-Moves su r gtt rows b e =
      elim (Bool-cases (text_eq (lower gtt.status) (codes "triggered"))) [
        | inl hit ↦ rw hit (mark_exited-Moves su r _ b e)
        | inr waiting ↦ rw waiting (stays r b)
      ]

  pending_by_row-Moves :
      (su : Setup F W) (r : OrderRecord F) (row : Option (OrderRow F)) (b : Broker F W)
      → r.state ≡ pending_entry
      → Moves r b (pending_by_row su r row b)
  pending_by_row-Moves su r none b e = stays r b
  pending_by_row-Moves su r (some order) b e = advance_by_order-Moves su r order b e

  pending_by_id-Moves :
      (su : Setup F W) (r : OrderRecord F) (rows : List (OrderRow F)) (id : Option String)
      (b : Broker F W)
      → r.state ≡ pending_entry
      → Moves r b (pending_by_id su r rows id b)
  pending_by_id-Moves su r rows none b e = stays r b
  pending_by_id-Moves su r rows (some id) b e = pending_by_row-Moves su r (order_by_id id rows) b e

  entered_by_row-Moves :
      (su : Setup F W) (r : OrderRecord F) (rows : List (OrderRow F)) (row : Option (GttRow F))
      (b : Broker F W)
      → r.state ≡ entered
      → Moves r b (entered_by_row su r rows row b)
  entered_by_row-Moves su r rows none b e = stays r b
  entered_by_row-Moves su r rows (some gtt) b e = advance_by_gtt-Moves su r gtt rows b e

  entered_by_id-Moves :
      (su : Setup F W) (r : OrderRecord F) (rows : List (OrderRow F)) (gtts : List (GttRow F))
      (id : Option ℤ) (b : Broker F W)
      → r.state ≡ entered
      → Moves r b (entered_by_id su r rows gtts id b)
  entered_by_id-Moves su r rows gtts none b e = stays r b
  entered_by_id-Moves su r rows gtts (some id) b e =
      entered_by_row-Moves su r rows (gtt_by_id id gtts) b e

  advance_in-Moves :
      (state : OrderState) (su : Setup F W) (r : OrderRecord F) (rows : List (OrderRow F))
      (gtts : List (GttRow F)) (b : Broker F W)
      → r.state ≡ state
      → Moves r b (advance_in state su r rows gtts b)
  unfolding advance_pending advance_entered
  advance_in-Moves pending_entry su r rows gtts b e =
      pending_by_id-Moves su r rows r.entry_order_id b e
  advance_in-Moves entered su r rows gtts b e = entered_by_id-Moves su r rows gtts r.sl_gtt_id b e
  advance_in-Moves exited su r rows gtts b e = stays r b
  advance_in-Moves failed su r rows gtts b e = stays r b
  advance_in-Moves cancelled su r rows gtts b e = stays r b

  -- Whatever the broker reports, a round of the loop does not raise, and it writes a successor of
  -- its record, by a legal step and with what was ordered unchanged, or leaves the whole store
  -- alone.
  pub advance-Moves :
      (su : Setup F W) (r : OrderRecord F) (rows : List (OrderRow F)) (gtts : List (GttRow F))
      (b : Broker F W)
      → Moves r b (advance su r rows gtts b)
  unfolding advance
  advance-Moves su r rows gtts b = advance_in-Moves r.state su r rows gtts b refl
