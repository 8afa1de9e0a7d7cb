-- ===== src/Execution/Kite/Place/Laws.antt =====
-- Idempotency of `place_bracket_order`, and what an accepted order leaves in the store.
use mathlib.Core.Path.{subst}
use trader_ai.Prelude.{
  ◌≡◌, refl, ◌⊎◌, inl, inr, Bool, true, false, Option, none, some, arith, ap, Bool-cases,
  Option-cases, String, str_eq_iff, ℤ, pos, ◌≤ℤ◌, ltb_ℤ,
}
use trader_ai.Prelude.Dict.{lookup-insert}
use trader_ai.Float.{Float, nought}
use trader_ai.Clock.{Datetime}
use trader_ai.Core.Signal.{Signal}
use trader_ai.Risk.Windows.{is_kill_switch_active}
use trader_ai.Execution.Exceptions.{Outcome, returned, raised}
use trader_ai.Execution.Broker.{
  OrderResult, broker_order_id, duplicate_client_order_id, id_of, Message,
}
use trader_ai.Execution.OrderState.{OrderRecord, validated}
use trader_ai.Execution.OrderState.Store.{Store, upsert, get}
use trader_ai.Execution.Kite.Monad.{Setup, Broker, ◌>>=◌, persist, retried, stored}
use trader_ai.Execution.Kite.Place.{
  blocks, blocking, lookup_existing, result, entry_record, entry_request, after_entry, record_entry,
  submit, unless_known, place_bracket_order, lookup_memory, lookup_in, member,
}

abbrev pub is_acceptance : Message → Bool
is_acceptance (broker_order_id id) = true
is_acceptance _ = false

module _ {F W : Type 0} ⦃fl : Float F⦄ (su : Setup F W) (signal : Signal F) where
  -- The answer is no acceptance: an exception, or another message.
  abbrev pub IsRefusal : Outcome (OrderResult F) → Type 0
  IsRefusal (raised e) = Unit {0}
  IsRefusal (returned r) = is_acceptance r.message ≡ false

  -- What the answer to an order says of the store: it was accepted, and its record is the one row that
  -- was written; or the store is as before.
  abbrev pub Effect : ℤ → Option (Store F) → Outcome (OrderResult F) × Broker F W → Type 0
  Effect qty store (answer, c) =
      ((order_id : String) × (at : Datetime) × (answer
          ≡ returned (result su signal qty (broker_order_id order_id) signal.entry))
        × (c.state_store ≡ stored (entry_record su signal qty order_id at) store))
      ⊎ (IsRefusal answer × (c.state_store ≡ store))

  validated-eq : (r : OrderRecord F) {q : OrderRecord F} → validated r ≡ some q → q ≡ r
  unfolding validated
  validated-eq r h = ground arith

  record_entry-Effect :
      (qty : ℤ) (order_id : String) (b : Broker F W)
      → Effect qty b.state_store (record_entry su signal qty order_id b)
  unfolding record_entry persist
  record_entry-Effect qty order_id b =
      let (at, w) = su.client.clock b.world in
      elim (Option-cases (validated (entry_record su signal qty order_id at))) [
        | inl invalid ↦ rw invalid (inr (tt, refl))
        | inr (r, ok) ↦
            rw ok (inl (order_id, at, refl, ap (λ x. stored x b.state_store) (validated-eq _ ok)))
      ]

  after_entry-Effect :
      (qty : ℤ) (answer : Outcome String) (b : Broker F W)
      → Effect qty b.state_store (after_entry su signal qty answer b)
  after_entry-Effect qty (raised e) b = inr (refl, refl)
  after_entry-Effect qty (returned id) b = record_entry-Effect qty id b

  submit-Effect : (qty : ℤ) (b : Broker F W) → Effect qty b.state_store (submit su signal qty b)
  unfolding submit
  submit-Effect qty b =
      let (answer, w) = retried su (su.client.place_order (entry_request su signal qty)) b.world in
      after_entry-Effect qty answer (record b { world = w })

  known_or_submit-Effect :
      (known : Bool) (qty : ℤ) (b : Broker F W)
      → Effect qty b.state_store (unless_known su signal qty known b)
  known_or_submit-Effect true qty b = inr (refl, refl)
  known_or_submit-Effect false qty b = submit-Effect qty b

  after_memory-Effect :
      (qty : ℤ) (known : Bool) (b : Broker F W)
      → Effect qty b.state_store ((lookup_memory su known >>= unless_known su signal qty) b)
  after_memory-Effect qty true b =
      known_or_submit-Effect true qty (record b { world = (su.client.clock b.world).1 })
  after_memory-Effect qty false b = known_or_submit-Effect false qty b

  after_lookup-Effect :
      (qty : ℤ) (store : Option (Store F)) (b : Broker F W)
      → Effect qty b.state_store
          ((lookup_in store su (id_of su.ids signal) >>= unless_known su signal qty) b)
  after_lookup-Effect qty (some s) b =
      known_or_submit-Effect (blocking (get (id_of su.ids signal) s)) qty b
  after_lookup-Effect qty none b =
      after_memory-Effect qty (member (id_of su.ids signal) b.memory_ids) b

  pub place_bracket_order-Effect :
      (qty : ℤ) (b : Broker F W) → Effect qty b.state_store (place_bracket_order su signal qty b)
  unfolding place_bracket_order lookup_existing
  place_bracket_order-Effect qty b =
      elim (Bool-cases (is_kill_switch_active (su.client.kill_switch b.world))) [
        | inl killed ↦ rw killed (inr (refl, refl))
        | inr alive ↦ elim (Bool-cases (ltb_ℤ qty (pos 1))) [
          | inl small ↦ rw (alive, small) (inr (refl, refl))
          | inr enough ↦ rw (alive, enough) (after_lookup-Effect qty b.state_store b)
        ]
      ]

  abbrev pub duplicate : ℤ → Broker F W → Outcome (OrderResult F) × Broker F W
  duplicate qty b = (returned (result su signal qty duplicate_client_order_id nought), b)

  -- While a record of the signal's id is pending, entered or exited, another order for it answers
  -- "duplicate", makes no call of the client and changes nothing.
  blocked-duplicate :
      (qty : ℤ) (b : Broker F W) {s : Store F} {r : OrderRecord F}
      → b.state_store ≡ some s
      → get (id_of su.ids signal) s ≡ some r
      → blocks r.state ≡ true
      → is_kill_switch_active (su.client.kill_switch b.world) ≡ false
      → pos 1 ≤ℤ qty
      → place_bracket_order su signal qty b ≡ duplicate qty b
  unfolding place_bracket_order lookup_existing
  blocked-duplicate qty b {s} {r} e found block alive enough = ground arith

  abbrev pub accepted : ℤ → String → Broker F W → Outcome (OrderResult F) × Broker F W
  accepted qty order_id c =
      (returned (result su signal qty (broker_order_id order_id) signal.entry), c)

  accepted-stored :
      (qty : ℤ) (c : Broker F W) {s : Store F} {id : String}
      → Effect qty (some s) (accepted qty id c)
      → (t : Store F) × (r : OrderRecord F) × (c.state_store ≡ some t)
        × (get (id_of su.ids signal) t ≡ some r)
        × (blocks r.state ≡ true)
  unfolding get upsert
  accepted-stored qty c {s} (inl (id, at, same, wrote)) =
      let r = entry_record su signal qty id at in
      let self = (str_eq_iff r.client_order_id r.client_order_id).1 refl in
      (
        upsert r s,
        r,
        wrote,
        ground (arith, lookup-insert r.client_order_id r.client_order_id r s, self),
        refl,
      )
  accepted-stored qty c (inr (refused, same)) = cc

  -- If the broker has a store and an order of the signal was accepted, then the same signal places
  -- no second one: while the kill switch is off, an order for one or more units answers "duplicate"
  -- and leaves the broker and the world as they are.
  pub place_bracket_order-idempotent :
      (qty qty' : ℤ) (b c : Broker F W) {s : Store F} {id : String}
      → b.state_store ≡ some s
      → place_bracket_order su signal qty b ≡ accepted qty id c
      → is_kill_switch_active (su.client.kill_switch c.world) ≡ false
      → pos 1 ≤ℤ qty'
      → place_bracket_order su signal qty' c ≡ duplicate qty' c
  place_bracket_order-idempotent qty qty' b c {s} {id} e first alive enough =
      let effect = subst (Effect qty b.state_store) first (place_bracket_order-Effect qty b) in
      let (t, r, stored_, found, block) =
        accepted-stored qty c {s = s} {id = id}
          (subst (λ x. Effect qty x (accepted qty id c)) e effect) in
      blocked-duplicate qty' c stored_ found block alive enough
