-- ===== src/Execution/Kite/Monad.antt =====
-- A method of the broker: it changes the broker's state and the world, and returns or raises. What was
-- written before an exception stays written.
use trader_ai.Prelude.{Bool, true, false, Option, none, some, List, [], ◌∷◌, String, pos}
use trader_ai.Clock.{Datetime}
use trader_ai.Float.{Float}
use trader_ai.Execution.Exceptions.{
  network_exception, general_exception, data_exception, value_error, Exn, Outcome, returned, raised,
}
use trader_ai.Execution.Retry.{with_retry}
use trader_ai.Execution.Broker.{Ids}
use trader_ai.Execution.OrderState.{OrderRecord}
use trader_ai.Execution.OrderState.Store.{Store, upsert}
use trader_ai.Execution.Kite.Client.{Client}

-- What the constructor fixes: the client, the exchange, the product if one is forced.
pub record Setup (F W : Type 0) : Type 0 where
  pub client : Client F W
  pub ids : Ids
  pub exchange : String
  pub product : Option String

pub record Broker (F W : Type 0) : Type 0 where
  pub state_store : Option (Store F)
  pub memory_ids : List String
  pub world : W

abbrev pub stored : {F : Type 0} → OrderRecord F → Option (Store F) → Option (Store F)
stored r none = none
stored r (some s) = some (upsert r s)

abbrev pub M : Type 0 → Type 0 → Type 0 → Type 0
M F W A = Broker F W → Outcome A × Broker F W

module _ {F W : Type 0} where
  abbrev pub pure : {A : Type 0} → A → M F W A
  pure a b = (returned a, b)

  abbrev pub raise : {A : Type 0} → Exn → M F W A
  raise e b = (raised e, b)

  -- `try: ... except Exception`
  abbrev pub attempt : {A : Type 0} → M F W A → M F W (Outcome A)
  attempt m b = let (r, b') = m b in (returned r, b')

  -- a call of the client
  abbrev pub call : {A : Type 0} → (W → Outcome A × W) → M F W A
  call f b = let (r, w) = f b.world in (r, record b { world = w })

  -- `self._clock()`
  abbrev pub now : Setup F W → M F W Datetime
  now su b = let (t, w) = su.client.clock b.world in (returned t, record b { world = w })

  -- `_persist`
  unfoldable pub persist : OrderRecord F → M F W (Unit {0})
  persist r b = (
    returned tt,
    record b {
      state_store = stored r b.state_store;
      memory_ids = r.client_order_id ∷ b.memory_ids;
    },
  )

infixl 5 ◌>>=◌ ◌>>◌
abbrev pub ◌>>=◌ : {F W A B : Type 0} → M F W A → (A → M F W B) → M F W B
◌>>=◌ m f b = let (r, b') = m b in elim r [ returned a ↦ f a b' | raised e ↦ (raised e, b') ]

abbrev pub ◌>>◌ : {F W A B : Type 0} → M F W A → M F W B → M F W B
m >> k = m >>= λ _. k

-- `for x in xs: ...`
unfoldable pub for_each : {F W A : Type 0} → (A → M F W (Unit {0})) → List A → M F W (Unit {0})
for_each act [] b = (returned tt, b)
for_each act (x ∷ xs) b = (act x >> for_each act xs) b

-- `RETRYABLE_EXCEPTIONS`
abbrev pub retryable : Exn → Bool
retryable e = elim e.kind [
  | network_exception ↦ true
  | general_exception ↦ true
  | data_exception ↦ true
  | _ ↦ false
]

-- the ValueError that `with_retry` raises on its arguments
abbrev pub or_value_error : {W A : Type 0} → W → Option (Outcome A × W) → Outcome A × W
or_value_error w none = (raised (record { kind = value_error; message = "" }), w)
or_value_error w (some r) = r

module _ {F W : Type 0} ⦃fl : Float F⦄ where
  -- `with_retry(..., retries=3, base_delay=0.5, max_delay=4.0, ...)`
  unfoldable pub retried : {A : Type 0} → Setup F W → (W → Outcome A × W) → W → Outcome A × W
  retried su fn w =
      or_value_error w
        (with_retry fn retryable su.client.sleep (pos 3) (fl.decimal 5 1) (fl.decimal 40 1) w)
