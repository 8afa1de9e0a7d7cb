-- ===== src/Execution/Exceptions.antt =====
-- Exceptions as values. `Outcome A` is what a call that may raise gives.
use trader_ai.Prelude.{◌≡◌, refl, Bool, true, false, String}

-- The classes of `kiteconnect.exceptions` that the code names, any other `KiteException`, and any
-- other `Exception`.
pub data Kind : Type 0 where
  network_exception general_exception data_exception input_exception order_exception : Kind
  other_kite_exception : Kind
  -- pydantic's ValidationError, the ValueError of bad arguments, and `FlattenIncomplete`
  validation_error value_error flatten_incomplete : Kind
  -- `TimeoutError`, `httpx.HTTPError`, `KeyError` and `TypeError`
  timeout_error http_error key_error type_error : Kind
  other_exception : Kind

pub record Exn : Type 0 where
  pub kind : Kind
  -- `str(exc)`
  pub message : String

pub data Outcome {ℓ} (A : Type ℓ) : Type ℓ where
  returned : A → Outcome A
  raised : Exn → Outcome A

-- `isinstance(exc, KiteException)`
abbrev pub is_kite : Kind → Bool
is_kite network_exception = true
is_kite general_exception = true
is_kite data_exception = true
is_kite input_exception = true
is_kite order_exception = true
is_kite other_kite_exception = true
is_kite _ = false

pub returned_injective {ℓ} : {A : Type ℓ} {a b : A} → returned a ≡ returned b → a ≡ b
returned_injective h = cc

-- `do` blocks: an exception ends the block.
infixl 5 ◌>>=◌
abbrev pub ◌>>=◌ {ℓ κ} : {A : Type ℓ} {B : Type κ} → Outcome A → (A → Outcome B) → Outcome B
raised e >>= f = raised e
returned a >>= f = f a

pub >>=-eq-returned {ℓ κ} :
    {A : Type ℓ} {B : Type κ} (m : Outcome A) (f : A → Outcome B) {b : B}
    → (m >>= f) ≡ returned b
    → (a : A) × (m ≡ returned a) × (f a ≡ returned b)
>>=-eq-returned (raised e) f h = cc
>>=-eq-returned (returned a) f h = (a, refl, h)

-- an exception whose message does not matter
abbrev pub exn : Kind → Exn
exn kind = record { kind = kind; message = "" }
