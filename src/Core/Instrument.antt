-- ===== src/Core/Instrument.antt =====
-- core/instrument.py: instrument metadata, its validator and the rounding of quantities to lots.
pub mod Laws
use trader_ai.Prelude.{
  ℕ, zero, suc, ◌+◌, ◌-◌, ◌%◌, Bool, true, false, not, ◌&&◌, ◌||◌, Option, none, some,
  if◌then◌else◌, ltb, ◌==◌, ℤ, pos, ◌-ℤ◌, ltb_ℤ, String,
}
use trader_ai.Float.{Float, nought}

pub data InstrumentType : Type 0 where
  equity future option : InstrumentType

pub data Segment : Type 0 where
  eq fo : Segment

pub data OptionType : Type 0 where
  ce pe : OptionType

pub record Instrument (F : Type 0) : Type 0 where
  pub symbol : String
  pub exchange : String
  pub segment : Segment
  pub instrument_type : InstrumentType
  pub tick_size : F
  pub lot_size : ℕ
  -- a date, as the number of days
  pub expiry : Option ℕ
  pub strike : Option F
  pub option_type : Option OptionType
  pub underlying : Option String

abbrev pub is_none {ℓ} : {A : Type ℓ} → Option A → Bool
is_none none = true
is_none (some a) = false

abbrev pub is_eq : Segment → Bool
is_eq eq = true
is_eq fo = false

module _ {F : Type 0} where
  -- the checks after the segment and the expiry of a derivative
  abbrev pub derivative_fields : InstrumentType → Option F → Option OptionType → Bool
  derivative_fields option strike option_type = not (is_none strike || is_none option_type)
  derivative_fields future strike option_type = is_none option_type
  derivative_fields equity strike option_type = true

  -- `validate_nse_fields` accepts the fields
  unfoldable pub has_nse_fields : Instrument F → Bool
  has_nse_fields i = elim i.instrument_type [
    | equity ↦ is_eq i.segment && (is_none i.expiry && (is_none i.strike && is_none i.option_type))
    | kind ↦
        not (is_eq i.segment)
        && (not (is_none i.expiry) && derivative_fields kind i.strike i.option_type)
  ]

abbrev pub is_empty : String → Bool
is_empty String.[] = true
is_empty (String.◌∷◌ c s) = false

module _ {F : Type 0} ⦃fl : Float F⦄ where
  -- the constructor call `Instrument(...)`: `none` for a ValidationError
  unfoldable pub validated : Instrument F → Option (Instrument F)
  unfolding has_nse_fields
  validated i =
      if not (is_empty i.symbol || is_empty i.exchange)
        && (fl.lt nought i.tick_size && (ltb 0 i.lot_size && has_nse_fields i))
      then some i
      else none

  unfoldable pub nse_equity : String → ℕ → F → Option (Instrument F)
  unfolding validated
  nse_equity symbol lot_size tick_size = validated (record {
    symbol = symbol;
    exchange = "NSE";
    segment = eq;
    instrument_type = equity;
    tick_size = tick_size;
    lot_size = lot_size;
    expiry = none;
    strike = none;
    option_type = none;
    underlying = none;
  })

  unfoldable pub nse_future : String → ℕ → String → ℕ → F → Option (Instrument F)
  unfolding validated
  nse_future symbol expiry underlying lot_size tick_size = validated (record {
    symbol = symbol;
    exchange = "NSE";
    segment = fo;
    instrument_type = future;
    tick_size = tick_size;
    lot_size = lot_size;
    expiry = some expiry;
    strike = none;
    option_type = none;
    underlying = some underlying;
  })

  unfoldable pub nse_option : String → ℕ → F → OptionType → String → ℕ → F → Option (Instrument F)
  unfolding validated
  nse_option symbol expiry strike option_type underlying lot_size tick_size = validated (record {
    symbol = symbol;
    exchange = "NSE";
    segment = fo;
    instrument_type = option;
    tick_size = tick_size;
    lot_size = lot_size;
    expiry = some expiry;
    strike = some strike;
    option_type = some option_type;
    underlying = some underlying;
  })

-- `round_qty`: the quantity is an int of any sign
unfoldable pub round_qty : ℕ → ℤ → ℤ
unfolding ◌-ℤ◌
round_qty lot_size (pos qty) =
    if ltb qty lot_size
    then pos lot_size
    else let remainder = qty % lot_size in
      if remainder == 0 then pos qty else pos (qty + (lot_size - remainder))
-- a negative quantity is below every lot size
round_qty lot_size qty = pos lot_size
