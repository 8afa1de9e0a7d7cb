-- ===== src/Data/LiveFeed/Tape/Observed.antt =====
-- The tapes against the prices that were observed: a tape holds consecutive prices of one symbol
-- and one bucket, and the tape after it is of another bucket.
use trader_ai.Prelude.{
  ℕ, ◌≡◌, false, Option, none, some, List, [], ◌∷◌, ◌++◌, if◌then◌else◌, ◌==◌, String, str_eq,
}
use trader_ai.Prelude.Dict.{Dict, lookup}
use trader_ai.Float.{Float}
use trader_ai.Clock.{Datetime}
use trader_ai.Execution.Exceptions.{Outcome}
use trader_ai.Data.LiveFeed.{Tick, symbol_of}
use trader_ai.Data.LiveFeed.Tape.{Tape, accepted}

module _ {F : Type 0} ⦃fl : Float F⦄ where
  -- the bucket and the price of a tick that counts, if it is of the symbol
  abbrev pub observed : String → Option (String × Datetime × F) → List (Datetime × F)
  observed j none = []
  observed j (some (k, bucket, x)) = if str_eq k j then (bucket, x) ∷ [] else []

  -- the buckets and the prices of the ticks of a symbol that count, in order
  abbrev pub observations :
      (F → Outcome Datetime)
      → (ℕ → Option String)
      → ℕ
      → String
      → List (Tick F)
      → List (Datetime × F)
  observations fromtimestamp symbols minutes j [] = []
  observations fromtimestamp symbols minutes j (tick ∷ ticks) =
      observed j (accepted fromtimestamp tick minutes (symbol_of symbols tick.instrument_token))
      ++ observations fromtimestamp symbols minutes j ticks

  abbrev pub stamped : Datetime → List F → List (Datetime × F)
  stamped bucket [] = []
  stamped bucket (x ∷ xs) = (bucket, x) ∷ stamped bucket xs

  -- what the tapes hold, in order
  abbrev pub held : List (Tape F) → List (Datetime × F)
  held [] = []
  held (t ∷ ts) = ((t.bucket, t.first) ∷ stamped t.bucket t.later) ++ held ts

  abbrev pub Apart : Tape F → List (Tape F) → Type 0
  Apart t [] = Unit
  Apart t (u ∷ us) = (u.bucket == t.bucket) ≡ false

  -- tapes that follow each other are of different buckets
  abbrev pub Alternates : List (Tape F) → Type 0
  Alternates [] = Unit
  Alternates (t ∷ ts) = Apart t ts × Alternates ts

  abbrev pub of_open : Option (Tape F) → List (Tape F)
  of_open none = []
  of_open (some t) = t ∷ []

  abbrev pub of_closed : String → List (String × Tape F) → List (Tape F)
  of_closed j [] = []
  of_closed j ((k, t) ∷ ts) = let rest = of_closed j ts in if str_eq k j then t ∷ rest else rest

  -- the tapes of a symbol, the open one last
  abbrev pub tapes_of : String → List (String × Tape F) → Dict (Tape F) → List (Tape F)
  tapes_of j closed tapes = of_closed j closed ++ of_open (lookup j tapes)

  -- Tapes that hold what an earlier tape held and then the observations, nothing left out and
  -- nothing twice, split where the bucket changes and nowhere else.
  pub record Groups (before : Option (Tape F)) (seen : List (Datetime × F)) (ts : List (Tape F))
      : Type 0 where
    pub complete : held ts ≡ held (of_open before) ++ seen
    pub apart : Alternates ts
