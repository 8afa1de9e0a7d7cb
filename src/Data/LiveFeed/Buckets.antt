-- ===== src/Data/LiveFeed/Buckets.antt =====
-- The buckets of the supported timeframes.
use trader_ai.Prelude.{
  ℕ, ◌+◌, ◌*◌, ◌/◌, ◌%◌, ◌≤◌, ◌<◌, ◌≡◌, sym, subst, ◌⊎◌, inl, inr, some, String, arith,
}
use trader_ai.Clock.{Datetime, minute}
use trader_ai.Data.LiveFeed.{timeframe_to_minutes, bucket_start}

-- a width in minutes that a timeframe has
abbrev pub IsWidth : ℕ → Type 0
IsWidth m = (m ≡ 1) ⊎ (m ≡ 5) ⊎ (m ≡ 15)

timeframe-IsWidth : (t : String) (m : ℕ) → timeframe_to_minutes t ≡ some m → IsWidth m
unfolding timeframe_to_minutes
timeframe-IsWidth t m h = ground arith

bucket_1 : (ts : Datetime) → bucket_start ts 1 ≡ ts / minute * minute
unfolding bucket_start
bucket_1 ts = omega arith

bucket_5 : (ts : Datetime) → bucket_start ts 5 ≡ ts / (5 * minute) * (5 * minute)
unfolding bucket_start
bucket_5 ts = omega arith

bucket_15 : (ts : Datetime) → bucket_start ts 15 ≡ ts / (15 * minute) * (15 * minute)
unfolding bucket_start
bucket_15 ts = omega arith

-- a time floored to a bucket
abbrev pub IsBucket : ℕ → Datetime → Datetime → Type 0
IsBucket minutes ts b = (b % (minutes * minute) ≡ 0) × (b ≤ ts) × (ts < b + minutes * minute)

width-IsBucket : (m : ℕ) (ts : Datetime) → IsWidth m → IsBucket m ts (bucket_start ts m)
width-IsBucket m ts (inl e) =
    subst (λ k. IsBucket k ts (bucket_start ts k)) (sym e)
      (omega (arith, bucket_1 ts), omega (arith, bucket_1 ts), omega (arith, bucket_1 ts))
width-IsBucket m ts (inr (inl e)) =
    subst (λ k. IsBucket k ts (bucket_start ts k)) (sym e)
      (omega (arith, bucket_5 ts), omega (arith, bucket_5 ts), omega (arith, bucket_5 ts))
width-IsBucket m ts (inr (inr e)) =
    subst (λ k. IsBucket k ts (bucket_start ts k)) (sym e)
      (omega (arith, bucket_15 ts), omega (arith, bucket_15 ts), omega (arith, bucket_15 ts))

-- The bucket of a tick starts at a multiple of the width of the timeframe, which is at or before the tick and less than a width before it.
pub bucket_start-IsBucket :
    (timeframe : String) (minutes : ℕ) (ts : Datetime)
    → timeframe_to_minutes timeframe ≡ some minutes
    → IsBucket minutes ts (bucket_start ts minutes)
bucket_start-IsBucket timeframe minutes ts h =
    width-IsBucket minutes ts (timeframe-IsWidth timeframe minutes h)
