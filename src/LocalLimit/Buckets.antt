-- ===== src/LocalLimit/Buckets.antt =====
-- The size of a bucket, and the descriptors that have none.
use limiter.Prelude.{
  ℕ, pos, none, some, to_u32, to_u32_exact, u32_mod, ret, panic, ◌≡◌, refl, ◌<◌, arith, ◌↔◌, ◌⊎◌,
}
use limiter.Text.Decimal.{atoi, format_int}
use limiter.Text.Decimal.RoundTrip.{atoi-format_int}
use limiter.Api.{SmartLimitDescriptor, Action, Duration}
use limiter.Envoy.{TokenBucket}
use limiter.Action.Agreement.{HasMatchers}
use limiter.LocalLimit.{generate_token_bucket}

-- If the quota of an action with an interval was printed from a number that fits a uint32, then the
-- bucket has that number of tokens and is filled by as many in each interval.
pub bucket_of_quota :
    (item : SmartLimitDescriptor) (action : Action) (interval : Duration) (n : ℕ)
    → item.action ≡ some action
    → action.fill_interval ≡ some interval
    → action.quota ≡ format_int (pos n)
    → n < u32_mod
    → generate_token_bucket item
      ≡ ret (record { max_tokens = n; fill_interval = interval; tokens_per_fill = n })
unfolding generate_token_bucket
bucket_of_quota item action interval n ha hi hq h =
    rw (ha, hi, hq, atoi-format_int (pos n) (omega arith), to_u32_exact n h)

-- The bucket of a descriptor panics exactly if the descriptor has no action or its action has no
-- interval.
pub generate_token_bucket-panic :
    (item : SmartLimitDescriptor)
    → (generate_token_bucket item ≡ panic)
      ↔ ((item.action ≡ none) ⊎ ((a : Action) × (item.action ≡ some a) × (a.fill_interval ≡ none)))
unfolding generate_token_bucket
generate_token_bucket-panic item = ground arith

-- There is an action with an interval, and no matcher is nil.
abbrev pub IsComplete : SmartLimitDescriptor → Type 0
IsComplete d =
    (action : Action) × (interval : Duration) × (d.action ≡ some action)
    × (action.fill_interval ≡ some interval)
    × HasMatchers d

pub IsComplete-HasBucket :
    (d : SmartLimitDescriptor)
    → IsComplete d
    → (b : TokenBucket) × (generate_token_bucket d ≡ ret b)
unfolding generate_token_bucket
IsComplete-HasBucket d (action, interval, ha, hi, m) = (
  record {
    max_tokens = to_u32 (atoi action.quota).0;
    fill_interval = record { seconds = interval.seconds; nanos = interval.nanos };
    tokens_per_fill = to_u32 (atoi action.quota).0;
  },
  rw (ha, hi) refl,
)
