-- ===== src/RateLimit.antt =====
-- conduit/ratelimit/limiter.py: the token buckets of `RateLimiter`. The clock is read in ticks, `hz`
-- of them to a second, and tokens are counted in parts of 1/hz, so that the refill `elapsed * rate`
-- is exact: one message costs `hz` parts and a byte too. The source uses floats, whose rounding is
-- not modelled; the clock does not go back, and a call under the lock is one step.
pub mod Bound
pub mod Oversize
pub mod Examples
use Prim.Native.Nat.{min}
use net_conduit.Base.{
  ℕ, ◌+◌, ◌-◌, ◌*◌, Bool, true, false, ◌&&◌, ◌||◌, ltb, leb, ◌==◌, if◌then◌else◌,
}

pub record RateLimiter : Type 0 where
  pub messages_per_second : ℕ
  pub bytes_per_second : ℕ
  pub message_tokens : ℕ
  pub byte_tokens : ℕ
  pub last_refill : ℕ

module _ (hz : ℕ) where
  -- the constructor and __post_init__: full buckets
  unfoldable pub new_limiter : ℕ → ℕ → ℕ → RateLimiter
  new_limiter messages_per_second bytes_per_second now = record {
    messages_per_second = messages_per_second;
    bytes_per_second = bytes_per_second;
    message_tokens = messages_per_second * hz;
    byte_tokens = bytes_per_second * hz;
    last_refill = now;
  }

  -- one bucket
  abbrev pub refilled : ℕ → ℕ → ℕ → ℕ
  refilled rate tokens elapsed =
      if ltb 0 rate then min (tokens + elapsed * rate) (rate * hz) else tokens

  unfoldable pub refill : ℕ → RateLimiter → RateLimiter
  refill now l = record l {
    message_tokens = refilled l.messages_per_second l.message_tokens (now - l.last_refill);
    byte_tokens = refilled l.bytes_per_second l.byte_tokens (now - l.last_refill);
    last_refill = now;
  }

  abbrev pub unlimited : RateLimiter → Bool
  unlimited l = l.messages_per_second == 0 && l.bytes_per_second == 0

  -- the tests of `try_acquire` after the refill
  abbrev pub short_of_messages : RateLimiter → Bool
  short_of_messages l = ltb 0 l.messages_per_second && ltb l.message_tokens hz

  abbrev pub short_of_bytes : ℕ → RateLimiter → Bool
  short_of_bytes bytes_count l = ltb 0 l.bytes_per_second && ltb l.byte_tokens (bytes_count * hz)

  abbrev pub consume : ℕ → RateLimiter → RateLimiter
  consume bytes_count l = record l {
    message_tokens =
        if ltb 0 l.messages_per_second then l.message_tokens - hz else l.message_tokens;
    byte_tokens =
        if ltb 0 l.bytes_per_second then l.byte_tokens - bytes_count * hz else l.byte_tokens;
  }

  unfoldable pub try_acquire : ℕ → ℕ → RateLimiter → RateLimiter × Bool
  unfolding refill
  try_acquire bytes_count now l =
      let l' = refill now l in
      if unlimited l
      then (l, true)
      else if short_of_messages l'
      then (l', false)
      else if short_of_bytes bytes_count l'
      then (l', false)
      else (consume bytes_count l', true)

  -- A time in seconds as the fraction `parts / (rate * hz)`.
  pub record Delay : Type 0 where
    pub parts : ℕ
    pub rate : ℕ

  abbrev no_delay : Delay
  no_delay = record { parts = 0; rate = 1 }

  -- max(a, b)
  abbrev longer : Delay → Delay → Delay
  longer a b = if ltb (a.parts * b.rate) (b.parts * a.rate) then b else a

  unfoldable pub time_until_allowed : ℕ → ℕ → RateLimiter → RateLimiter × Delay
  unfolding refill
  time_until_allowed bytes_count now l =
      let l' = refill now l in
      let for_messages =
        if short_of_messages l'
        then record { parts = hz - l'.message_tokens; rate = l'.messages_per_second }
        else no_delay in
      let for_bytes =
        if short_of_bytes bytes_count l'
        then longer for_messages
            (record { parts = bytes_count * hz - l'.byte_tokens; rate = l'.bytes_per_second })
        else for_messages in
      if unlimited l then (l, no_delay) else (l', for_bytes)

abbrev pub is_enabled : RateLimiter → Bool
is_enabled l = ltb 0 l.messages_per_second || ltb 0 l.bytes_per_second

pub record RateLimitConfig : Type 0 where
  pub enabled : Bool
  pub messages_per_second : ℕ
  pub bytes_per_second : ℕ

unfoldable pub create_limiter : ℕ → ℕ → RateLimitConfig → RateLimiter
unfolding new_limiter
create_limiter hz now c =
    if c.enabled
    then new_limiter hz c.messages_per_second c.bytes_per_second now
    else new_limiter hz 0 0 now
