-- ===== src/RateLimit/Oversize.antt =====
-- A message of more bytes than the limit of a second.
use net_conduit.Base.{ℕ, ◌-◌, ◌*◌, ◌≤◌, ◌<◌, ◌≡◌, false, arith}
use net_conduit.RateLimit.{RateLimiter, refilled, try_acquire, time_until_allowed}

-- The byte bucket never holds more than its capacity.
refilled-le_cap :
    (hz rate tokens elapsed : ℕ) → 0 < rate → refilled hz rate tokens elapsed ≤ rate * hz
refilled-le_cap hz rate tokens elapsed h = ground arith

-- Where the bytes of a message are more than the byte limit, `try_acquire` refuses it at every
-- time, whatever the buckets hold, and `time_until_allowed` never says that it is allowed at once.
oversize_never :
    (hz bytes_count now : ℕ) (l : RateLimiter)
    → 0 < hz
    → 0 < l.bytes_per_second
    → l.bytes_per_second < bytes_count
    → ((try_acquire hz bytes_count now l).1 ≡ false)
      × (0 < (time_until_allowed hz bytes_count now l).1.parts)
unfolding try_acquire time_until_allowed
oversize_never hz b now l h r big =
    let cap = refilled-le_cap hz l.bytes_per_second l.byte_tokens (now - l.last_refill) r in
    let cost : l.bytes_per_second * hz < b * hz = grind arith in ground arith
