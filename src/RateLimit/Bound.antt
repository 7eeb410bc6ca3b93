-- ===== src/RateLimit/Bound.antt =====
-- How much a `RateLimiter` lets through.
use net_conduit.Base.{
  ℕ, ◌+◌, ◌-◌, ◌*◌, ◌≤◌, ◌<◌, ◌≡◌, refl, ◌∙◌, Bool, true, false, List, [], ◌∷◌, arith, ap,
  if◌then◌else◌,
}
use net_conduit.RateLimit.{RateLimiter, refilled, try_acquire, new_limiter}

module _ (hz : ℕ) where
  -- Calls of try_acquire, each with its bytes and the ticks since the one before; the messages that
  -- were allowed, and their bytes.
  pub record Passed : Type 0 where
    pub limiter : RateLimiter
    pub count : ℕ
    pub bytes : ℕ

  abbrev add : Bool → ℕ → Passed → RateLimiter → Passed
  add true b p l = record { limiter = l; count = p.count + 1; bytes = p.bytes + b }
  add false b p l = record p { limiter = l }

  abbrev one_call : ℕ → ℕ → Passed → Passed
  one_call b now p = add (try_acquire hz b now p.limiter).1 b p (try_acquire hz b now p.limiter).0

  unfoldable pub acquire_all : List (ℕ × ℕ) → ℕ → Passed → Passed
  acquire_all [] now p = p
  acquire_all ((dt, b) ∷ cs) now p = acquire_all cs (now + dt) (one_call b (now + dt) p)

  abbrev pub duration : List (ℕ × ℕ) → ℕ
  duration [] = 0
  duration ((dt, b) ∷ cs) = dt + duration cs

  -- What a bucket holds after its refill is at most what it held and what the time gave.
  refilled-le :
      (rate tokens elapsed : ℕ) → refilled hz rate tokens elapsed ≤ tokens + elapsed * rate
  refilled-le rate tokens elapsed = ground arith

  -- One call: the limits stay, the clock is read, and a message is paid for.
  messages_step :
      (b now : ℕ) (l : RateLimiter)
      → 0 < l.messages_per_second
      → ((try_acquire hz b now l).0.messages_per_second ≡ l.messages_per_second)
        × ((try_acquire hz b now l).0.last_refill ≡ now)
        × ((if (try_acquire hz b now l).1 then hz else 0)
              + (try_acquire hz b now l).0.message_tokens
            ≤ l.message_tokens + (now - l.last_refill) * l.messages_per_second)
  unfolding try_acquire
  messages_step b now l h =
      let paid = refilled-le l.messages_per_second l.message_tokens (now - l.last_refill) in
      ground arith

  bytes_step :
      (b now : ℕ) (l : RateLimiter)
      → 0 < l.bytes_per_second
      → ((try_acquire hz b now l).0.bytes_per_second ≡ l.bytes_per_second)
        × ((try_acquire hz b now l).0.last_refill ≡ now)
        × ((if (try_acquire hz b now l).1 then b * hz else 0)
              + (try_acquire hz b now l).0.byte_tokens
            ≤ l.byte_tokens + (now - l.last_refill) * l.bytes_per_second)
  unfolding try_acquire
  bytes_step b now l h =
      let paid = refilled-le l.bytes_per_second l.byte_tokens (now - l.last_refill) in ground arith

  add-count :
      (r : Bool) (b : ℕ) (p : Passed) (l : RateLimiter)
      → (add r b p l).count * hz ≡ p.count * hz + (if r then hz else 0)
  add-count true b p l = omega arith
  add-count false b p l = omega arith

  add-bytes :
      (r : Bool) (b : ℕ) (p : Passed) (l : RateLimiter)
      → (add r b p l).bytes * hz ≡ p.bytes * hz + (if r then b * hz else 0)
  add-bytes true b p l = omega arith
  add-bytes false b p l = omega arith

  add-limiter : (r : Bool) (b : ℕ) (p : Passed) (l : RateLimiter) → (add r b p l).limiter ≡ l
  add-limiter true b p l = refl
  add-limiter false b p l = refl

  -- The messages that were allowed and the tokens left are paid for by `budget` parts.
  record MessagesWithin (rate now budget : ℕ) (p : Passed) : Type 0 where
    limit : p.limiter.messages_per_second ≡ rate
    clock : p.limiter.last_refill ≡ now
    paid : p.count * hz + p.limiter.message_tokens ≤ budget

  one_call-MessagesWithin :
      (rate now budget dt b : ℕ) (p : Passed)
      → 0 < rate
      → MessagesWithin rate now budget p
      → MessagesWithin rate (now + dt) (budget + dt * rate) (one_call b (now + dt) p)
  one_call-MessagesWithin rate now budget dt b p h w =
      let step = messages_step b (now + dt) p.limiter (rw w.limit h) in
      let elapsed : (now + dt - p.limiter.last_refill) * p.limiter.messages_per_second ≡ dt * rate =
        rw (w.clock, w.limit) (ap (λ n. n * rate) (omega arith)) in
      let r = (try_acquire hz b (now + dt) p.limiter).1 in
      let l = (try_acquire hz b (now + dt) p.limiter).0 in
      let after = add-limiter r b p l in
      let counted = add-count r b p l in
      let held : (add r b p l).limiter.message_tokens ≡ l.message_tokens =
        ap (λ x. x.message_tokens) after in
      record {
        limit = ap (λ x. x.messages_per_second) after ∙ (step.0 ∙ w.limit);
        clock = ap (λ x. x.last_refill) after ∙ step.1;
        paid = omega (arith, step.2, elapsed, counted, held, w.paid);
      }

  record BytesWithin (rate now budget : ℕ) (p : Passed) : Type 0 where
    limit : p.limiter.bytes_per_second ≡ rate
    clock : p.limiter.last_refill ≡ now
    paid : p.bytes * hz + p.limiter.byte_tokens ≤ budget

  one_call-BytesWithin :
      (rate now budget dt b : ℕ) (p : Passed)
      → 0 < rate
      → BytesWithin rate now budget p
      → BytesWithin rate (now + dt) (budget + dt * rate) (one_call b (now + dt) p)
  one_call-BytesWithin rate now budget dt b p h w =
      let step = bytes_step b (now + dt) p.limiter (rw w.limit h) in
      let elapsed : (now + dt - p.limiter.last_refill) * p.limiter.bytes_per_second ≡ dt * rate =
        rw (w.clock, w.limit) (ap (λ n. n * rate) (omega arith)) in
      let r = (try_acquire hz b (now + dt) p.limiter).1 in
      let l = (try_acquire hz b (now + dt) p.limiter).0 in
      let after = add-limiter r b p l in
      let counted = add-bytes r b p l in
      let held : (add r b p l).limiter.byte_tokens ≡ l.byte_tokens =
        ap (λ x. x.byte_tokens) after in
      record {
        limit = ap (λ x. x.bytes_per_second) after ∙ (step.0 ∙ w.limit);
        clock = ap (λ x. x.last_refill) after ∙ step.1;
        paid = omega (arith, step.2, elapsed, counted, held, w.paid);
      }

  acquire_all-messages :
      (rate now budget : ℕ) (cs : List (ℕ × ℕ)) (p : Passed)
      → 0 < rate
      → MessagesWithin rate now budget p
      → (acquire_all cs now p).count * hz ≤ budget + duration cs * rate
  unfolding acquire_all
  acquire_all-messages rate now budget [] p h w = omega (arith, w.paid)
  acquire_all-messages rate now budget ((dt, b) ∷ cs) p h w = omega (
    arith,
    acquire_all-messages rate (now + dt) (budget + dt * rate) cs (one_call b (now + dt) p) h
        (one_call-MessagesWithin rate now budget dt b p h w),
  )

  acquire_all-bytes :
      (rate now budget : ℕ) (cs : List (ℕ × ℕ)) (p : Passed)
      → 0 < rate
      → BytesWithin rate now budget p
      → (acquire_all cs now p).bytes * hz ≤ budget + duration cs * rate
  unfolding acquire_all
  acquire_all-bytes rate now budget [] p h w = omega (arith, w.paid)
  acquire_all-bytes rate now budget ((dt, b) ∷ cs) p h w = omega (
    arith,
    acquire_all-bytes rate (now + dt) (budget + dt * rate) cs (one_call b (now + dt) p) h
        (one_call-BytesWithin rate now budget dt b p h w),
  )

  abbrev pub fresh : ℕ → ℕ → ℕ → Passed
  fresh messages bytes now = record {
    limiter = new_limiter hz messages bytes now;
    count = 0;
    bytes = 0;
  }

  -- From a new limiter, in any calls over `duration cs` ticks, at most one second's worth of
  -- messages (the full bucket) and the rate times the duration are allowed; and so it is for bytes.
  -- The counts are multiplied by `hz` to stay in whole numbers, and both limits are set.
  pub acquire_all-le :
      (messages bytes now : ℕ) (cs : List (ℕ × ℕ))
      → 0 < messages
      → 0 < bytes
      → ((acquire_all cs now (fresh messages bytes now)).count * hz
          ≤ messages * hz + duration cs * messages)
        × ((acquire_all cs now (fresh messages bytes now)).bytes * hz
            ≤ bytes * hz + duration cs * bytes)
  unfolding new_limiter
  acquire_all-le messages bytes now cs hm hb = (
    acquire_all-messages messages now (messages * hz) cs (fresh messages bytes now) hm
        (record { limit = refl; clock = refl; paid = omega arith }),
    acquire_all-bytes bytes now (bytes * hz) cs (fresh messages bytes now) hb
        (record { limit = refl; clock = refl; paid = omega arith }),
  )
