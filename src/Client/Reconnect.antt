-- ===== src/Client/Reconnect.antt =====
-- The reconnect loop.
use mathlib.Core.Path.{subst}
use net_conduit.Base.{
  ◌⊎◌, ℕ, zero, suc, ◌+◌, ◌-◌, ◌≤◌, ◌<◌, ◌≡◌, refl, ap, ◌∙◌, Bool, true, false, not, ◌&&◌, ◌||◌,
  Option, some, List, [], ◌∷◌, String, arith, length, leb, ltb, All, Bool-cases, inl, inr,
}
use net_conduit.Server.{truthy}
use net_conduit.Client.{
  Client, Attempt, Arrival, auth_success, auth_failure, disconnected, receive, receive_all,
  process_auth_success, process_auth_failure, handle_disconnect, begin_connect, finish_connect,
  do_connect, disconnect, Looped, reconnect_loop, min, auth_request, disconnect_hooks, client_info,
  password_sent, emit, reconnect_hooks,
}

module _ {J : Type 0} where
  -- What arrives changes neither the configuration nor the number of attempts.
  abbrev fixed : Client J → ℕ × ℕ × ℕ
  fixed c = (c.attempts, c.config.reconnect_attempts, c.config.reconnect_delay_max)

  receive_all-fixed :
      (arrivals : List Arrival) (c : Client J) → fixed (receive_all arrivals c) ≡ fixed c
  unfolding receive_all receive process_auth_success process_auth_failure handle_disconnect
  receive_all-fixed [] c = refl
  receive_all-fixed (auth_success token info ∷ rest) c =
      receive_all-fixed rest (process_auth_success token info c)
  receive_all-fixed (auth_failure ∷ rest) c = receive_all-fixed rest (process_auth_failure c)
  receive_all-fixed (disconnected ∷ rest) c = receive_all-fixed rest (handle_disconnect c)

  finish_connect-fixed :
      (c : Client J) → (finish_connect c).1 ≡ false → fixed (finish_connect c).0 ≡ fixed c
  unfolding finish_connect disconnect
  finish_connect-fixed c e = ground (arith, e)

  -- An attempt that fails does not reset the number of attempts.
  do_connect-fixed :
      (a : Attempt) (c : Client J) → (do_connect a c).1 ≡ false → fixed (do_connect a c).0 ≡ fixed c
  unfolding do_connect begin_connect
  do_connect-fixed a c e = elim (Bool-cases a.link) [
    | inr f ↦ ground (arith, f)
    | inl l ↦
        let r = receive_all a.arrivals (begin_connect a.connection_id c) in
        let failed : (finish_connect r).1 ≡ false = ground (arith, e, l) in
        let same =
          finish_connect-fixed r failed
          ∙ receive_all-fixed a.arrivals (begin_connect a.connection_id c) in
        ground (arith, l, same)
  ]

module _ {J : Type 0} (scale : ℕ → ℕ) (attempt : ℕ → Attempt) where
  -- How the loop ends, where `left` more attempts are allowed.
  record IsEnded (left longest : ℕ) (o : Option (Looped J)) : Type 0 where
    result : Looped J
    found : o ≡ some result
    few : length result.slept ≤ left
    short : All (λ d. d ≤ longest) result.slept

  abbrev stops : Client J → Bool
  stops c =
      not c.should_reconnect
      || (ltb 0 c.config.reconnect_attempts && leb c.config.reconnect_attempts c.attempts)

  stopped-IsEnded :
      (left fuel i delay longest : ℕ) (c : Client J)
      → stops c ≡ true
      → IsEnded left longest (reconnect_loop scale attempt (suc fuel) i delay c)
  unfolding reconnect_loop
  stopped-IsEnded left fuel i delay longest c e = record {
    result = record { client = c; slept = []; is_connected = false };
    found = ground (arith, e);
    few = omega arith;
    short = tt;
  }

  -- One more round.
  round-IsEnded :
      (left fuel i delay : ℕ) (c : Client J) (longest : ℕ)
      → stops c ≡ false
      → delay ≤ longest
      → ((do_connect (attempt i) (record c { attempts = c.attempts + 1 })).1 ≡ false
          → IsEnded left longest (
              reconnect_loop scale attempt fuel
                (i + 1)
                (min (scale delay) c.config.reconnect_delay_max)
                (do_connect (attempt i) (record c { attempts = c.attempts + 1 })).0))
      → IsEnded (suc left) longest (reconnect_loop scale attempt (suc fuel) i delay c)
  unfolding reconnect_loop
  round-IsEnded left fuel i delay c longest goes bounded next =
      let o = do_connect (attempt i) (record c { attempts = c.attempts + 1 }) in
      elim (Bool-cases o.1) [
        | inl e ↦ record {
          result = record {
            client = emit reconnect_hooks o.0;
            slept = delay ∷ [];
            is_connected = true;
          };
          found = ground (arith, goes, e);
          few = omega arith;
          short = (bounded, tt);
        }
        | inr e ↦
            let rest = next e in
            record {
              result = record rest.result { slept = delay ∷ rest.result.slept };
              found = ground (arith, goes, e, rest.found);
              few = omega (arith, rest.few);
              short = (bounded, rest.short);
            }
      ]

  reconnect_loop-IsEnded :
      (left i delay : ℕ) (c : Client J)
      → 0 < c.config.reconnect_attempts
      → c.config.reconnect_attempts ≤ c.attempts + left
      → delay ≤ c.config.reconnect_delay_max
      → IsEnded left c.config.reconnect_delay_max
          (reconnect_loop scale attempt (suc left) i delay c)
  unfolding reconnect_loop
  reconnect_loop-IsEnded zero i delay c limited enough bounded =
      stopped-IsEnded zero zero i delay c.config.reconnect_delay_max c
        (ground (arith, limited, enough))
  reconnect_loop-IsEnded (suc left) i delay c limited enough bounded = elim (Bool-cases (stops c)) [
    | inl e ↦ stopped-IsEnded (suc left) (suc left) i delay c.config.reconnect_delay_max c e
    | inr e ↦ round-IsEnded left (suc left) i delay c c.config.reconnect_delay_max e bounded (λ f.
        let c1 = record c { attempts = c.attempts + 1 } in
        let same = do_connect-fixed (attempt i) c1 f in
        let attempts = ap (λ x. x.0) same in
        let maximum = ap (λ x. x.1) same in
        let longest = ap (λ x. x.2) same in
        let ih =
          reconnect_loop-IsEnded left (i + 1) (min (scale delay) c.config.reconnect_delay_max)
            (do_connect (attempt i) c1).0 (omega (arith, limited, maximum))
            (omega (arith, enough, attempts, maximum)) (ground (arith, longest)) in
        subst
          (λ n. IsEnded left n (
            reconnect_loop scale attempt (suc left) (i + 1)
              (min (scale delay) c.config.reconnect_delay_max) (do_connect (attempt i) c1).0))
          longest ih)
  ]

  -- With a maximum number of attempts and a first delay within the longest one, the reconnect loop
  -- ends, whatever its attempts come to: it sleeps at most as often as attempts are left, and never
  -- longer than `reconnect_delay_max`.
  pub reconnect_loop-total :
      (c : Client J)
      → 0 < c.config.reconnect_attempts
      → c.config.reconnect_delay ≤ c.config.reconnect_delay_max
      → (l : Looped J) × (reconnect_loop scale attempt
            (c.config.reconnect_attempts - c.attempts + 1)
            0
            c.config.reconnect_delay
            c
          ≡ some l)
        × (length l.slept ≤ c.config.reconnect_attempts - c.attempts)
        × All (λ d. d ≤ c.config.reconnect_delay_max) l.slept
  reconnect_loop-total c limited bounded =
      let left = c.config.reconnect_attempts - c.attempts in
      let e =
        reconnect_loop-IsEnded left 0 c.config.reconnect_delay c limited (omega arith) bounded in
      let rounds : left + 1 ≡ suc left = omega arith in
      (
        e.result,
        ap (λ n. reconnect_loop scale attempt n 0 c.config.reconnect_delay c) rounds ∙ e.found,
        e.few,
        e.short,
      )

  no_password :
      (c : Client J) (token : String)
      → truthy c.cached_session_token ≡ some token
      → password_sent c ≡ ""
  no_password c token e = ground (arith, e)

  -- A client that has a token and reconnects, with no maximum of attempts or below it, to a server
  -- that is reached and answers the login by AUTH_FAILURE: the login request has the
  -- token and no password, and after it the loop ends for good, whatever the later attempts and the
  -- password would come to.
  pub reconnect_loop-refused :
      (fuel delay : ℕ) (token : String) (c : Client J)
      → truthy c.cached_session_token ≡ some token
      → c.should_reconnect ≡ true
      → (c.config.reconnect_attempts ≡ 0) ⊎ (c.attempts < c.config.reconnect_attempts)
      → (attempt 0).link ≡ true
      → (attempt 0).arrivals ≡ auth_failure ∷ []
      → (l : Looped J) × (reconnect_loop scale attempt (suc (suc fuel)) 0 delay c ≡ some l)
        × (l.is_connected ≡ false)
        × (l.slept ≡ delay ∷ [])
        × (l.client.should_reconnect ≡ false)
        × (l.client.log ≡ disconnect_hooks ∷ auth_request "" (client_info c) ∷ c.log)
  unfolding reconnect_loop do_connect begin_connect receive_all receive process_auth_failure
      finish_connect disconnect
  reconnect_loop-refused fuel delay token c has_token on left link refused =
      let c1 = record c { attempts = c.attempts + 1 } in
      let begun = begin_connect (attempt 0).connection_id c1 in
      let o = finish_connect (receive_all (auth_failure ∷ []) begun) in
      let linked : do_connect (attempt 0) c1
          ≡ finish_connect (receive_all (attempt 0).arrivals begun) =
        ground (arith, link) in
      let out : do_connect (attempt 0) c1 ≡ o =
        linked ∙ ap (λ xs. finish_connect (receive_all xs begun)) refused in
      let failed : (do_connect (attempt 0) c1).1 ≡ false = ap (λ x. x.1) out in
      let goes : stops c ≡ false = elim left [
        | inl unlimited ↦ ground (arith, on, unlimited)
        | inr below ↦ ground (arith, on, below)
      ] in
      let last : Looped J = record { client = o.0; slept = []; is_connected = false } in
      let second : reconnect_loop scale attempt (suc fuel) 1
            (min (scale delay) c.config.reconnect_delay_max) (do_connect (attempt 0) c1).0
          ≡ some last =
        ap
          (λ x.
            reconnect_loop scale attempt (suc fuel) 1
              (min (scale delay) c.config.reconnect_delay_max) x.0)
          out in
      let sent =
        ap (λ x. disconnect_hooks ∷ auth_request x (client_info c) ∷ c.log)
          (no_password c token has_token) in
      (
        record last { slept = delay ∷ [] },
        ground (arith, goes, failed, second),
        refl,
        refl,
        refl,
        sent,
      )
