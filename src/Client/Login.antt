-- ===== src/Client/Login.antt =====
-- When an attempt to connect succeeds.
use net_conduit.Base.{◌≡◌, refl, ◌∙◌, Bool, true, false, ◌&&◌, List, [], ◌∷◌, arith, is_some}
use net_conduit.Client.{
  Client, Attempt, Arrival, auth_success, auth_failure, disconnected, pending, settled, receive,
  receive_all, process_auth_success, process_auth_failure, handle_disconnect, begin_connect,
  finish_connect, do_connect,
}

-- No disconnection among what arrives.
abbrev pub is_kept : List Arrival → Bool
is_kept [] = true
is_kept (disconnected ∷ rest) = false
is_kept (_ ∷ rest) = is_kept rest

-- The first to arrive is AUTH_SUCCESS, and the connection is kept.
abbrev pub is_accepted : List Arrival → Bool
is_accepted (auth_success token info ∷ rest) = is_kept rest
is_accepted _ = false

module _ {J : Type 0} where
  receive_all-settled :
      (arrivals : List Arrival) (b : Bool) (c : Client J)
      → c.auth_future ≡ settled b
      → ((receive_all arrivals c).auth_future ≡ settled b)
        × (is_some (receive_all arrivals c).connection ≡ is_some c.connection && is_kept arrivals)
  unfolding receive_all receive process_auth_success process_auth_failure handle_disconnect
  receive_all-settled [] b c e = (e, ground arith)
  receive_all-settled (auth_success token info ∷ rest) b c e =
      let ih = receive_all-settled rest b (process_auth_success token info c) (ground (arith, e)) in
      (ih.0, ground (arith, ih.1))
  receive_all-settled (auth_failure ∷ rest) b c e =
      let ih = receive_all-settled rest b (process_auth_failure c) (ground (arith, e)) in
      (ih.0, ground (arith, ih.1))
  receive_all-settled (disconnected ∷ rest) b c e =
      let ih = receive_all-settled rest b (handle_disconnect c) (ground (arith, e)) in
      (ih.0, ground (arith, ih.1))

  finish_connect-settled :
      (b : Bool) (c : Client J)
      → c.auth_future ≡ settled b
      → (finish_connect c).1 ≡ b && is_some c.connection
  unfolding finish_connect
  finish_connect-settled b c e = ground (arith, e)

  pending-answer :
      (arrivals : List Arrival) (c : Client J)
      → c.auth_future ≡ pending
      → is_some c.connection ≡ true
      → (finish_connect (receive_all arrivals c)).1 ≡ is_accepted arrivals
  unfolding receive_all receive process_auth_success process_auth_failure handle_disconnect
      finish_connect
  pending-answer [] c e there = ground (arith, e)
  pending-answer (auth_success token info ∷ rest) c e there =
      let c' = process_auth_success token info c in
      let o = receive_all-settled rest true c' (ground (arith, e)) in
      let kept : is_some c'.connection ≡ true = ground (arith, there) in
      finish_connect-settled true (receive_all rest c') o.0 ∙ ground (arith, o.1, kept)
  pending-answer (auth_failure ∷ rest) c e there =
      let c' = process_auth_failure c in
      let o = receive_all-settled rest false c' (ground (arith, e)) in
      finish_connect-settled false (receive_all rest c') o.0
  pending-answer (disconnected ∷ rest) c e there =
      let c' = handle_disconnect c in
      let o = receive_all-settled rest false c' (ground (arith, e)) in
      finish_connect-settled false (receive_all rest c') o.0

  -- An attempt succeeds exactly where the link comes about, AUTH_SUCCESS is the first message of the
  -- login to arrive in time, and the connection is not lost before the wait ends.
  pub do_connect-is_accepted :
      (a : Attempt) (c : Client J) → (do_connect a c).1 ≡ a.link && is_accepted a.arrivals
  unfolding do_connect begin_connect
  do_connect-is_accepted a c =
      let answer = pending-answer a.arrivals (begin_connect a.connection_id c) refl refl in
      ground (arith, answer)
