-- ===== src/Messages/Router/Auth.antt =====
-- Which handlers `route` calls, and what it returns.
use mathlib.Core.List.{append-nil, append_assoc}
use net_conduit.Base.{
  ℕ, ◌+◌, ◌≡◌, refl, ap, sym, ◌∙◌, ◌≢◌, Bool, true, false, not, String, Option, none, some, List,
  [], ◌∷◌, ◌++◌, arith, length, length-append, keep_if, All, All-append, Bool-cases, inl, inr,
  is_some,
}
use net_conduit.Messages.Router.{
  RegisteredHandler, MessageRouter, Reply, responded, raised, cancelled, Routed, chosen, refused,
  note, route_loop, route,
}

abbrev pub step : {R : Type 0} → Reply R → Option R → Option R
step (responded x) last = some x
step raised last = last
step cancelled last = last

-- The last response of the handlers, the first of which is the call of that number.
abbrev pub answers :
    {R : Type 0} → (ℕ → ℕ → Reply R) → ℕ → List RegisteredHandler → Option R → Option R
answers run k [] last = last
answers run k (h ∷ hs) last = answers run (k + 1) hs (step (run k h.handler) last)

module _ {R : Type 0} (reports : Bool) (run : ℕ → ℕ → Reply R) where
  abbrev Open : List RegisteredHandler → Type 0
  Open hs = All (λ h. h.requires_auth ≡ false) hs

  note-Open :
      (h : RegisteredHandler) (x : Reply R) (s : Routed R)
      → h.requires_auth ≡ false
      → Open s.called
      → Open (note false reports run h x s).called
  note-Open h (responded x) s o k = All-append _ s.called (h ∷ []) k (o, tt)
  note-Open h raised s o k = All-append _ s.called (h ∷ []) k (o, tt)
  note-Open h cancelled s o k = All-append _ s.called (h ∷ []) k (o, tt)

  route_loop-Open :
      (hs : List RegisteredHandler) (s : Routed R)
      → Open s.called
      → Open (route_loop false reports run hs s).called
  unfolding route_loop
  route_loop-Open [] s k = k
  route_loop-Open (h ∷ hs) s k = ground (
    arith,
    note-Open h (run (length s.called) h.handler) s,
    route_loop-Open hs s,
    route_loop-Open hs (note false reports run h (run (length s.called) h.handler) s),
  )

  abbrev pub allowed : Bool → List RegisteredHandler → List RegisteredHandler
  allowed authenticated hs = keep_if (λ h. not (refused authenticated h)) hs

  note-eq :
      (a : Bool) (h : RegisteredHandler) (x : Reply R) (s : Routed R)
      → x ≢ cancelled
      → ((note a reports run h x s).called ≡ s.called ++ h ∷ [])
        × ((note a reports run h x s).result ≡ step x s.result)
        × ((note a reports run h x s).is_cancelled ≡ s.is_cancelled)
  note-eq a h (responded x) s n = (refl, refl, refl)
  note-eq a h raised s n = (refl, refl, refl)
  note-eq a h cancelled s n = absurd (n refl)

  abbrev Runs : Bool → List RegisteredHandler → Routed R → Routed R → Type 0
  Runs a hs s out =
      (out.called ≡ s.called ++ allowed a hs)
      × (out.result ≡ answers run (length s.called) (allowed a hs) s.result)
      × (out.is_cancelled ≡ false)

  loop_called :
      (a : Bool) (h : RegisteredHandler) (hs : List RegisteredHandler) (s s' out : Routed R)
      → not (refused a h) ≡ true
      → (s'.called ≡ s.called ++ h ∷ [])
      → (s'.result ≡ step (run (length s.called) h.handler) s.result)
      → Runs a hs s' out
      → Runs a (h ∷ hs) s out
  loop_called a h hs s s' out n c e k = rw n (
    k.0 ∙ ap (λ l. l ++ allowed a hs) c ∙ append_assoc s.called (h ∷ []) (allowed a hs),
    k.1
        ∙ ap (λ l. answers run (length l) (allowed a hs) s'.result) c
        ∙ ap (λ m. answers run m (allowed a hs) s'.result) (length-append s.called (h ∷ []))
        ∙ ap (λ x. answers run (length s.called + 1) (allowed a hs) x) e,
    k.2,
  )

  route_loop-Runs :
      (a : Bool) (hs : List RegisteredHandler) (s : Routed R)
      → ((k i : ℕ) → run k i ≢ cancelled)
      → s.is_cancelled ≡ false
      → Runs a hs s (route_loop a reports run hs s)
  unfolding route_loop
  route_loop-Runs a [] s n z = (sym (append-nil s.called), refl, z)
  route_loop-Runs a (h ∷ hs) s n z = elim (Bool-cases (refused a h)) [
    | inl skip ↦ ground (arith, route_loop-Runs a hs s n z)
    | inr go ↦
        let s' = note a reports run h (run (length s.called) h.handler) s in
        let noted =
          note-eq a h (run (length s.called) h.handler) s (n (length s.called) h.handler) in
        let ih = route_loop-Runs a hs s' n (noted.2 ∙ z) in
        let goal =
          loop_called a h hs s s' (route_loop a reports run hs s') (rw go refl) noted.0 noted.1
            ih in
        ground (arith, goal, noted.2)
  ]

module _ {R : Type 0} (run : ℕ → ℕ → Reply R) where
  -- A sender that is not authenticated reaches no handler that requires it, whatever the handlers
  -- do: every handler that `route` calls is registered without the requirement.
  pub route-Open :
      (t : String) (r : MessageRouter)
      → All (λ h. h.requires_auth ≡ false) (route run t false r).called
  unfolding route
  route-Open t r = route_loop-Open (is_some r.error_handler) run (chosen t r) _ tt

  -- Where no call is cancelled, `route` calls exactly the handlers chosen for the message that the
  -- sender may reach, each once and in their order, an exception of one of them notwithstanding; its
  -- result is the last response, or None where there was none.
  pub route-eq :
      (t : String) (authenticated : Bool) (r : MessageRouter)
      → ((k i : ℕ) → run k i ≢ cancelled)
      → let hs = keep_if (λ h. not (refused authenticated h)) (chosen t r) in
        ((route run t authenticated r).called ≡ hs)
        × ((route run t authenticated r).result ≡ answers run 0 hs none)
        × ((route run t authenticated r).is_cancelled ≡ false)
  unfolding route
  route-eq t a r n = route_loop-Runs (is_some r.error_handler) run a (chosen t r) _ n refl
