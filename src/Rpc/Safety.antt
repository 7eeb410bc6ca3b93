-- ===== src/Rpc/Safety.antt =====
-- Which handlers a batch of requests reaches.
use net_conduit.Base.{
  ℕ, ◌≡◌, Bool, false, List, [], ◌∷◌, String, arith, All, All-append, Option-cases, inl, inr,
}
use net_conduit.Base.Dict.{Dict}
use net_conduit.Rpc.Registry.{RpcMethod, RpcRegistry, get}
use net_conduit.Rpc.Dispatcher.{
  Param, Outcome, Reply, Dispatched, Request, dispatch, dispatch_batch, dispatch_request,
  method_or_empty, params_or_empty, and_then, validate_params,
}

module _ {ℓ} {J : Type ℓ} (is_formatted : J → Bool) (signature : ℕ → List (Param J))
    (run : RpcMethod → Dict J → Outcome J) where
  -- The handler of a call needs no authentication.
  abbrev pub IsOpen : RpcMethod × Dict J → Type 0
  IsOpen (m, validated) = m.requires_auth ≡ false

  dispatch-IsOpen :
      (method : String) (params : Dict J) (r : RpcRegistry)
      → All IsOpen (dispatch is_formatted signature run method params false r).calls
  unfolding dispatch
  dispatch-IsOpen method params r = elim (Option-cases (get method r)) [
    | inl e ↦ ground (arith, e)
    | inr (m, e) ↦
        elim (Option-cases
          (validate_params is_formatted signature run (signature m.handler) params)) [
            | inl v ↦ ground (arith, e, v)
            | inr (d, v) ↦ ground (arith, e, v)
          ]
  ]

  and_then-IsOpen :
      (one : Dispatched J (Reply J)) (rest : Dispatched J (List (Reply J)))
      → All IsOpen one.calls
      → All IsOpen rest.calls
      → All IsOpen (and_then is_formatted signature run one rest).calls
  and_then-IsOpen one rest h h' = elim (Option-cases one.reply) [
    | inl e ↦ rw e h
    | inr (x, e) ↦ rw e (All-append IsOpen one.calls rest.calls h h')
  ]

  -- A batch from a caller that is not authenticated runs no handler that requires authentication,
  -- whatever the requests are and whatever the handlers do.
  pub dispatch_batch-IsOpen :
      (qs : List (Request J)) (r : RpcRegistry)
      → All IsOpen (dispatch_batch is_formatted signature run qs false r).calls
  unfolding dispatch_batch
  dispatch_batch-IsOpen [] r = tt
  dispatch_batch-IsOpen (q ∷ qs) r =
      and_then-IsOpen (dispatch_request is_formatted signature run false r q)
        (dispatch_batch is_formatted signature run qs false r)
        (dispatch-IsOpen (method_or_empty is_formatted signature run q.method)
          (params_or_empty is_formatted signature run q.params) r)
        (dispatch_batch-IsOpen qs r)
