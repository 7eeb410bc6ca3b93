-- ===== src/Rpc/Registration.antt =====
-- What a registration changes for the dispatcher.
use net_conduit.Base.{
  ℕ, ◌≡◌, refl, ap, ◌∙◌, if◌then◌else◌, none, List, [], ◌∷◌, Bool, true, false, not, ◌&&◌, Option,
  some, String, arith, str_eq, Option-cases, inl, inr,
}
use net_conduit.Base.Dict.{Dict, insert, lookup-insert, lookup-insert_self}
use net_conduit.Rpc.Registry.{Handler, RpcMethod, RpcRegistry, register, get, method_name}
use net_conduit.Rpc.Dispatcher.{
  Param, Outcome, returned, validation_error, type_error, cancelled, other_error, Reply, formatted,
  wrapped, invalid, bad_type, internal, Dispatched, dispatch, execute, reply_to, validate_params,
}

-- Where `register` returns, it has put its method under the method's name, and nothing else.
register-insert :
    (h : Handler) (name : Option String) (requires_auth : Bool) (r r' : RpcRegistry) (m : RpcMethod)
    → register h name requires_auth r ≡ some (r', m)
    → (r' ≡ insert m.name m r)
      × (m.name ≡ method_name name h)
      × (m.requires_auth ≡ requires_auth)
      × (m.handler ≡ h.handler_id)
unfolding register
register-insert h name requires_auth r r' m e = elim (Option-cases h.hints) [
  | inl none_ ↦ ground (arith, e, none_)
  | inr (hints, some_) ↦ ground (arith, e, some_)
]

-- What a caller is told of the outcome of a handler: its result, wrapped unless it is formatted, or
-- the error that its exception stands for; none is a cancellation.
abbrev pub told {ℓ} : {J : Type ℓ} → (J → Bool) → String → Outcome J → Option (Reply J)
told is_formatted name (returned x) = some (if is_formatted x then formatted x else wrapped x)
told is_formatted name validation_error = some (invalid name)
told is_formatted name type_error = some bad_type
told is_formatted name other_error = some (internal name)
told is_formatted name cancelled = none

module _ {ℓ} {J : Type ℓ} (is_formatted : J → Bool) (signature : ℕ → List (Param J))
    (run : RpcMethod → Dict J → Outcome J) where
  dispatch-found :
      (k : String) (params : Dict J) (authenticated : Bool) (r : RpcRegistry) (m : RpcMethod)
      → str_eq k "listall" ≡ false
      → get k r ≡ some m
      → (m.requires_auth && not authenticated) ≡ false
      → dispatch is_formatted signature run k params authenticated r
        ≡ execute is_formatted signature run k m
            (validate_params is_formatted signature run (signature m.handler) params)
  unfolding dispatch
  dispatch-found k params authenticated r m l g a = ground (arith, l, g, a)

  told-eq :
      (name : String) (o : Outcome J)
      → reply_to is_formatted signature run name o ≡ told is_formatted name o
  told-eq name (returned x) = refl
  told-eq name validation_error = refl
  told-eq name type_error = refl
  told-eq name other_error = refl
  told-eq name cancelled = refl

  -- What an authenticated call comes to, by the parameters that its handler gets.
  abbrev result : String → RpcMethod → Option (Dict J) → Dispatched J (Reply J)
  result name m o = elim o [
    | none ↦ record { reply = some (invalid name); calls = [] }
    | some bound ↦ record { reply = told is_formatted name (run m bound); calls = (m, bound) ∷ [] }
  ]

  execute-told :
      (name : String) (m : RpcMethod) (o : Option (Dict J))
      → execute is_formatted signature run name m o ≡ result name m o
  execute-told name m none = refl
  execute-told name m (some bound) =
      ap (λ x. record { reply = x; calls = (m, bound) ∷ [] }) (told-eq name (run m bound))

  dispatch-get :
      (k : String) (params : Dict J) (authenticated : Bool) (r r' : RpcRegistry)
      → str_eq k "listall" ≡ false
      → get k r ≡ get k r'
      → dispatch is_formatted signature run k params authenticated r
        ≡ dispatch is_formatted signature run k params authenticated r'
  unfolding dispatch
  dispatch-get k params authenticated r r' l g = rw (l, g) refl

  -- Where `register` returns a method of a name other than "listall": the method is of the handler
  -- that was given, and an authenticated call of the name, whatever was registered under it before,
  -- with parameters that bind to the handler's signature, calls that method once, on those
  -- parameters, and answers by its outcome; with parameters that do not bind it calls nothing and
  -- answers that they are invalid. A call of any other name but "listall" comes to what it came to
  -- before.
  pub register-dispatch :
      (h : Handler) (name : Option String) (requires_auth : Bool) (r r' : RpcRegistry)
      (m : RpcMethod) (k : String) (params : Dict J) (authenticated : Bool)
      → register h name requires_auth r ≡ some (r', m)
      → str_eq m.name "listall" ≡ false
      → str_eq k "listall" ≡ false
      → str_eq m.name k ≡ false
      → (m.handler ≡ h.handler_id)
        × (dispatch is_formatted signature run m.name params true r'
            ≡ elim (validate_params is_formatted signature run (signature h.handler_id) params) [
              | none ↦ record { reply = some (invalid m.name); calls = [] }
              | some bound ↦ record {
                reply = told is_formatted m.name (run m bound);
                calls = (m, bound) ∷ [];
              }
            ])
        × (dispatch is_formatted signature run k params authenticated r'
            ≡ dispatch is_formatted signature run k params authenticated r)
  register-dispatch h name requires_auth r r' m k params authenticated e l l' ne =
      let put = register-insert h name requires_auth r r' m e in
      let own : get m.name r' ≡ some m = rw (put.0) (lookup-insert_self m.name m r) in
      let other : get k r' ≡ get k r =
        rw (put.0) (lookup-insert m.name k m r ∙ ground (arith, ne)) in
      (
        put.3,
        dispatch-found m.name params true r' m l own (ground arith)
            ∙ execute-told m.name m
                (validate_params is_formatted signature run (signature m.handler) params)
            ∙ ap
                (λ n.
                  result m.name m (validate_params is_formatted signature run (signature n) params))
                put.3,
        dispatch-get k params authenticated r' r l' other,
      )
