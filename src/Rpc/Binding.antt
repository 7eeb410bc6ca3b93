-- ===== src/Rpc/Binding.antt =====
-- Which arguments reach a handler.
use net_conduit.Base.{
  ℕ, ◌≡◌, refl, Bool, true, false, not, ◌&&◌, ◌||◌, Option, none, some, List, [], ◌∷◌, String,
  arith, str_eq, if◌then◌else◌, eq_iff, Option-cases, inl, inr, is_some,
}
use net_conduit.Base.Dict.{Dict, lookup, contains}
use net_conduit.Rpc.Registry.{RpcMethod}
use net_conduit.Rpc.Dispatcher.{Param, Outcome, bind_each, bind_to, validate_params, pick}

module _ {ℓ} {J : Type ℓ} (is_formatted : J → Bool) (signature : ℕ → List (Param J))
    (run : RpcMethod → Dict J → Outcome J) where
  -- A parameter of the signature has the name.
  abbrev pub is_named : String → List (Param J) → Bool
  is_named k [] = false
  is_named k (p ∷ ps) = str_eq p.name k || is_named k ps

  abbrev pub has_key : String → Option (Dict J) → Bool
  has_key k none = false
  has_key k (some d) = contains k d

  has_key-bind_to :
      (k name : String) (x : Option J) (rest : Option (Dict J))
      → has_key k (bind_to is_formatted signature run name x rest) ≡ true
      → (str_eq name k || has_key k rest) ≡ true
  unfolding contains
  has_key-bind_to k name none rest h = ground arith
  has_key-bind_to k name (some x) none h = ground arith
  has_key-bind_to k name (some x) (some d) h = ground arith

  bind_each-names :
      (k : String) (ps : List (Param J)) (params : Dict J)
      → has_key k (bind_each is_formatted signature run ps params) ≡ true
      → is_named k ps ≡ true
  unfolding bind_each contains
  bind_each-names k [] params h = h
  bind_each-names k (p ∷ ps) params h =
      let ih = bind_each-names k ps params in
      let rest = bind_each is_formatted signature run ps params in
      elim (Option-cases p.annotation) [
        | inr (m, e) ↦
            let bound =
              has_key-bind_to k p.name (m.build (pick is_formatted signature run m.fields params))
                rest in
            ground (arith, e, h, bound, ih)
        | inl e ↦ elim (Option-cases (lookup p.name params)) [
          | inl f ↦ ground (arith, e, f, h, ih)
          | inr (x, f) ↦
              let bound = has_key-bind_to k p.name (some x) rest in
              ground (arith, e, f, h, bound, ih)
        ]
      ]

  -- Every key that `_validate_params` hands to a handler is the name of one of the handler's
  -- parameters, whatever the caller sent and whatever the models make of it.
  validate_params-names :
      (k : String) (ps : List (Param J)) (params : Dict J)
      → has_key k (validate_params is_formatted signature run ps params) ≡ true
      → is_named k ps ≡ true
  unfolding validate_params contains
  validate_params-names k [] params h = bind_each-names k [] params h
  validate_params-names k (p ∷ []) params h = elim (Option-cases p.annotation) [
    | inl e ↦ bind_each-names k (p ∷ []) params (ground (arith, e, h))
    | inr (m, e) ↦
        let bound = has_key-bind_to k p.name (m.build params) (some []) in
        ground (arith, e, h, bound)
  ]
  validate_params-names k (p ∷ q ∷ ps) params h = bind_each-names k (p ∷ q ∷ ps) params h

  -- No parameter of the signature is a model.
  abbrev pub all_plain : List (Param J) → Bool
  all_plain [] = true
  all_plain (p ∷ ps) = not (is_some p.annotation) && all_plain ps

  abbrev pub value_in : String → Option (Dict J) → Option J
  value_in k none = none
  value_in k (some d) = lookup k d

  bind_each-plain :
      (k : String) (ps : List (Param J)) (params : Dict J)
      → all_plain ps ≡ true
      → (is_some (bind_each is_formatted signature run ps params) ≡ true)
        × (value_in k (bind_each is_formatted signature run ps params)
            ≡ (if is_named k ps then lookup k params else none))
  unfolding bind_each lookup
  bind_each-plain k [] params h = (refl, refl)
  bind_each-plain k (p ∷ ps) params h =
      let ih = bind_each-plain k ps params in
      elim (Option-cases p.annotation) [
        | inr (m, e) ↦ ground (arith, e, h)
        | inl e ↦ elim (Option-cases (lookup p.name params)) [
          | inl f ↦ ground (arith, e, f, h, ih, eq_iff p.name k)
          | inr (x, f) ↦ elim (Option-cases (bind_each is_formatted signature run ps params)) [
            | inl g ↦ ground (arith, e, f, g, h, ih)
            | inr (d, g) ↦ ground (arith, e, f, g, h, ih, eq_iff p.name k)
          ]
        ]
      ]

  -- For a handler without models, validation never fails, and what the handler gets under a name is
  -- what the caller sent where the name is that of a parameter, and nothing where it is not.
  validate_params-plain :
      (k : String) (ps : List (Param J)) (params : Dict J)
      → all_plain ps ≡ true
      → (is_some (validate_params is_formatted signature run ps params) ≡ true)
        × (value_in k (validate_params is_formatted signature run ps params)
            ≡ (if is_named k ps then lookup k params else none))
  unfolding validate_params
  validate_params-plain k [] params h = bind_each-plain k [] params h
  validate_params-plain k (p ∷ []) params h = elim (Option-cases p.annotation) [
    | inl e ↦ ground (arith, e, bind_each-plain k (p ∷ []) params h)
    | inr (m, e) ↦ ground (arith, e, h)
  ]
  validate_params-plain k (p ∷ q ∷ ps) params h = bind_each-plain k (p ∷ q ∷ ps) params h
