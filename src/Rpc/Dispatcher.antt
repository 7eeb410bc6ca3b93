-- ===== src/Rpc/Dispatcher.antt =====
-- conduit/rpc/dispatcher.py: `RPCDispatcher`. `J` is the type of the values that RPCs carry. What a
-- Pydantic model makes of its fields, and what the call of a handler comes to, are parameters; the
-- calls of handlers are recorded.
use net_conduit.Base.{
  ℕ, Bool, not, ◌&&◌, Option, none, some, List, [], ◌∷◌, ◌++◌, String, str_eq, if◌then◌else◌,
  length,
}
use net_conduit.Base.Dict.{Dict, lookup}
use net_conduit.Rpc.Registry.{RpcMethod, RpcRegistry, MethodInfo, get, get_method_info}

-- `build` is the model's constructor on keyword arguments; none is ValidationError.
pub record Model {ℓ} (J : Type ℓ) : Type ℓ where
  pub fields : List String
  pub build : Dict J → Option J

-- A parameter of a handler's signature.
pub record Param {ℓ} (J : Type ℓ) : Type ℓ where
  pub name : String
  pub annotation : Option (Model J)
  pub has_default : Bool

-- What the execution of a handler comes to.
pub data Outcome {ℓ} (J : Type ℓ) : Type ℓ where
  returned : J → Outcome J
  validation_error type_error cancelled other_error : Outcome J

-- The responses: a handler's own, a wrapped result, the listing of the methods with their number, and
-- the errors.
pub data Reply {ℓ} (J : Type ℓ) : Type ℓ where
  formatted wrapped : J → Reply J
  listing : List MethodInfo → ℕ → Reply J
  not_found permission_denied invalid internal : String → Reply J
  bad_type : Reply J

-- The code of an error response.
abbrev pub code_of {ℓ} : {J : Type ℓ} → Reply J → Option ℕ
code_of (formatted x) = none
code_of (wrapped x) = none
code_of (listing ms n) = none
code_of (not_found m) = some 4000
code_of (permission_denied m) = some 3003
code_of (invalid m) = some 2000
code_of (internal m) = some 1001
code_of bad_type = some 2000

-- A response, or asyncio.CancelledError, with the calls of handlers that were made.
pub record Dispatched {ℓ} (J R : Type ℓ) : Type ℓ where
  pub reply : Option R
  pub calls : List (RpcMethod × Dict J)

pub record Request {ℓ} (J : Type ℓ) : Type ℓ where
  pub method : Option String
  pub params : Option (Dict J)

module _ {ℓ} {J : Type ℓ} (is_formatted : J → Bool) (signature : ℕ → List (Param J))
    (run : RpcMethod → Dict J → Outcome J) where
  -- The fields of a model that the parameters have.
  abbrev pub pick : List String → Dict J → Dict J
  pick [] params = []
  pick (name ∷ names) params = elim (lookup name params) [
    | none ↦ pick names params
    | some x ↦ (name, x) ∷ pick names params
  ]

  -- validated[name] = value; the names of a signature differ
  abbrev pub bind_to : String → Option J → Option (Dict J) → Option (Dict J)
  bind_to name none rest = none
  bind_to name (some x) none = none
  bind_to name (some x) (some d) = some ((name, x) ∷ d)

  -- the parameters of the signature one by one; none is ValidationError
  unfoldable pub bind_each : List (Param J) → Dict J → Option (Dict J)
  bind_each [] params = some []
  bind_each (p ∷ ps) params =
      let rest = bind_each ps params in
      elim p.annotation [
        | some m ↦ bind_to p.name (m.build (pick m.fields params)) rest
        | none ↦ elim (lookup p.name params) [ some x ↦ bind_to p.name (some x) rest | none ↦ rest ]
      ]

  -- a handler of one model takes all the parameters
  unfoldable pub validate_params : List (Param J) → Dict J → Option (Dict J)
  unfolding bind_each
  validate_params [] params = bind_each [] params
  validate_params (p ∷ []) params = elim p.annotation [
    | some m ↦ bind_to p.name (m.build params) (some [])
    | none ↦ bind_each (p ∷ []) params
  ]
  validate_params (p ∷ q ∷ ps) params = bind_each (p ∷ q ∷ ps) params

  abbrev pub wrap : J → Reply J
  wrap x = if is_formatted x then formatted x else wrapped x

  abbrev pub reply_to : String → Outcome J → Option (Reply J)
  reply_to method (returned x) = some (wrap x)
  reply_to method validation_error = some (invalid method)
  reply_to method type_error = some bad_type
  reply_to method cancelled = none
  reply_to method other_error = some (internal method)

  abbrev pub execute : String → RpcMethod → Option (Dict J) → Dispatched J (Reply J)
  execute method m none = record { reply = some (invalid method); calls = [] }
  execute method m (some validated) = record {
    reply = reply_to method (run m validated);
    calls = (m, validated) ∷ [];
  }

  unfoldable pub dispatch : String → Dict J → Bool → RpcRegistry → Dispatched J (Reply J)
  dispatch method params authenticated r =
      if str_eq method "listall"
      then record {
        reply = some (listing (get_method_info r) (length (get_method_info r)));
        calls = [];
      }
      else elim (get method r) [
        | none ↦ record { reply = some (not_found method); calls = [] }
        | some m ↦
            if m.requires_auth && not authenticated
            then record { reply = some (permission_denied method); calls = [] }
            else execute method m (validate_params (signature m.handler) params)
      ]

  abbrev pub method_or_empty : Option String → String
  method_or_empty none = ""
  method_or_empty (some m) = m

  abbrev pub params_or_empty : Option (Dict J) → Dict J
  params_or_empty none = []
  params_or_empty (some d) = d

  abbrev pub dispatch_request : Bool → RpcRegistry → Request J → Dispatched J (Reply J)
  dispatch_request authenticated r q =
      dispatch (method_or_empty q.method) (params_or_empty q.params) authenticated r

  -- A batch: a cancellation leaves the loop, and with it the responses before.
  abbrev pub and_then :
      Dispatched J (Reply J) → Dispatched J (List (Reply J)) → Dispatched J (List (Reply J))
  and_then one rest = elim one.reply [
    | none ↦ record { reply = none; calls = one.calls }
    | some x ↦ record {
      reply = elim rest.reply [ none ↦ none | some xs ↦ some (x ∷ xs) ];
      calls = one.calls ++ rest.calls;
    }
  ]

  unfoldable pub dispatch_batch :
      List (Request J) → Bool → RpcRegistry → Dispatched J (List (Reply J))
  unfolding dispatch
  dispatch_batch [] authenticated r = record { reply = some []; calls = [] }
  dispatch_batch (q ∷ qs) authenticated r =
      and_then (dispatch_request authenticated r q) (dispatch_batch qs authenticated r)
