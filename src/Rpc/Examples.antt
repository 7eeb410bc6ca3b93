-- ===== src/Rpc/Examples.antt =====
-- The theorems on RPCs at concrete inputs.
use net_conduit.Base.{
  ℕ, ◌≡◌, refl, String, Option, Bool, true, false, none, some, List, [], ◌∷◌, All,
}
use net_conduit.Base.Dict.{Dict, lookup, insert}
use net_conduit.Rpc.Registry.{Handler, RpcMethod, RpcRegistry, plain, read_hints, register}
use net_conduit.Rpc.Dispatcher.{
  Param, invalid, Outcome, returned, Request, dispatch, dispatch_batch, validate_params,
}
use net_conduit.Rpc.Safety.{IsOpen, dispatch_batch-IsOpen}
use net_conduit.Response.{PyValue, null, boolean, string, object, Fields, empty, field, get}
use net_conduit.Rpc.Path
use net_conduit.Rpc.Path.{Called, rpc_error, rpc_result, rpc_result-plain, rpc_result-emptied}
use net_conduit.Rpc.Registration.{told, register-dispatch}

-- A handler `add` of two numbers, which needs authentication, and what a call of it gives.
abbrev add_handler : Handler
add_handler = record {
  handler_id = 1;
  function_name = "add";
  doc = none;
  hints = some (("a", plain "int") ∷ ("b", plain "int") ∷ ("return", plain "int") ∷ []);
}

abbrev add_method : RpcMethod
add_method = record {
  name = "add";
  handler = 1;
  description = "";
  parameters = ("a", "int") ∷ ("b", "int") ∷ [];
  return_type = "int";
  requires_auth = true;
  pydantic_model = none;
}

abbrev one_method : RpcRegistry
one_method = ("add", add_method) ∷ []

abbrev no_format : ℕ → Bool
no_format n = false

abbrev two_numbers : List (Param ℕ)
two_numbers =
    record { name = "a"; annotation = none; has_default = false }
    ∷ record { name = "b"; annotation = none; has_default = true }
    ∷ []

abbrev signature : ℕ → List (Param ℕ)
signature n = two_numbers

abbrev run_five : RpcMethod → Dict ℕ → Outcome ℕ
run_five m d = returned 5

abbrev some_params : Dict ℕ
some_params = ("a", 2) ∷ ("x", 9) ∷ []

abbrev a_batch : List (Request ℕ)
a_batch =
    record { method = some "add"; params = some some_params }
    ∷ record { method = none; params = none }
    ∷ []

dispatch_batch-IsOpen_example :
    All
      (IsOpen no_format signature run_five)
      (dispatch_batch no_format signature run_five a_batch false one_method).calls
dispatch_batch-IsOpen_example =
    dispatch_batch-IsOpen no_format signature run_five a_batch one_method

register-dispatch_example :
    (add_method.handler ≡ add_handler.handler_id)
    × (dispatch no_format signature run_five add_method.name some_params true one_method
        ≡ elim (validate_params no_format signature run_five
            (signature add_handler.handler_id)
            some_params) [
              | none ↦ record { reply = some (invalid "add"); calls = [] }
              | some bound ↦ record {
                reply = told no_format "add" (run_five add_method bound);
                calls = (add_method, bound) ∷ [];
              }
            ])
    × (dispatch no_format signature run_five "other" some_params false one_method
        ≡ dispatch no_format signature run_five "other" some_params false [])
unfolding register read_hints insert lookup
register-dispatch_example =
    register-dispatch no_format signature run_five add_handler none true [] one_method add_method
      "other" some_params false refl refl refl refl

-- A wire that carries every value, and one way to print values.
abbrev whole : PyValue → Option PyValue
whole v = some v

abbrev shown : PyValue → String
shown v = "?"

rpc_result-plain_example : rpc_result shown whole (string "hi") ≡ some (Path.returned (string "hi"))
rpc_result-plain_example = rpc_result-plain shown whole (string "hi") refl refl

-- {"success": True, "user": "ann"}
abbrev no_data : Fields
no_data = field "success" (boolean true) (field "user" (string "ann") empty)

rpc_result-emptied_example : rpc_result shown whole (object no_data) ≡ some (Path.returned null)
unfolding get
rpc_result-emptied_example =
    rpc_result-emptied shown whole no_data (boolean true) refl refl refl refl refl
