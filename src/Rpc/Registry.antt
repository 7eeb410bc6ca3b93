-- ===== src/Rpc/Registry.antt =====
-- conduit/rpc/registry.py: `RPCRegistry`. A handler is what `inspect` and `typing` tell of it.
use net_conduit.Base.{
  ℕ, Bool, true, false, Option, none, some, List, [], ◌∷◌, String, str_eq, if◌then◌else◌, map,
}
use net_conduit.Base.Dict.{Dict, lookup, contains, insert, erase, keys, values}

-- A type hint: a Pydantic model, with the names of its fields and of their types, or another type,
-- by its name.
pub data Hint : Type 0 where
  model : (model_name : String) (fields : Dict String) → Hint
  plain : String → Hint

-- `hints` is none where get_type_hints raises.
pub record Handler : Type 0 where
  pub handler_id : ℕ
  pub function_name : String
  pub doc : Option String
  pub hints : Option (Dict Hint)

pub record RpcMethod : Type 0 where
  pub name : String
  pub handler : ℕ
  pub description : String
  pub parameters : Dict String
  pub return_type : String
  pub requires_auth : Bool
  pub pydantic_model : Option String

pub record MethodInfo : Type 0 where
  pub name : String
  pub description : String
  pub parameters : Dict String
  pub return_type : String
  pub requires_auth : Bool

abbrev pub to_info_dict : RpcMethod → MethodInfo
to_info_dict m = record {
  name = m.name;
  description = m.description;
  parameters = m.parameters;
  return_type = m.return_type;
  requires_auth = m.requires_auth;
}

abbrev pub RpcRegistry : Type 0
RpcRegistry = Dict RpcMethod

-- `name or handler.__name__`: the empty text counts as none
abbrev pub method_name : Option String → Handler → String
method_name none h = h.function_name
method_name (some name) h = if str_eq name "" then h.function_name else name

abbrev doc_or_empty : Option String → String
doc_or_empty none = ""
doc_or_empty (some doc) = doc

-- parameters[field_name] = type_name, for the fields of a model
abbrev pub add_fields : Dict String → Dict String → Dict String
add_fields [] parameters = parameters
add_fields ((name, type_name) ∷ fields) parameters =
    add_fields fields (insert name type_name parameters)

abbrev hint_name : Hint → String
hint_name (model name fields) = name
hint_name (plain name) = name

-- One hint but that of the return type: the parameters, and the last model that was seen.
abbrev pub with_hint : String → Hint → Dict String × Option String → Dict String × Option String
with_hint name (model model_name fields) (parameters, seen) =
    (add_fields fields parameters, some model_name)
with_hint name (plain type_name) (parameters, seen) = (insert name type_name parameters, seen)

unfoldable pub read_hints : Dict Hint → Dict String × Option String → Dict String × Option String
read_hints [] found = found
read_hints ((name, hint) ∷ rest) found =
    if str_eq name "return"
    then read_hints rest found
    else read_hints rest (with_hint name hint found)

abbrev return_name : Option Hint → String
return_name none = "Any"
return_name (some hint) = hint_name hint

-- `register`: none is UnboundLocalError, since `return_type` is assigned where the hints are read.
unfoldable pub register :
    Handler → Option String → Bool → RpcRegistry → Option (RpcRegistry × RpcMethod)
unfolding read_hints
register h name requires_auth r = elim h.hints [
  | none ↦ none
  | some hints ↦
      let found = read_hints hints ([], none) in
      let method : RpcMethod = record {
        name = method_name name h;
        handler = h.handler_id;
        description = doc_or_empty h.doc;
        parameters = found.0;
        return_type = return_name (lookup "return" hints);
        requires_auth = requires_auth;
        pydantic_model = found.1;
      } in
      some (insert (method_name name h) method r, method)
]

unfoldable pub unregister : String → RpcRegistry → RpcRegistry × Bool
unregister name r = if contains name r then (erase name r, true) else (r, false)

abbrev pub get : String → RpcRegistry → Option RpcMethod
get name r = lookup name r

abbrev pub exists : String → RpcRegistry → Bool
exists name r = contains name r

abbrev pub list_methods : RpcRegistry → List RpcMethod
list_methods r = values r

abbrev pub list_method_names : RpcRegistry → List String
list_method_names r = keys r

abbrev pub get_method_info : RpcRegistry → List MethodInfo
get_method_info r = map to_info_dict (values r)

abbrev pub clear : RpcRegistry → RpcRegistry
clear r = []
