-- ===== src/Response.antt =====
-- conduit/response/response.py and error.py: the dicts that `Response` and `Error` make. `PyValue` is
-- a Python value as RPCs carry them; a Pydantic model or an object with a `__dict__` is dumped before,
-- by the caller.
pub mod Pages
use Prim.Native.String.{◌++◌ as append_text}
use net_conduit.Base.{
  ℕ, ◌+◌, ◌-◌, ◌*◌, ◌/◌, Bool, true, false, not, ◌&&◌, Option, none, some, List, [], ◌∷◌, String,
  str_eq, ltb, ◌==◌, if◌then◌else◌, is_some,
}

mutual
  pub data PyValue : Type 0 where
    null : PyValue
    boolean : Bool → PyValue
    number : ℕ → PyValue
    string : String → PyValue
    raw_bytes : List ℕ → PyValue
    array : Items → PyValue
    object : Fields → PyValue

  pub data Items : Type 0 where
    nil : Items
    cons : PyValue → Items → Items

  -- a dict, in insertion order
  pub data Fields : Type 0 where
    empty : Fields
    field : String → PyValue → Fields → Fields

-- d.get(k)
unfoldable pub get : String → Fields → Option PyValue
get k empty = none
get k (field j v d) = if str_eq j k then some v else get k d

-- d.get(k, default)
abbrev pub get_or : String → PyValue → Fields → PyValue
get_or k default d = elim (get k d) [ none ↦ default | some v ↦ v ]

abbrev pub has_key : String → Fields → Bool
has_key k d = is_some (get k d)

-- bool(v)
abbrev pub is_truthy : PyValue → Bool
is_truthy null = false
is_truthy (boolean b) = b
is_truthy (number n) = not (n == 0)
is_truthy (string s) = not (str_eq s "")
is_truthy (raw_bytes []) = false
is_truthy (raw_bytes (b ∷ bs)) = true
is_truthy (array nil) = false
is_truthy (array (cons v vs)) = true
is_truthy (object empty) = false
is_truthy (object (field k v d)) = true

-- isinstance(v, dict) and k in v
abbrev pub is_dict_with : String → PyValue → Bool
is_dict_with k (object d) = has_key k d
is_dict_with k _ = false

-- Fields at the end of a dict.
unfoldable pub and_fields : Fields → Fields → Fields
and_fields empty e = e
and_fields (field k v d) e = field k v (and_fields d e)

-- A field that is set where the value is truthy.
abbrev pub when_truthy : String → PyValue → Fields
when_truthy k v = if is_truthy v then field k v empty else empty

-- Response.__call__; an argument that is not given is null
unfoldable pub response : PyValue → PyValue → Fields
response content metadata =
    field "success" (boolean true) (field "data" content (when_truthy "metadata" metadata))

abbrev pub unless_null : String → PyValue → Fields
unless_null k null = empty
unless_null k v = field k v empty

unfoldable pub ok : PyValue → String → Fields
unfolding and_fields
ok content message =
    field "success" (boolean true)
      (and_fields (unless_null "data" content) (when_truthy "message" (string message)))

-- with_pagination; none is ZeroDivisionError
unfoldable pub total_pages : ℕ → ℕ → Option ℕ
total_pages total page_size =
    if page_size == 0 then none else some ((total + page_size - 1) / page_size)

abbrev pub pagination : ℕ → ℕ → ℕ → ℕ → Fields
pagination total page page_size pages = field "total" (number total) (
    field "page" (number page) (
      field "page_size" (number page_size) (
        field "total_pages" (number pages) (
          field "has_next" (boolean (ltb (page * page_size) total))
            (field "has_prev" (boolean (ltb 1 page)) empty)))))

unfoldable pub with_pagination : PyValue → ℕ → ℕ → ℕ → Option Fields
unfolding total_pages
with_pagination content total page page_size = elim (total_pages total page_size) [
  | none ↦ none
  | some pages ↦ some (
      field "success" (boolean true) (
        field "data" content
          (field "pagination" (object (pagination total page page_size pages)) empty)))
]

-- ErrorCode
abbrev pub validation_code : ℕ
validation_code = 2000

abbrev pub method_not_found_code : ℕ
method_not_found_code = 4000

abbrev pub permission_denied_code : ℕ
permission_denied_code = 3003

abbrev pub internal_code : ℕ
internal_code = 1001

abbrev pub timeout_code : ℕ
timeout_code = 1002

abbrev pub rate_limited_code : ℕ
rate_limited_code = 6000

-- Error.__call__; `code` none and `details` null are arguments that are not given
unfoldable pub error : String → Option ℕ → PyValue → Fields
unfolding and_fields
error message code details = field "success" (boolean false) (
    field "error" (string message) (
      and_fields (elim code [ none ↦ empty | some c ↦ field "code" (number c) empty ])
        (when_truthy "details" details)))

-- `received` is str(received), where it is given
unfoldable pub validation : String → String → String → Option String → Fields
unfolding error and_fields
validation message in_field expected received = error message (some validation_code) (
    object (
      and_fields (when_truthy "field" (string in_field)) (
        and_fields (when_truthy "expected" (string expected))
          (elim received [ none ↦ empty | some r ↦ field "received" (string r) empty ]))))

-- `identifier` is its text; the empty one counts as none
unfoldable pub not_found : String → String → Fields
unfolding error
not_found resource identifier =
    error
      (if str_eq identifier ""
        then append_text resource " not found"
        else append_text resource (append_text " not found: " identifier))
      (some method_not_found_code) null

-- A message with what it is about, where that is not empty.
abbrev pub about : String → String → String
about message subject =
    if str_eq subject "" then message else append_text message (append_text ": " subject)

unfoldable pub permission_denied : String → Fields
unfolding error
permission_denied action =
    error (about "Permission denied" action) (some permission_denied_code) null

unfoldable pub internal : String → Fields
unfolding error
internal message = error message (some internal_code) null

unfoldable pub timeout : String → Fields
unfolding error
timeout operation = error (about "Operation timed out" operation) (some timeout_code) null

unfoldable pub rate_limited : ℕ → Fields
unfolding error
rate_limited retry_after =
    error "Rate limit exceeded" (some rate_limited_code)
      (if retry_after == 0 then null else object (field "retry_after" (number retry_after) empty))
