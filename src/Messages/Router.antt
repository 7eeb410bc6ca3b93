-- ===== src/Messages/Router.antt =====
-- conduit/messages/router.py: `MessageRouter`. A handler is named by a number; what a call of it does
-- is an argument of `route`: for each call, by its place among the calls and the handler's name, the
-- response, an exception, or asyncio.CancelledError.
pub mod Order
pub mod Auth
pub mod Examples
use net_conduit.Base.{
  ℕ, suc, ◌+◌, String, Bool, true, false, not, ◌&&◌, ◌||◌, Option, none, some, List, [], ◌∷◌, ◌++◌,
  ltb, ◌==◌, if◌then◌else◌, length, is_some,
}
use net_conduit.Base.Int.{ℤ, pos, leb_ℤ}
use net_conduit.Base.Dict.{Dict, lookup, contains, insert, erase, keys}

pub record RegisteredHandler : Type 0 where
  pub message_type : String
  pub handler : ℕ
  pub requires_auth : Bool
  pub priority : ℤ

pub record MessageRouter : Type 0 where
  pub handlers : Dict (List RegisteredHandler)
  pub default_handler : Option ℕ
  pub error_handler : Option ℕ

abbrev pub new_router : MessageRouter
new_router = record { handlers = []; default_handler = none; error_handler = none }

-- list.sort(key=lambda h: -h.priority): a stable sort, the highest priority first
unfoldable pub sort_in : RegisteredHandler → List RegisteredHandler → List RegisteredHandler
sort_in h [] = h ∷ []
sort_in h (x ∷ xs) = if leb_ℤ x.priority h.priority then h ∷ x ∷ xs else x ∷ sort_in h xs

unfoldable pub sort : List RegisteredHandler → List RegisteredHandler
unfolding sort_in
sort [] = []
sort (h ∷ hs) = sort_in h (sort hs)

-- self._handlers.get(message_type, [])
abbrev or_empty : Option (List RegisteredHandler) → List RegisteredHandler
or_empty none = []
or_empty (some hs) = hs

unfoldable pub handlers_of : String → MessageRouter → List RegisteredHandler
handlers_of t r = or_empty (lookup t r.handlers)

unfoldable pub register : RegisteredHandler → MessageRouter → MessageRouter
unfolding handlers_of
register h r = record r {
  handlers = insert h.message_type (sort (handlers_of h.message_type r ++ h ∷ [])) r.handlers;
}

unfoldable pub unregister : String → MessageRouter → MessageRouter × Bool
unregister t r =
    if contains t r.handlers then (record r { handlers = erase t r.handlers }, true) else (r, false)

unfoldable pub set_default_handler : ℕ → MessageRouter → MessageRouter
set_default_handler h r = record r { default_handler = some h }

unfoldable pub set_error_handler : ℕ → MessageRouter → MessageRouter
set_error_handler h r = record r { error_handler = some h }

unfoldable pub has_handler : String → MessageRouter → Bool
unfolding handlers_of
has_handler t r = contains t r.handlers && ltb 0 (length (handlers_of t r))

unfoldable pub list_types : MessageRouter → List String
list_types r = keys r.handlers

-- The error handler is kept.
unfoldable pub clear : MessageRouter → MessageRouter
clear r = record r { handlers = []; default_handler = none }

-- What a call of a handler comes to.
pub data Reply (R : Type 0) : Type 0 where
  responded : R → Reply R
  raised cancelled : Reply R

-- What `route` has done: the handlers that it called, in order, those whose exception went to the
-- error handler, the result so far, and whether CancelledError left it.
pub record Routed (R : Type 0) : Type 0 where
  pub called : List RegisteredHandler
  pub reported : List RegisteredHandler
  pub result : Option R
  pub is_cancelled : Bool

-- The handlers for a message: those of its type, or else the default handler with no requirement.
unfoldable pub chosen : String → MessageRouter → List RegisteredHandler
unfolding handlers_of
chosen t r = elim (handlers_of t r) [
  | h ∷ hs ↦ h ∷ hs
  | [] ↦ elim r.default_handler [
    | none ↦ []
    | some d ↦
        record { message_type = t; handler = d; requires_auth = false; priority = pos 0 } ∷ []
  ]
]

abbrev pub refused : Bool → RegisteredHandler → Bool
refused authenticated h = h.requires_auth && not authenticated

module _ {R : Type 0} (authenticated : Bool) (reports : Bool) (run : ℕ → ℕ → Reply R) where
  -- One handler; `none` where the loop is left.
  abbrev pub note : RegisteredHandler → Reply R → Routed R → Routed R
  note h (responded x) s = record s { called = s.called ++ h ∷ []; result = some x }
  note h raised s = record s {
    called = s.called ++ h ∷ [];
    reported = if reports then s.reported ++ h ∷ [] else s.reported;
  }
  note h cancelled s = record s { called = s.called ++ h ∷ []; is_cancelled = true }

  unfoldable pub route_loop : List RegisteredHandler → Routed R → Routed R
  route_loop [] s = s
  route_loop (h ∷ hs) s =
      let s' = if refused authenticated h then s else note h (run (length s.called) h.handler) s in
      let rest = route_loop hs s' in if s'.is_cancelled then s' else rest

unfoldable pub route : {R : Type 0} → (ℕ → ℕ → Reply R) → String → Bool → MessageRouter → Routed R
unfolding route_loop chosen
route run t authenticated r =
    route_loop authenticated (is_some r.error_handler) run (chosen t r)
      (record { called = []; reported = []; result = none; is_cancelled = false })
