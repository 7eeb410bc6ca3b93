-- ===== src/Messages/Router/Examples.antt =====
-- Routing with handlers of several priorities and requirements.
use net_conduit.Base.{
  ℕ, ◌≡◌, refl, ◌≢◌, Bool, true, false, not, none, some, List, [], ◌∷◌, ◌==◌, if◌then◌else◌,
  keep_if, All, arith,
}
use net_conduit.Base.Dict.{insert, lookup}
use net_conduit.Base.Int.{ℤ, pos, negsuc}
use net_conduit.Messages.Router.{
  RegisteredHandler, MessageRouter, new_router, handlers_of, sort, register, chosen, refused, route,
  Reply, responded, raised, cancelled,
}
use net_conduit.Messages.Router.Order.{IsSorted, with_priority, register_all, register_all-order}
use net_conduit.Messages.Router.Auth.{answers, route-Open, route-eq}

abbrev chat : ℕ → Bool → ℤ → RegisteredHandler
chat n auth p = record { message_type = "chat"; handler = n; requires_auth = auth; priority = p }

abbrev log_all : RegisteredHandler
log_all = record { message_type = "log"; handler = 9; requires_auth = false; priority = pos 0 }

abbrev some_handlers : List RegisteredHandler
some_handlers =
    chat 1 true (pos 0)
    ∷ chat 2 false (pos 5)
    ∷ log_all
    ∷ chat 3 false (pos 0)
    ∷ chat 4 false (negsuc 0)
    ∷ chat 5 true (pos 5)
    ∷ []

abbrev router : MessageRouter
router = record {
  handlers =
      (
        "chat",
        chat 2 false (pos 5)
            ∷ chat 5 true (pos 5)
            ∷ chat 1 true (pos 0)
            ∷ chat 3 false (pos 0)
            ∷ chat 4 false (negsuc 0)
            ∷ [],
      )
      ∷ ("log", log_all ∷ [])
      ∷ [];
  default_handler = none;
  error_handler = none;
}

router_is : register_all some_handlers new_router ≡ router
unfolding register_all register insert sort lookup
router_is = refl

register_all-order_example :
    IsSorted (handlers_of "chat" (register_all some_handlers new_router))
    × (with_priority (pos 5) (handlers_of "chat" (register_all some_handlers new_router))
        ≡ chat 2 false (pos 5) ∷ chat 5 true (pos 5) ∷ [])
unfolding handlers_of lookup
register_all-order_example = register_all-order some_handlers (pos 5) "chat" new_router tt

-- Handler 3 raises, and the others respond with their number.
abbrev replies : ℕ → ℕ → Reply ℕ
replies k i = if i == 3 then raised else responded i

replies-ne-cancelled : (k i : ℕ) → replies k i ≢ cancelled
replies-ne-cancelled k i e = ground arith

route-Open_example : All (λ h. h.requires_auth ≡ false) (route replies "chat" false router).called
route-Open_example = route-Open replies "chat" router

route-eq_example :
    let hs = keep_if (λ h. not (refused false h)) (chosen "chat" router) in
    ((route replies "chat" false router).called ≡ hs)
    × ((route replies "chat" false router).result ≡ answers replies 0 hs none)
    × ((route replies "chat" false router).is_cancelled ≡ false)
route-eq_example = route-eq replies "chat" false router replies-ne-cancelled

-- Handlers 2, 3 and 4 are called, and the last response is that of 4.
route_result : (route replies "chat" false router).result ≡ some 4
unfolding route lookup
route_result = refl
