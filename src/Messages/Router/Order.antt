-- ===== src/Messages/Router/Order.antt =====
-- The order in which `MessageRouter` keeps the handlers of a type.
use mathlib.Core.List.{append-nil, append_assoc}
use net_conduit.Base.{
  ◌≡◌, refl, ap, sym, ◌∙◌, Bool, true, String, List, [], ◌∷◌, ◌++◌, arith, eq_iff, str_eq,
  if◌then◌else◌, keep_if,
}
use net_conduit.Base.Int.{ℤ, leb_ℤ, eq_ℤ}
use net_conduit.Base.Dict.{lookup-insert}
use net_conduit.Messages.Router.{
  RegisteredHandler, MessageRouter, sort_in, sort, handlers_of, register,
}

-- The highest priority stands first.
abbrev pub IsSorted : List RegisteredHandler → Type 0
IsSorted [] = Unit
IsSorted (h ∷ []) = Unit
IsSorted (h ∷ x ∷ xs) = (leb_ℤ x.priority h.priority ≡ true) × IsSorted (x ∷ xs)

abbrev pub with_priority : ℤ → List RegisteredHandler → List RegisteredHandler
with_priority p hs = keep_if (λ h. eq_ℤ h.priority p) hs

sort_in-IsSorted :
    (h : RegisteredHandler) (hs : List RegisteredHandler) → IsSorted hs → IsSorted (sort_in h hs)
unfolding sort_in
sort_in-IsSorted h [] s = tt
sort_in-IsSorted h (x ∷ []) s = ground arith
sort_in-IsSorted h (x ∷ y ∷ ys) s = ground (arith, sort_in-IsSorted h (y ∷ ys) s.1)

sort-IsSorted : (hs : List RegisteredHandler) → IsSorted (sort hs)
unfolding sort
sort-IsSorted [] = tt
sort-IsSorted (h ∷ hs) = sort_in-IsSorted h (sort hs) (sort-IsSorted hs)

with_priority-sort_in :
    (p : ℤ) (h : RegisteredHandler) (hs : List RegisteredHandler)
    → with_priority p (sort_in h hs) ≡ with_priority p (h ∷ hs)
unfolding sort_in
with_priority-sort_in p h [] = refl
with_priority-sort_in p h (x ∷ xs) = ground (arith, with_priority-sort_in p h xs)

with_priority-sort :
    (p : ℤ) (hs : List RegisteredHandler) → with_priority p (sort hs) ≡ with_priority p hs
unfolding sort
with_priority-sort p [] = refl
with_priority-sort p (h ∷ hs) =
    ground (arith, with_priority-sort_in p h (sort hs), with_priority-sort p hs)

keep_if-append :
    {A : Type 0} (p : A → Bool) (xs ys : List A)
    → keep_if p (xs ++ ys) ≡ keep_if p xs ++ keep_if p ys
keep_if-append p [] ys = refl
keep_if-append p (x ∷ xs) ys = ground (arith, keep_if-append p xs ys)

-- registrations, one after the other
unfoldable pub register_all : List RegisteredHandler → MessageRouter → MessageRouter
register_all [] r = r
register_all (h ∷ hs) r = register_all hs (register h r)

abbrev pub of_type : String → List RegisteredHandler → List RegisteredHandler
of_type t hs = keep_if (λ h. str_eq h.message_type t) hs

handlers_of-register :
    (t : String) (h : RegisteredHandler) (r : MessageRouter)
    → handlers_of t (register h r)
      ≡ (if str_eq h.message_type t then sort (handlers_of t r ++ h ∷ []) else handlers_of t r)
unfolding register
handlers_of-register t h r = ground (
  arith,
  lookup-insert h.message_type t (sort (handlers_of h.message_type r ++ h ∷ [])) r.handlers,
  eq_iff h.message_type t,
)

register-IsSorted :
    (t : String) (h : RegisteredHandler) (r : MessageRouter)
    → IsSorted (handlers_of t r)
    → IsSorted (handlers_of t (register h r))
register-IsSorted t h r s =
    rw (handlers_of-register t h r) (ground (arith, sort-IsSorted (handlers_of t r ++ h ∷ [])))

with_priority-register :
    (p : ℤ) (t : String) (h : RegisteredHandler) (r : MessageRouter)
    → with_priority p (handlers_of t (register h r))
      ≡ with_priority p (handlers_of t r) ++ with_priority p (of_type t (h ∷ []))
with_priority-register p t h r = rw (handlers_of-register t h r) (
    ground (
      arith,
      with_priority-sort p (handlers_of t r ++ h ∷ []),
      keep_if-append (λ (x : RegisteredHandler). eq_ℤ x.priority p) (handlers_of t r) (h ∷ []),
      append-nil (with_priority p (handlers_of t r)),
    ))

with_priority-of_type :
    (p : ℤ) (t : String) (h : RegisteredHandler) (hs : List RegisteredHandler)
    → with_priority p (of_type t (h ∷ [])) ++ with_priority p (of_type t hs)
      ≡ with_priority p (of_type t (h ∷ hs))
with_priority-of_type p t h hs = ground arith

-- From a router whose handlers of a type are sorted, any registrations leave them sorted by
-- descending priority, and among those of one priority the ones that were there come first and the
-- new ones follow in the order in which they were registered; each stands there once for each
-- registration with its type.
pub register_all-order :
    (hs : List RegisteredHandler) (p : ℤ) (t : String) (r : MessageRouter)
    → IsSorted (handlers_of t r)
    → IsSorted (handlers_of t (register_all hs r))
      × (with_priority p (handlers_of t (register_all hs r))
          ≡ with_priority p (handlers_of t r) ++ with_priority p (of_type t hs))
unfolding register_all
register_all-order [] p t r s = (s, sym (append-nil (with_priority p (handlers_of t r))))
register_all-order (h ∷ hs) p t r s =
    let ih = register_all-order hs p t (register h r) (register-IsSorted t h r s) in
    (
      ih.0,
      ih.1
          ∙ ap (λ l. l ++ with_priority p (of_type t hs)) (with_priority-register p t h r)
          ∙ append_assoc (with_priority p (handlers_of t r)) (with_priority p (of_type t (h ∷ [])))
              (with_priority p (of_type t hs))
          ∙ ap (λ l. with_priority p (handlers_of t r) ++ l) (with_priority-of_type p t h hs),
    )
