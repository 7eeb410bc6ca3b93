-- ===== src/Pool/RoundRobin.antt =====
-- The turns of the round robin.
use native.Mathlib.Nat.{mod-mod, mod-add-mod}
use net_conduit.Base.{
  ℕ, zero, suc, ◌+◌, ◌%◌, ◌≡◌, refl, ap, sym, ◌∙◌, Option, List, [], ◌∷◌, arith, length, get_elem?,
}
use net_conduit.Pool.{Client, ClientPool, round_robin, active, get_next_client}

-- The clients that calls give one after the other.
unfoldable pub next_clients : ℕ → ClientPool → List (Option Client)
next_clients zero p = []
next_clients (suc n) p = (get_next_client 0 p).1 ∷ next_clients n (get_next_client 0 p).0

-- The clients in turn, from a place on: a cyclic reading of the list.
unfoldable pub in_turn : ℕ → ℕ → List Client → List (Option Client)
in_turn zero place cs = []
in_turn (suc n) place cs = get_elem? cs (place % length cs) ∷ in_turn n (place + 1) cs

-- One call of the round robin.
one_turn :
    (c : Client) (cs : List Client) (p : ClientPool)
    → p.strategy ≡ round_robin
    → active p ≡ c ∷ cs
    → ((get_next_client 0 p).1 ≡ get_elem? (c ∷ cs) (p.current_index % suc (length cs)))
      × ((get_next_client 0 p).0.current_index ≡ (p.current_index + 1) % suc (length cs))
      × ((get_next_client 0 p).0.strategy ≡ round_robin)
      × ((get_next_client 0 p).0.clients ≡ p.clients)
unfolding get_next_client
one_turn c cs p s a = ground (arith, s, a)

active-clients : (p q : ClientPool) → p.clients ≡ q.clients → active p ≡ active q
unfolding active
active-clients p q h = rw h refl

turns_from :
    (n place : ℕ) (c : Client) (cs : List Client) (p : ClientPool)
    → p.strategy ≡ round_robin
    → active p ≡ c ∷ cs
    → p.current_index % suc (length cs) ≡ place % suc (length cs)
    → next_clients n p ≡ in_turn n place (c ∷ cs)
unfolding next_clients in_turn
turns_from zero place c cs p s a h = refl
turns_from (suc n) place c cs p s a h =
    let one = one_turn c cs p s a in
    let m = suc (length cs) in
    let moved : (p.current_index + 1) % m % m ≡ (place + 1) % m =
      mod-mod (p.current_index + 1) m
      ∙ sym (mod-add-mod p.current_index m 1)
      ∙ ap (λ x. (x + 1) % m) h
      ∙ mod-add-mod place m 1 in
    let ih =
      turns_from n (place + 1) c cs (get_next_client 0 p).0 one.2
        (active-clients (get_next_client 0 p).0 p one.3 ∙ a) (ap (λ x. x % m) one.1 ∙ moved) in
    rw (one.0, h) (ap (λ l. get_elem? (c ∷ cs) (place % m) ∷ l) ih)

-- While some clients stay connected and no others are, the calls of a round robin give them in their
-- order, from the place of the current index on, and from the first again after the last.
pub next_clients-in_turn :
    (n : ℕ) (c : Client) (cs : List Client) (p : ClientPool)
    → p.strategy ≡ round_robin
    → active p ≡ c ∷ cs
    → next_clients n p ≡ in_turn n p.current_index (c ∷ cs)
next_clients-in_turn n c cs p s a = turns_from n p.current_index c cs p s a refl
