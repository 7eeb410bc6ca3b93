-- ===== src/Pool/Latency.antt =====
-- What the strategy of the least latency chooses.
use mathlib.Core.Path.{subst}
use net_conduit.Base.{
  ℕ, zero, suc, ◌+◌, ◌≤◌, ◌<◌, ◌≡◌, ◌≢◌, ◌⊎◌, inl, inr, refl, sym, ◌∙◌, true, false, some, List, [],
  ◌∷◌, arith, length, get_elem?, if◌then◌else◌, keep_if, ltb, Bool-cases, All,
}
use net_conduit.Pool.{
  Client, ClientPool, least_latency, active, get_next_client, is_connected, latency_at, least,
  place_of,
}

-- The client at `place` is `chosen`, among those before and those from `i` on.
record IsFound (L : List (ℕ × ℕ)) (i j : ℕ) (best : Client) (cs : List Client) (chosen : Client)
    : Type 0 where
  place : ℕ
  stands :
      ((place ≡ j) × (chosen ≡ best)) ⊎ ((m : ℕ) × (place ≡ i + m) × (get_elem? cs m ≡ some chosen))
  at_most_best : latency_at place L ≤ latency_at j L
  at_most_all : (m : ℕ) → m < length cs → latency_at place L ≤ latency_at (i + m) L

-- The search went on with the client at `i` or with the best so far.
IsFound-step :
    (L : List (ℕ × ℕ)) (i j : ℕ) (best c : Client) (cs : List Client) (chosen : Client)
    → ((ltb (latency_at i L) (latency_at j L) ≡ true) × IsFound L (i + 1) i c cs chosen)
      ⊎ ((ltb (latency_at i L) (latency_at j L) ≡ false) × IsFound L (i + 1) j best cs chosen)
    → IsFound L i j best (c ∷ cs) chosen
IsFound-step L i j best c cs chosen (inl (less, f)) = record {
  place = f.place;
  stands = elim f.stands [
    | inl (p, e) ↦ inr (zero, omega (arith, p), rw e refl)
    | inr (m, p, e) ↦ inr (suc m, omega (arith, p), e)
  ];
  at_most_best = ground (arith, less, f.at_most_best);
  at_most_all = λ m.
      elim m as (λ m. m < length (c ∷ cs) → latency_at f.place L ≤ latency_at (i + m) L) [
        | zero ↦ λ h.
            let e : i ≡ i + 0 = omega arith in
            subst (λ n. latency_at f.place L ≤ latency_at n L) e f.at_most_best
        | suc m ↦ λ h.
            let e : i + 1 + m ≡ i + suc m = omega arith in
            subst (λ n. latency_at f.place L ≤ latency_at n L) e
              (f.at_most_all m (omega (arith, h)))
      ];
}
IsFound-step L i j best c cs chosen (inr (not_less, f)) = record {
  place = f.place;
  stands = elim f.stands [
    | inl (p, e) ↦ inl (p, e)
    | inr (m, p, e) ↦ inr (suc m, omega (arith, p), e)
  ];
  at_most_best = f.at_most_best;
  at_most_all = λ m.
      elim m as (λ m. m < length (c ∷ cs) → latency_at f.place L ≤ latency_at (i + m) L) [
        | zero ↦ λ h.
            let e : i ≡ i + 0 = omega arith in
            let below : latency_at f.place L ≤ latency_at i L =
              ground (arith, not_less, f.at_most_best) in
            subst (λ n. latency_at f.place L ≤ latency_at n L) e below
        | suc m ↦ λ h.
            let e : i + 1 + m ≡ i + suc m = omega arith in
            subst (λ n. latency_at f.place L ≤ latency_at n L) e
              (f.at_most_all m (omega (arith, h)))
      ];
}

least-IsFound :
    (L : List (ℕ × ℕ)) (i j : ℕ) (best : Client) (cs : List Client)
    → IsFound L i j best cs (least L i (j, best) cs)
unfolding least
least-IsFound L i j best [] = record {
  place = j;
  stands = inl (refl, refl);
  at_most_best = omega arith;
  at_most_all = λ m h. absurd (omega (arith, h));
}
least-IsFound L i j best (c ∷ cs) = elim (Bool-cases (ltb (latency_at i L) (latency_at j L))) [
  | inl e ↦
      IsFound-step L i j best c cs (least L i (j, best) (c ∷ cs))
        (inl (e, rw e (least-IsFound L (i + 1) i c cs)))
  | inr e ↦
      IsFound-step L i j best c cs (least L i (j, best) (c ∷ cs))
        (inr (e, rw e (least-IsFound L (i + 1) j best cs)))
]

get_elem?-lt : (cs : List Client) (m : ℕ) (c : Client) → get_elem? cs m ≡ some c → m < length cs
get_elem?-lt [] m c h = ground (arith, h)
get_elem?-lt (x ∷ xs) zero c h = omega arith
get_elem?-lt (x ∷ xs) (suc m) c h = omega (arith, get_elem?-lt xs m c h)

-- The place that is found is that of the client given.
located :
    (L : List (ℕ × ℕ)) (c chosen : Client) (cs : List Client) (f : IsFound L 1 0 c cs chosen)
    → get_elem? (c ∷ cs) f.place ≡ some chosen
located L c chosen cs f = elim f.stands [
  | inl (p, e) ↦ rw (p, e) refl
  | inr (m, p, e) ↦ let q : f.place ≡ suc m = omega (arith, p) in rw q e
]

-- At every place of the list, the latency is at least that of the place found.
found_least :
    (L : List (ℕ × ℕ)) (c chosen : Client) (cs : List Client) (f : IsFound L 1 0 c cs chosen)
    (i : ℕ)
    → i < length (c ∷ cs)
    → latency_at f.place L ≤ latency_at i L
found_least L c chosen cs f zero h = f.at_most_best
found_least L c chosen cs f (suc i) h =
    let e : 1 + i ≡ suc i = omega arith in
    subst (λ n. latency_at f.place L ≤ latency_at n L) e (f.at_most_all i (omega (arith, h)))

keep_if-connected :
    (cs : List Client) → All (λ c. c.is_connected ≡ true) cs → keep_if is_connected cs ≡ cs
keep_if-connected [] h = refl
keep_if-connected (c ∷ cs) h = ground (arith, h, keep_if-connected cs h.1)

chosen-least :
    (pick : ℕ) (c : Client) (cs : List Client) (p : ClientPool)
    → p.strategy ≡ least_latency
    → active p ≡ c ∷ cs
    → (get_next_client pick p).1 ≡ some (least p.latencies 1 (0, c) cs)
unfolding get_next_client
chosen-least pick c cs p s a = ground (arith, s, a)

-- Where all the clients of a pool are connected, the strategy of the least latency gives a client at a
-- place whose latency is at most that of every other place.
least_latency-least :
    (pick : ℕ) (c : Client) (cs : List Client) (p : ClientPool)
    → p.strategy ≡ least_latency
    → p.clients ≡ c ∷ cs
    → All (λ c. c.is_connected ≡ true) (c ∷ cs)
    → (place : ℕ) × ((get_next_client pick p).1 ≡ get_elem? p.clients place)
      × (place < length p.clients)
      × ((i : ℕ) → i < length p.clients → latency_at place p.latencies ≤ latency_at i p.latencies)
unfolding active
least_latency-least pick c cs p s e on =
    let f = least-IsFound p.latencies 1 0 c cs in
    let at = located p.latencies c (least p.latencies 1 (0, c) cs) cs f in
    let a : active p ≡ c ∷ cs = rw e (keep_if-connected (c ∷ cs) on) in
    (
      f.place,
      chosen-least pick c cs p s a ∙ rw e (sym at),
      rw e (get_elem?-lt (c ∷ cs) f.place (least p.latencies 1 (0, c) cs) at),
      λ i h.
          found_least p.latencies c (least p.latencies 1 (0, c) cs) cs f i
            (subst (λ l. i < length l) e h),
    )

-- Where the first of three clients is not connected and the others are, and the first two have
-- different numbers, the strategy of the least latency chooses between the second and the third by
-- the latencies recorded for the first and the second: the third is given exactly where the
-- second's is below the first's, whatever its own is.
least_latency-shifted :
    (pick : ℕ) (a b c : Client) (p : ClientPool)
    → p.strategy ≡ least_latency
    → p.clients ≡ a ∷ b ∷ c ∷ []
    → a.is_connected ≡ false
    → b.is_connected ≡ true
    → c.is_connected ≡ true
    → a.id ≢ b.id
    → (get_next_client pick p).1
      ≡ some (
          if ltb
            (latency_at (place_of b.id p.clients 0) p.latencies)
            (latency_at (place_of a.id p.clients 0) p.latencies)
          then c
          else b)
unfolding active least
least_latency-shifted pick a b c p s e off on on' ne =
    let two : active p ≡ b ∷ c ∷ [] = rw (e, off, on, on') refl in
    let chosen = chosen-least pick b (c ∷ []) p s two in
    let first : place_of a.id p.clients 0 ≡ 0 = rw e (ground arith) in
    let second : place_of b.id p.clients 0 ≡ 1 = rw e (ground (arith, ne)) in
    chosen ∙ rw (first, second) (ground arith)
