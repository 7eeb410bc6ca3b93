-- ===== src/Messages/Queue/ByPriority.antt =====
-- What `PriorityMessageQueue` promises, and that it keeps it.
use net_conduit.Base.{
  ℕ, suc, ◌+◌, ◌<◌, ◌≤◌, ◌≡◌, refl, ap, ◌∙◌, ◌==◌, Bool, true, false, not, ◌&&◌, Option, none, some,
  List, [], ◌∷◌, arith, leb, if◌then◌else◌, length, Bool-cases, inl, inr,
}
use net_conduit.Base.Int.{ℤ, leb_ℤ}
use net_conduit.Messages.Queue.Priority.{
  Entry, PriorityMessageQueue, is_before, new_priority_queue, is_full, put, take_least, get,
}

-- A put, which is given up where the queue is full, and a get.
pub data Call {ℓ} (T : Type ℓ) : Type ℓ where
  offer : T → ℤ → Call T
  take : Call T

module _ {ℓ} {T : Type ℓ} where
  abbrev item_of : Option (Entry T) → Option T
  item_of none = none
  item_of (some e) = some e.item

  -- What the gets of a run give; none is a get that finds the queue empty.
  unfoldable pub results : List (Call T) → PriorityMessageQueue T → List (Option T)
  unfolding put get
  results [] q = []
  results (offer x p ∷ calls) q = results calls (put x p q).0
  results (take ∷ calls) q = item_of (get q).1 ∷ results calls (get q).0

  -- The promise, with no counters: the queue is the list of the priorities and items that it holds,
  -- the latest first, and a get pulls the oldest one of those with the least priority number.
  unfoldable pub pull : ℤ × T → List (ℤ × T) → (ℤ × T) × List (ℤ × T)
  pull e [] = (e, [])
  pull e (f ∷ fs) = let r = pull f fs in if leb_ℤ r.0.0 e.0 then (r.0, e ∷ r.1) else (e, f ∷ fs)

  -- The same by the promise, in a queue that holds at most `maxsize` items, where that is not 0.
  unfoldable pub promised : ℕ → List (Call T) → List (ℤ × T) → List (Option T)
  unfolding pull
  promised maxsize [] l = []
  promised maxsize (offer x p ∷ calls) l =
      promised maxsize calls
        (if not (maxsize == 0) && leb maxsize (length l) then l else (p, x) ∷ l)
  promised maxsize (take ∷ calls) [] = none ∷ promised maxsize calls []
  promised maxsize (take ∷ calls) (e ∷ l) =
      some (pull e l).0.1 ∷ promised maxsize calls (pull e l).1

  abbrev pair : Entry T → ℤ × T
  pair e = (e.priority, e.item)

  unfoldable pairs : List (Entry T) → List (ℤ × T)
  pairs [] = []
  pairs (e ∷ es) = pair e ∷ pairs es

  length-pairs : (es : List (Entry T)) → length (pairs es) ≡ length es
  unfolding pairs
  length-pairs [] = refl
  length-pairs (e ∷ es) = ground (arith, length-pairs es)

  -- The counters go down along the list, from below n.
  abbrev Below : ℕ → List (Entry T) → Type 0
  Below n [] = Unit
  Below n (e ∷ es) = (e.counter < n) × Below e.counter es

  raised-Below : {n m : ℕ} (es : List (Entry T)) → n ≤ m → Below n es → Below m es
  raised-Below [] h b = tt
  raised-Below (e ∷ es) h b = (omega (arith, h, b.0), b.1)

  least_counter :
      (n : ℕ) (e : Entry T) (es : List (Entry T))
      → Below n (e ∷ es)
      → (take_least e es).0.counter < n
  unfolding take_least
  least_counter n e [] b = b.0
  least_counter n e (f ∷ fs) b =
      let ih = least_counter e.counter f fs b.1 in
      elim (Bool-cases (is_before (take_least f fs).0 e)) [
        | inl h ↦ rw h (omega (arith, ih, b.0))
        | inr h ↦ rw h b.0
      ]

  take_least-Below :
      (n : ℕ) (e : Entry T) (es : List (Entry T)) → Below n (e ∷ es) → Below n (take_least e es).1
  unfolding take_least
  take_least-Below n e [] b = tt
  take_least-Below n e (f ∷ fs) b = elim (Bool-cases (is_before (take_least f fs).0 e)) [
    | inl h ↦ rw h (b.0, take_least-Below e.counter f fs b.1)
    | inr h ↦ rw h (raised-Below (f ∷ fs) (omega (arith, b.0)) b.1)
  ]

  -- Of two entries, the one that was put earlier is taken where the priorities are equal.
  before_eq : (g e : Entry T) → g.counter < e.counter → is_before g e ≡ leb_ℤ g.priority e.priority
  before_eq g e h = ground (arith, h)

  abbrev view : Entry T × List (Entry T) → (ℤ × T) × List (ℤ × T)
  view r = (pair r.0, pairs r.1)

  view_if :
      (b : Bool) (e : Entry T) (r w : Entry T × List (Entry T))
      → view (if b then (r.0, e ∷ r.1) else w)
        ≡ (if b then (pair r.0, pair e ∷ pairs r.1) else view w)
  unfolding pairs
  view_if true e r w = refl
  view_if false e r w = refl

  take_least-pull :
      (n : ℕ) (e : Entry T) (es : List (Entry T))
      → Below n (e ∷ es)
      → view (take_least e es) ≡ pull (pair e) (pairs es)
  unfolding take_least pull pairs
  take_least-pull n e [] b = refl
  take_least-pull n e (f ∷ fs) b =
      let g = (take_least f fs).0 in
      let same = before_eq g e (least_counter e.counter f fs b.1) in
      let ih = take_least-pull e.counter f fs b.1 in
      let whole : (ℤ × T) × List (ℤ × T) = (pair e, pair f ∷ pairs fs) in
      view_if (is_before g e) e (take_least f fs) (e, f ∷ fs)
      ∙ ap (λ c. if c then (pair g, pair e ∷ pairs (take_least f fs).1) else whole) same
      ∙ ap (λ r. if leb_ℤ r.0.0 e.priority then (r.0, pair e ∷ r.1) else whole) ih

  put-Below :
      (x : T) (p : ℤ) (q : PriorityMessageQueue T)
      → Below (suc q.counter) q.entries
      → Below (suc (put x p q).0.counter) (put x p q).0.entries
  unfolding put
  put-Below x p q b = elim (Bool-cases (is_full q)) [
    | inl h ↦ rw h (raised-Below q.entries (omega arith) b)
    | inr h ↦ let n : q.counter + 1 ≡ suc q.counter = omega arith in rw h (omega arith, rw n b)
  ]

  put-pairs :
      (x : T) (p : ℤ) (q : PriorityMessageQueue T)
      → pairs (put x p q).0.entries ≡ (
          if not (q.maxsize == 0) && leb q.maxsize (length (pairs q.entries))
          then pairs q.entries
          else (p, x) ∷ pairs q.entries)
  unfolding put pairs
  put-pairs x p q = ground (arith, length-pairs q.entries)

  put-maxsize : (x : T) (p : ℤ) (q : PriorityMessageQueue T) → (put x p q).0.maxsize ≡ q.maxsize
  unfolding put
  put-maxsize x p q = ground arith

  abbrev queue : List (Entry T) → ℕ → ℕ → PriorityMessageQueue T
  queue es m c = record { entries = es; maxsize = m; counter = c }

  results-eq :
      (calls : List (Call T)) (es : List (Entry T)) (m c : ℕ)
      → Below (suc c) es
      → results calls (queue es m c) ≡ promised m calls (pairs es)
  unfolding results promised pairs get
  results-eq [] es m c b = refl
  results-eq (offer x p ∷ calls) es m c b =
      let q = queue es m c in
      let q' = (put x p q).0 in
      results-eq calls q'.entries q'.maxsize q'.counter (put-Below x p q b)
      ∙ ap (λ n. promised n calls (pairs q'.entries)) (put-maxsize x p q)
      ∙ ap (λ l. promised m calls l) (put-pairs x p q)
  results-eq (take ∷ calls) [] m c b = ap (λ l. none ∷ l) (results-eq calls [] m c b)
  results-eq (take ∷ calls) (e ∷ es) m c b =
      let r = take_least e es in
      ap (λ l. some r.0.item ∷ l) (results-eq calls r.1 m c (take_least-Below (suc c) e es b))
      ∙ ap (λ w. some w.0.1 ∷ promised m calls w.1) (take_least-pull (suc c) e es b)

  -- Through any puts and gets from a new queue, where a put that finds the queue full is given up
  -- and a get that finds it empty gives nothing: the gets give what they give by the promise. That
  -- is, lower priority numbers first, and first in, first out among the items of one priority.
  pub results-promised :
      (calls : List (Call T)) (maxsize : ℕ)
      → results calls (new_priority_queue maxsize) ≡ promised maxsize calls []
  unfolding new_priority_queue pairs
  results-promised calls maxsize = results-eq calls [] maxsize 0 tt
