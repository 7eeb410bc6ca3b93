-- ===== src/Heartbeat/Turn.antt =====
-- The turns of the loop of `_tick`, with the server's callback.
use net_conduit.Base.{
  ℕ, ◌+◌, ◌≡◌, refl, true, false, ◌&&◌, [], ◌∷◌, String, arith, leb, str_eq, eq_iff, Bool-cases,
  inl, inr,
}
use net_conduit.Base.Dict.{
  Dict, contains, HasKeys, lookup-insert, contains-erase_le, contains-erase_self, erase-HasKeys,
  erase,
}
use net_conduit.Heartbeat.{
  HeartbeatManager, missed_of, is_overdue, handle_stale_connection, check_target, tick_loop,
}
use net_conduit.Heartbeat.After.{
  count_of, After, other_first, other_last, same_turn, due, fires, sent-After, counted-After,
  handle-After, counted,
}

-- Another target's turn.
check_other :
    (now : ℕ) (t u : String) (m : HeartbeatManager)
    → str_eq u t ≡ false
    → HasKeys m.senders
    → After t false 0 m (check_target handle_stale_connection now u m)
unfolding check_target
check_other now t u m ne keys = elim (Bool-cases (is_overdue u now m)) [
  | inr h ↦ rw h (sent-After t u m keys)
  | inl h ↦ elim (Bool-cases (leb m.max_missed (missed_of u m + 1) && m.has_on_stale)) [
    | inr g ↦ rw (h, g) (counted-After t u m.stale m ne keys refl)
    | inl g ↦
        let same : count_of t (u ∷ m.stale) ≡ count_of t m.stale = ground (arith, ne) in
        let one = counted-After t u (u ∷ m.stale) m ne keys same in
        rw (h, g) (other_first one (handle-After u t (counted u (u ∷ m.stale) m) ne keys))
  ]
]

counted_self :
    (t : String) (m : HeartbeatManager)
    → HasKeys m.senders
    → After t false 1 m (counted t m.stale m)
counted_self t m keys = record {
  timeout = refl;
  max_missed = refl;
  has_on_stale = refl;
  keys = keys;
  stale = omega arith;
  senders = refl;
  last_pong = λ h. refl;
  missed = λ h.
      let kept = lookup-insert t t (missed_of t m + 1) m.missed in ground (arith, eq_iff t t, kept);
}

-- the callback for the target itself
handle_self :
    (t : String) (m : HeartbeatManager)
    → HasKeys m.senders
    → After t true 1 m (handle_stale_connection t (counted t (t ∷ m.stale) m))
unfolding handle_stale_connection
handle_self t m keys = record {
  timeout = refl;
  max_missed = refl;
  has_on_stale = refl;
  keys = erase-HasKeys t (erase t m.senders) (erase-HasKeys t m.senders keys);
  stale = ground (arith, eq_iff t t);
  senders = contains-erase_le t t (erase t m.senders) (contains-erase_self t m.senders keys);
  last_pong = λ h. absurd (ground (arith, h));
  missed = λ h. absurd (ground (arith, h));
}

-- The target's own turn.
check_self :
    (now : ℕ) (t : String) (m : HeartbeatManager)
    → HasKeys m.senders
    → After t (fires t now m) (due t now m) m (check_target handle_stale_connection now t m)
unfolding check_target
check_self now t m keys = elim (Bool-cases (is_overdue t now m)) [
  | inr h ↦ rw h (sent-After t t m keys)
  | inl h ↦ elim (Bool-cases (leb m.max_missed (missed_of t m + 1) && m.has_on_stale)) [
    | inr g ↦ rw (h, g) (counted_self t m keys)
    | inl g ↦ rw (h, g) (handle_self t m keys)
  ]
]

pub loop_absent :
    (now : ℕ) (t : String) (s : Dict ℕ) (m : HeartbeatManager)
    → contains t s ≡ false
    → HasKeys m.senders
    → After t false 0 m (tick_loop handle_stale_connection now s m)
unfolding tick_loop contains
loop_absent now t [] m h keys = record {
  timeout = refl;
  max_missed = refl;
  has_on_stale = refl;
  keys = keys;
  stale = omega arith;
  senders = refl;
  last_pong = λ h. refl;
  missed = λ h. omega arith;
}
loop_absent now t ((u, f) ∷ s) m h keys =
    let ne : str_eq u t ≡ false = ground (arith, h) in
    let one = check_other now t u m ne keys in
    other_first one (
      loop_absent now t s (check_target handle_stale_connection now u m) (ground (arith, h))
        one.keys)

unchanged :
    (now : ℕ) (t : String) (m m' : HeartbeatManager)
    → After t false 0 m m'
    → (fires t now m' ≡ fires t now m) × (due t now m' ≡ due t now m)
unchanged now t m m' x =
    let missed : missed_of t m' ≡ missed_of t m = omega (arith, x.missed refl) in
    let last = x.last_pong refl in
    (rw (missed, last, x.timeout, x.max_missed, x.has_on_stale) refl, rw (last, x.timeout) refl)

pub loop_present :
    (now : ℕ) (t : String) (s : Dict ℕ) (m : HeartbeatManager)
    → HasKeys s
    → contains t s ≡ true
    → HasKeys m.senders
    → After t (fires t now m) (due t now m) m (tick_loop handle_stale_connection now s m)
unfolding tick_loop contains
loop_present now t [] m k h keys = absurd (ground (arith, h))
loop_present now t ((u, f) ∷ s) m k h keys = elim (Bool-cases (str_eq u t)) [
  | inl e ↦
      let same : u ≡ t = (eq_iff u t).0 e in
      let one = check_self now t m keys in
      let rest =
        loop_absent now t s (check_target handle_stale_connection now t m) (rw⁻¹ same (k.0))
          one.keys in
      rw same (other_last one rest)
  | inr ne ↦
      let one = check_other now t u m ne keys in
      let rest =
        loop_present now t s (check_target handle_stale_connection now u m) k.1
          (ground (arith, h, ne)) one.keys in
      let same = unchanged now t m (check_target handle_stale_connection now u m) one in
      other_first one (same_turn same.0 same.1 rest)
]
