-- ===== src/Heartbeat/Stale.antt =====
-- When `on_stale` is called for a target, with the server's callback.
use net_conduit.Base.{
  ℕ, suc, ◌+◌, ◌-◌, ◌≤◌, ◌≡◌, refl, ap, ◌∙◌, true, false, some, List, [], ◌∷◌, String, arith, ltb,
  leb, if◌then◌else◌, Bool-cases, inl, inr,
}
use net_conduit.Base.Dict.{lookup, contains, HasKeys}
use net_conduit.Heartbeat.{HeartbeatManager, missed_of, handle_stale_connection, tick_loop, tick}
use net_conduit.Heartbeat.After.{count_of, due, fires}
use net_conduit.Heartbeat.Turn.{loop_absent, loop_present}

unfoldable pub ticks : List ℕ → HeartbeatManager → HeartbeatManager
unfolding tick
ticks [] m = m
ticks (now ∷ rest) m = ticks rest (tick handle_stale_connection now m)

-- The readings of the clock at which a target is overdue that last answered at `last`.
abbrev pub overdue_count : ℕ → ℕ → List ℕ → ℕ
overdue_count timeout last [] = 0
overdue_count timeout last (now ∷ rest) =
    (if ltb timeout (now - last) then 1 else 0) + overdue_count timeout last rest

-- Once the target is gone, no tick calls on_stale for it.
ticks_gone :
    (t : String) (ts : List ℕ) (m : HeartbeatManager)
    → HasKeys m.senders
    → contains t m.senders ≡ false
    → (count_of t (ticks ts m).stale ≡ count_of t m.stale)
      × (contains t (ticks ts m).senders ≡ false)
unfolding ticks tick
ticks_gone t [] m keys c = (refl, c)
ticks_gone t (now ∷ ts) m keys c =
    let one = loop_absent now t m.senders m c keys in
    let rest =
      ticks_gone t ts (tick_loop handle_stale_connection now m.senders m) one.keys
        (one.senders ∙ c) in
    (omega (arith, one.stale, rest.0), rest.1)

ticks_from :
    (t : String) (last k j : ℕ) (ts : List ℕ) (m : HeartbeatManager)
    → HasKeys m.senders
    → contains t m.senders ≡ true
    → lookup t m.last_pong ≡ some last
    → m.has_on_stale ≡ true
    → m.max_missed ≡ suc k
    → missed_of t m ≡ j
    → j ≤ k
    → (count_of t (ticks ts m).stale
        ≡ count_of t m.stale + (if leb (j + overdue_count m.timeout last ts) k then 0 else 1))
      × (contains t (ticks ts m).senders ≡ leb (j + overdue_count m.timeout last ts) k)
unfolding ticks tick
ticks_from t last k j [] m keys c p o x z h = (ground (arith, h), ground (arith, h, c))
ticks_from t last k j (now ∷ ts) m keys c p o x z h =
    let one = loop_present now t m.senders m keys c keys in
    let m' = tick_loop handle_stale_connection now m.senders m in
    elim (Bool-cases (fires t now m)) [
      | inl f ↦
          let rest = ticks_gone t ts m' one.keys (one.senders ∙ rw f refl) in
          let fired = ap {B = ℕ} (λ b. if b then 1 else 0) f in
          (
            ground (arith, one.stale, fired, rest.0, f, z, x, o, p),
            rest.1 ∙ ground (arith, f, z, x, o, p),
          )
      | inr f ↦
          let rest =
            ticks_from t last k (j + due t now m) ts m' one.keys (one.senders ∙ rw f c)
              (one.last_pong f ∙ p) (one.has_on_stale ∙ o) (one.max_missed ∙ x)
              (one.missed f ∙ ap (λ n. n + due t now m) z) (ground (arith, f, h, z, x, o)) in
          let due_eq : due t now m ≡ (if ltb m.timeout (now - last) then 1 else 0) = rw p refl in
          let same = ap (λ n. overdue_count n last ts) one.timeout in
          let kept = ap {B = ℕ} (λ b. if b then 1 else 0) f in
          (
            ground (arith, one.stale, kept, rest.0, same, due_eq),
            rest.1 ∙ ground (arith, same, due_eq),
          )
    ]

-- A target that answered at `last` and has missed none, in ticks at any times with no answer in
-- between, and with the server's callback, which unregisters the target: `on_stale` is called for
-- the target once where more than k of the ticks come later than the timeout after `last`, and never
-- otherwise, max_missed being k + 1; and the target stays registered exactly as long as it is not
-- called. Other targets, which go stale or not, do not matter. No target is registered twice.
pub ticks-stale_once :
    (t : String) (last k : ℕ) (ts : List ℕ) (m : HeartbeatManager)
    → HasKeys m.senders
    → contains t m.senders ≡ true
    → lookup t m.last_pong ≡ some last
    → missed_of t m ≡ 0
    → m.has_on_stale ≡ true
    → m.max_missed ≡ suc k
    → (count_of t (ticks ts m).stale
        ≡ count_of t m.stale + (if leb (overdue_count m.timeout last ts) k then 0 else 1))
      × (contains t (ticks ts m).senders ≡ leb (overdue_count m.timeout last ts) k)
ticks-stale_once t last k ts m keys c p z o x =
    let all = ticks_from t last k 0 ts m keys c p o x z (omega arith) in
    (ground (arith, all.0), ground (arith, all.1))
