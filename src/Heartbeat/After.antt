-- ===== src/Heartbeat/After.antt =====
-- How a turn of the loop of `_tick` changes what the manager has of one target.
use mathlib.Core.Path.{subst}
use net_conduit.Base.{
  ℕ, ◌+◌, ◌≡◌, refl, ap, ◌∙◌, ◌≢◌, Bool, false, ◌&&◌, List, [], ◌∷◌, String, arith, leb,
  if◌then◌else◌, str_eq, eq_iff,
}
use net_conduit.Base.Dict.{
  Dict, lookup, contains, HasKeys, lookup-insert, lookup-erase_ne, contains-erase_ne, erase-HasKeys,
  erase, insert,
}
use net_conduit.Heartbeat.{HeartbeatManager, missed_of, is_overdue, handle_stale_connection}

abbrev pub count_of : String → List String → ℕ
count_of t [] = 0
count_of t (x ∷ xs) = (if str_eq x t then 1 else 0) + count_of t xs

-- How a turn of the loop changes what the manager has of a target t: whether `on_stale` is called
-- for it, and what is added to its missed count.
pub record After (t : String) (fires : Bool) (due : ℕ) (m m' : HeartbeatManager) : Type 0 where
  pub timeout : m'.timeout ≡ m.timeout
  pub max_missed : m'.max_missed ≡ m.max_missed
  pub has_on_stale : m'.has_on_stale ≡ m.has_on_stale
  pub keys : HasKeys m'.senders
  pub stale : count_of t m'.stale ≡ count_of t m.stale + (if fires then 1 else 0)
  pub senders : contains t m'.senders ≡ (if fires then false else contains t m.senders)
  pub last_pong : fires ≡ false → lookup t m'.last_pong ≡ lookup t m.last_pong
  pub missed : fires ≡ false → missed_of t m' ≡ missed_of t m + due

pub other_first :
    {t : String} {b : Bool} {d : ℕ} {m m' m'' : HeartbeatManager}
    → After t false 0 m m'
    → After t b d m' m''
    → After t b d m m''
other_first {b = b} x y = record {
  timeout = y.timeout ∙ x.timeout;
  max_missed = y.max_missed ∙ x.max_missed;
  has_on_stale = y.has_on_stale ∙ x.has_on_stale;
  keys = y.keys;
  stale = omega (arith, x.stale, y.stale);
  senders = y.senders ∙ ap (λ c. if b then false else c) x.senders;
  last_pong = λ h. y.last_pong h ∙ x.last_pong refl;
  missed = λ h. omega (arith, y.missed h, x.missed refl);
}

pub other_last :
    {t : String} {b : Bool} {d : ℕ} {m m' m'' : HeartbeatManager}
    → After t b d m m'
    → After t false 0 m' m''
    → After t b d m m''
other_last x y = record {
  timeout = y.timeout ∙ x.timeout;
  max_missed = y.max_missed ∙ x.max_missed;
  has_on_stale = y.has_on_stale ∙ x.has_on_stale;
  keys = y.keys;
  stale = omega (arith, x.stale, y.stale);
  senders = y.senders ∙ x.senders;
  last_pong = λ h. y.last_pong refl ∙ x.last_pong h;
  missed = λ h. omega (arith, y.missed refl, x.missed h);
}

abbrev pub due : String → ℕ → HeartbeatManager → ℕ
due t now m = if is_overdue t now m then 1 else 0

abbrev pub fires : String → ℕ → HeartbeatManager → Bool
fires t now m = is_overdue t now m && (leb m.max_missed (missed_of t m + 1) && m.has_on_stale)

different : (u t : String) → str_eq u t ≡ false → u ≢ t
different u t ne = ground (arith, ne, eq_iff u t)

-- the callback for another target
lookup-erase_twice :
    (u t : String) (d : Dict ℕ) → str_eq u t ≡ false → lookup t (erase u (erase u d)) ≡ lookup t d
lookup-erase_twice u t d ne =
    lookup-erase_ne u t (erase u d) (different u t ne) ∙ lookup-erase_ne u t d (different u t ne)

contains-erase_twice :
    (u t : String) (d : Dict ℕ)
    → str_eq u t ≡ false
    → contains t (erase u (erase u d)) ≡ contains t d
contains-erase_twice u t d ne =
    contains-erase_ne u t (erase u d) (different u t ne)
    ∙ contains-erase_ne u t d (different u t ne)

pub handle-After :
    (u t : String) (m : HeartbeatManager)
    → str_eq u t ≡ false
    → HasKeys m.senders
    → After t false 0 m (handle_stale_connection u m)
unfolding handle_stale_connection
handle-After u t m ne keys = record {
  timeout = refl;
  max_missed = refl;
  has_on_stale = refl;
  keys = erase-HasKeys u (erase u m.senders) (erase-HasKeys u m.senders keys);
  stale = omega arith;
  senders = contains-erase_twice u t m.senders ne;
  last_pong = λ h. lookup-erase_twice u t m.last_pong ne;
  missed = λ h. ground (arith, lookup-erase_twice u t m.missed ne);
}

abbrev pub sent : String → HeartbeatManager → HeartbeatManager
sent u m = record m { pinged = u ∷ m.pinged }

abbrev pub counted : String → List String → HeartbeatManager → HeartbeatManager
counted u stale m = record m {
  pinged = u ∷ m.pinged;
  missed = insert u (missed_of u m + 1) m.missed;
  stale = stale;
}

-- the parts of a turn that do not call on_stale
pub sent-After :
    (t u : String) (m : HeartbeatManager) → HasKeys m.senders → After t false 0 m (sent u m)
sent-After t u m keys = record {
  timeout = refl;
  max_missed = refl;
  has_on_stale = refl;
  keys = keys;
  stale = omega arith;
  senders = refl;
  last_pong = λ h. refl;
  missed = λ h. omega arith;
}

pub counted-After :
    (t u : String) (l : List String) (m : HeartbeatManager)
    → str_eq u t ≡ false
    → HasKeys m.senders
    → count_of t l ≡ count_of t m.stale
    → After t false 0 m (counted u l m)
counted-After t u l m ne keys same = record {
  timeout = refl;
  max_missed = refl;
  has_on_stale = refl;
  keys = keys;
  stale = omega (arith, same);
  senders = refl;
  last_pong = λ h. refl;
  missed =
      λ h. let kept = lookup-insert u t (missed_of u m + 1) m.missed in ground (arith, ne, kept);
}

pub same_turn :
    {t : String} {b b' : Bool} {d d' : ℕ} {m m' : HeartbeatManager}
    → b ≡ b'
    → d ≡ d'
    → After t b d m m'
    → After t b' d' m m'
same_turn {t} {b} {b'} {d} {d'} {m} {m'} p q x =
    subst (λ n. After t b' n m m') q (subst (λ c. After t c d m m') p x)
