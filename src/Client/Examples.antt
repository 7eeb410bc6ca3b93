-- ===== src/Client/Examples.antt =====
-- The theorems on the client at concrete inputs.
use net_conduit.Base.{
  inr, ℕ, suc, ◌+◌, ◌-◌, ◌*◌, ◌≤◌, ◌≡◌, refl, true, false, none, some, [], ◌∷◌, arith, length, All,
  ◌&&◌,
}
use net_conduit.Client.{
  Client, Config, Attempt, auth_success, auth_failure, unset, Looped, do_connect, reconnect_loop,
  auth_request, disconnect_hooks, client_info,
}
use net_conduit.Client.Login.{is_accepted, do_connect-is_accepted}
use net_conduit.Client.Reconnect.{reconnect_loop-total, reconnect_loop-refused}

abbrev config : Config
config = record {
  name = "ann";
  version = "1";
  username = none;
  password_hash = "00ff";
  reconnect_enabled = true;
  reconnect_attempts = 5;
  reconnect_delay = 10;
  reconnect_delay_max = 25;
}

-- A client that has lost its connection.
abbrev lost : Client ℕ
lost = record {
  config = config;
  has_rust_client = true;
  connection = none;
  auth_future = unset;
  session_token = some "t1";
  cached_session_token = some "t1";
  server_info = [];
  attempts = 0;
  should_reconnect = true;
  is_reconnecting = true;
  log = [];
}

abbrev welcome : Attempt
welcome = record { link = true; connection_id = "x1"; arrivals = auth_success "t2" [] ∷ [] }

abbrev refusal : Attempt
refusal = record { link = true; connection_id = "x1"; arrivals = auth_failure ∷ [] }

do_connect-is_accepted_example :
    (do_connect welcome lost).1 ≡ welcome.link && is_accepted welcome.arrivals
do_connect-is_accepted_example = do_connect-is_accepted welcome lost

reconnect_loop-total_example :
    (l : Looped ℕ) × (reconnect_loop
        (λ d. 2 * d)
        (λ i. record welcome { link = false })
        (5 - 0 + 1)
        0
        10
        lost
      ≡ some l)
    × (length l.slept ≤ 5 - 0)
    × All (λ d. d ≤ 25) l.slept
reconnect_loop-total_example =
    reconnect_loop-total (λ d. 2 * d) (λ i. record welcome { link = false }) lost (omega arith)
      (omega arith)

reconnect_loop-refused_example :
    (l : Looped ℕ) × (reconnect_loop (λ d. 2 * d) (λ i. refusal) (suc (suc 5)) 0 10 lost ≡ some l)
    × (l.is_connected ≡ false)
    × (l.slept ≡ 10 ∷ [])
    × (l.client.should_reconnect ≡ false)
    × (l.client.log ≡ disconnect_hooks ∷ auth_request "" (client_info lost) ∷ [])
reconnect_loop-refused_example =
    reconnect_loop-refused (λ d. 2 * d) (λ i. refusal) 5 10 "t1" lost refl refl (inr (omega arith))
      refl refl
