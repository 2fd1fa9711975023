-- ===== src/Agent/Tests.antt =====
-- Runs of the agent.
use cost_ai_grid_poc.Prelude.{
  ℕ, zero, suc, ◌≤◌, ◌<◌, ◌/◌, ◌≡◌, refl, true, false, Option, none, some, List, [], ◌∷◌, All,
  arith,
}
use cost_ai_grid_poc.Prelude.Int.{pos, ◌-ℤ◌}
use cost_ai_grid_poc.Agent.Kube.{Pod, Container}
use cost_ai_grid_poc.Agent.Controller.{Settings, count_gpus, should_exclude}
use cost_ai_grid_poc.Agent.Controller.Handlers.{is_skipped, heartbeat_loop}
use cost_ai_grid_poc.Agent.Controller.Heartbeats.{billed, IsBeating, heartbeat_loop_tiles}
use cost_ai_grid_poc.Agent.Emitter.{
  Emitter, send_with_retry, is_success, emit, receive, flush, Reaches, starts, emitted, received,
}
use cost_ai_grid_poc.Agent.Emitter.Conserved.{Merges, Reaches-IsConserved}

abbrev settings : Settings
settings = record {
  cluster_id = "k1";
  default_tenant = "";
  exclude_namespaces = "kube-system" ∷ [];
  quantity_value = λ q. q / 1000;
}

abbrev gpus : ℕ → ℕ → Container
gpus r l = record { requests = ("nvidia.com/gpu", r) ∷ []; limits = ("nvidia.com/gpu", l) ∷ [] }

abbrev pod : Pod
pod = record {
  namespace = "shop";
  name = "web";
  labels = [];
  node_name = "n1";
  containers = gpus 1000 1000 ∷ gpus 0 2000 ∷ [];
  phase = "Running";
  qos_class = "";
  owner_references = [];
  start_time = some 40;
  creation_timestamp = 30;
}

-- the second container has a limit alone
limit_uncounted : count_gpus settings pod ≡ 1
unfolding count_gpus
limit_uncounted = refl

abbrev ticks : List (ℕ × List Pod)
ticks = (100, pod ∷ []) ∷ (160, record pod { name = "db" } ∷ pod ∷ []) ∷ []

pod_runs : is_skipped settings pod ≡ false
unfolding should_exclude
pod_runs = refl

beating : All (IsBeating settings "shop/web" 40) ticks
beating =
    (((refl, tt), pod, refl, pod_runs, refl), (((refl, (refl, tt)), pod, refl, pod_runs, refl), tt))

heartbeat_loop_tiles_example :
    billed "shop/web" (heartbeat_loop settings ticks []).0 ≡ pos 160 -ℤ pos 40
heartbeat_loop_tiles_example = heartbeat_loop_tiles settings "shop/web" 40 ticks [] beating

-- the first attempt of each event fails
abbrev answers : ℕ → ℕ → Option ℕ
answers ce zero = none
answers ce (suc k) = some 202

third_attempt : send_with_retry (λ k. some 500) ≡ (false, 3)
unfolding send_with_retry is_success
third_attempt = refl

abbrev queued : Emitter ℕ
queued = record { event_ch = 7 ∷ 8 ∷ []; batch = []; sent = []; dropped = [] }

queued_reached : Reaches 1 answers (7 ∷ 8 ∷ []) queued
unfolding emit
queued_reached = emitted (7 ∷ []) 8 _ (emitted [] 7 _ starts)

abbrev after_drop : Emitter ℕ
after_drop = record queued { dropped = 9 ∷ [] }

drop_reached : Reaches 1 answers (7 ∷ 8 ∷ 9 ∷ []) after_drop
unfolding emit
drop_reached = emitted (7 ∷ 8 ∷ []) 9 queued queued_reached

abbrev after_send : Emitter ℕ
after_send = record { event_ch = 8 ∷ []; batch = []; sent = (7, true) ∷ []; dropped = 9 ∷ [] }

send_reached : Reaches 1 answers (7 ∷ 8 ∷ 9 ∷ []) after_send
unfolding receive flush send_with_retry is_success
send_reached = received (7 ∷ 8 ∷ 9 ∷ []) 7 (8 ∷ []) after_drop refl drop_reached

Reaches-IsConserved_example :
    Merges {E = ℕ} (7 ∷ 8 ∷ []) (9 ∷ []) (7 ∷ 8 ∷ 9 ∷ []) × (1 ≤ 2) × (0 < 1)
Reaches-IsConserved_example =
    Reaches-IsConserved 1 answers (7 ∷ 8 ∷ 9 ∷ []) after_send (omega arith) send_reached
