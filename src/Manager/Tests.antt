-- ===== src/Manager/Tests.antt =====
-- The theorems on the service manager where a connection registers and publishes, a second one
-- watches and subscribes, and sends fail.
use omni_binder.Prelude.{
  ℕ, ◌≤◌, ◌≡◌, true, false, none, some, List, [], ◌∷◌, ◌++◌, arith, length, bytes32,
}
use omni_binder.OrderedMap.{contains, insert, find}
use omni_binder.OrderedMap.Keys.{Name, number_key}
use omni_binder.Types.{ServiceInfo}
use omni_binder.Memory.{allocate}
use omni_binder.Buffer.Appends.{encode_bytes}
use omni_binder.Message.Runtime.{RuntimeInfo, encode_runtime}
use omni_binder.Message.Service.{encode_service}
use omni_binder.Manager.{Manager, empty_manager, accept_client}
use omni_binder.Manager.Ending.{bytes64, close_client}
use omni_binder.Manager.Alive.{Unheld, Unlisted, Unwatching}
use omni_binder.Manager.Parts.{IsOpen}
use omni_binder.Manager.Gone.{close_client-closed}
use omni_binder.Manager.Serving.{
  Event, accepts, receives, writable, ends, hello, registers, publishes, subscribes, watches,
  serve_all,
}
use omni_binder.Manager.History.{serve_all-IsOpen}
use omni_binder.Manager.Fuel.{close_client_fuel}

abbrev camera : ServiceInfo
camera = record {
  name = 99 ∷ 97 ∷ 109 ∷ [];
  host = [];
  port = 9901;
  host_id = 104 ∷ [];
  instance_id = 49 ∷ [];
  shm_config = record { req_ring_capacity = 4096; resp_ring_capacity = 4096 };
  interfaces = [];
}

abbrev runtime : ℕ → RuntimeInfo
runtime pid = record {
  pid = pid;
  process_name = 112 ∷ pid ∷ [];
  role = [];
  log_level = 3;
  diag_capabilities = 0;
  services = [];
  session_version = 1;
  runtime_id = [];
  incarnation_id = 7;
  heartbeat_interval_ms = 1000;
  requested_timeout_ms = 0;
  host_id = 104 ∷ [];
}

abbrev frames : Name
frames = 102 ∷ 114 ∷ []

-- The second connection watches the service and fails when it is told that it is there.
abbrev events : List Event
events =
    accepts 5 []
    ∷ accepts 5 (none ∷ [])
    ∷ accepts 6 (some 30 ∷ some 0 ∷ none ∷ [])
    ∷ receives 5 hello 1 (encode_runtime (runtime 41))
    ∷ receives 6 hello 1 (encode_runtime (runtime 42))
    ∷ receives 6 watches 2 (
        bytes64 1
        ++ (bytes32 1 ++ (encode_bytes camera.name ++ (encode_bytes [] ++ encode_bytes []))))
    ∷ receives 6 subscribes 3 (encode_bytes frames)
    ∷ receives 5 registers 2 (encode_service camera)
    ∷ receives 5 publishes 3 (encode_bytes frames ++ encode_service camera)
    ∷ writable 6
    ∷ ends 5
    ∷ []

abbrev served : Manager
served = serve_all allocate 10_000 60_000 77 empty_manager events

serve_all-IsOpen_example : IsOpen (serve_all allocate 10_000 60_000 77 empty_manager events)
serve_all-IsOpen_example = serve_all-IsOpen allocate 10_000 60_000 77 events

close_client-closed_example :
    (contains 6 (close_client allocate 3 true served 6).clients ≡ false)
    × Unheld 6 (close_client allocate 3 true served 6).registry
    × Unlisted 6 (close_client allocate 3 true served 6).topics
    × Unwatching 6 (close_client allocate 3 true served 6).watches
    × IsOpen (close_client allocate 3 true served 6)
close_client-closed_example =
    close_client-closed allocate 2 true served 6 (serve_all-IsOpen allocate 10_000 60_000 77 events)

abbrev two_clients : Manager
two_clients = accept_client (accept_client empty_manager 5 (none ∷ [])) 6 []

two_clients_few : length two_clients.clients ≤ 2
unfolding accept_client empty_manager insert find omni_binder.OrderedMap.add
two_clients_few = omega arith

close_client_fuel_example :
    close_client allocate 2 true two_clients 5 ≡ close_client allocate 9 true two_clients 5
close_client_fuel_example =
    close_client_fuel allocate 2 9 true two_clients 5 two_clients_few
      (omega (arith, two_clients_few))
