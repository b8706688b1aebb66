-- ===== src/Manager.antt =====
-- service_manager/service_manager_app.h and service_manager_app.cpp: the control connections of the
-- service manager with what it keeps for them, and how it sends. sm_diag.cpp: the tables by process.
-- Timers, the event loop and log lines are left out.
pub mod Ending
pub mod Hello
pub mod Registering
pub mod Topical
pub mod Watching
pub mod Querying
pub mod Handled
pub mod Queried
pub mod Served
pub mod Serving
pub mod Met
pub mod History
mod Tests
pub mod Agreeing
pub mod Fuel
pub mod Alive
pub mod Parts
pub mod Unlisted
pub mod Closed
pub mod Gone
use omni_binder.Prelude.{
  ℕ, ◌+◌, ◌-◌, ◌/◌, ◌%◌, Bool, true, false, ◌&&◌, ◌||◌, not, Option, none, some, List, [], ◌∷◌,
  ◌++◌, ltb, ◌==◌, if◌then◌else◌, length, take, drop, bytes32, u32_mod, add32,
}
use omni_binder.OrderedMap.{Map, Set, find, contains, insert, erase}
use omni_binder.OrderedMap.Keys.{Name, number_key, name_key}
use omni_binder.Types.{ServiceInfo, ServiceIdentity}
use omni_binder.Buffer.{Buffer, empty_buffer}
use omni_binder.Message.{Message, fresh_message, max_message_size, serialize}
use omni_binder.Registry.{Registry, empty_registry}
use omni_binder.Topics.{Topics, empty_topics, is_empty}
use omni_binder.Watches.{Watches, empty_watches}

-- What the connection has left to send, and what its transport will answer to the next sends: the
-- number of bytes that it takes, or that it failed. Behind the last answer it takes everything.
pub record Client : Type 0 where
  pub send_buffer : List ℕ
  pub answers : List (Option ℕ)
  pub pid : ℕ
  pub runtime_registered : Bool
  pub process_name : Name
  pub log_level : ℕ
  pub session_key : Name
  pub runtime_id : Name
  pub host_id : Name
  pub incarnation_id : ℕ
  pub session_interval_ms : ℕ
  pub session_timeout_ms : ℕ
  pub hello_received : Bool

-- clients_, runtime_sessions_, pid_to_fds_, pid_watchers_, watcher_to_pids_, registry_,
-- topic_manager_, watch_notifier_ and sm_seq_counter_.
pub record Manager : Type 0 where
  pub clients : Map ℕ Client
  pub runtime_sessions : Map Name ℕ
  pub pid_to_fds : Map ℕ (List ℕ)
  pub pid_watchers : Map ℕ (List ℕ)
  pub watcher_to_pids : Map ℕ (Set ℕ)
  pub registry : Registry
  pub topics : Topics
  pub watches : Watches
  pub sequence : ℕ

abbrev pub sm_proactive_seq_base : ℕ
sm_proactive_seq_base = 0x40000000

unfoldable pub empty_manager : Manager
empty_manager = record {
  clients = [];
  runtime_sessions = [];
  pid_to_fds = [];
  pid_watchers = [];
  watcher_to_pids = [];
  registry = empty_registry;
  topics = empty_topics;
  watches = empty_watches;
  sequence = sm_proactive_seq_base;
}

-- ClientConnection() with a transport.
abbrev pub new_client : List (Option ℕ) → Client
new_client answers = record {
  send_buffer = [];
  answers = answers;
  pid = 0;
  runtime_registered = false;
  process_name = [];
  log_level = 3;
  session_key = [];
  runtime_id = [];
  host_id = [];
  incarnation_id = 0;
  session_interval_ms = 3000;
  session_timeout_ms = 10_000;
  hello_received = false;
}

-- onClientAccepted, without its timer and its times.
unfoldable pub accept_client : Manager → ℕ → List (Option ℕ) → Manager
accept_client m fd answers =
    if contains fd m.clients
    then m
    else record m { clients = insert fd (new_client answers) m.clients }

-- The counter behind nextSMProactiveSequence.
unfoldable pub next_sequence : Manager → Manager
next_sequence m = record m {
  sequence =
      if ltb (add32 m.sequence 1) sm_proactive_seq_base
      then sm_proactive_seq_base
      else add32 m.sequence 1;
}

-- Message(type, sequence) with its payload.
unfoldable pub new_message : ℕ → ℕ → List ℕ → Message
new_message type sequence payload = record fresh_message {
  header = record fresh_message.header { type = type; sequence = sequence };
  payload = payload;
}

-- The bytes of a serialized message.
unfoldable pub output_of : (ℕ → Option (List ℕ)) → Message → Option (List ℕ)
output_of alloc msg =
    let (done, output) = serialize alloc msg empty_buffer in
    if done then some (take output.write_pos output.storage) else none

-- transport->send
unfoldable pub transport_send : Client → ℕ → Option ℕ × Client
transport_send c size = elim c.answers [
  | [] ↦ (some size, c)
  | answer ∷ answers ↦ (answer, record c { answers = answers })
]

-- What sendMessage does with the bytes; none where it closes the connection. There is always memory
-- for the send buffer.
unfoldable pub send_bytes : Client → List ℕ → Option Client
send_bytes c output =
    if not (is_empty c.send_buffer)
    then if ltb max_message_size (length c.send_buffer + length output)
      then none
      else some (record c { send_buffer = c.send_buffer ++ output })
    else let (answer, c') = transport_send c (length output) in
      elim answer [
        | none ↦ none
        | some sent ↦
            some (
              if ltb sent (length output) then record c' { send_buffer = drop sent output } else c')
      ]

-- sendMessage to a connection that is there; `close` is closeClient.
unfoldable pub send_message :
    (ℕ → Option (List ℕ)) → (Manager → ℕ → Manager) → Manager → ℕ → Message → Manager
send_message alloc close m fd msg = elim (find fd m.clients) [
  | none ↦ m
  | some c ↦ elim (output_of alloc msg) [
    | none ↦ m
    | some output ↦ elim (send_bytes c output) [
      | none ↦ close m fd
      | some c' ↦ record m { clients = insert fd c' m.clients }
    ]
  ]
]
