-- ===== src/Manager/Serving.antt =====
-- dispatchMessage and the events of a connection: it is accepted, sends a message, can be written to
-- again, or ends, by a disconnection or a deadline.
use omni_binder.Prelude.{
  ℕ, suc, Bool, true, false, Option, none, some, List, [], ◌∷◌, ◌==◌, if◌then◌else◌, length, drop,
}
use omni_binder.OrderedMap.{find, contains, insert}
use omni_binder.OrderedMap.Keys.{number_key}
use omni_binder.Manager.{Client, Manager, accept_client}
use omni_binder.Manager.Ending.{close_client}
use omni_binder.Manager.Hello.{handle_runtime_hello}
use omni_binder.Manager.Registering.{
  handle_register, handle_unregister, handle_control_heartbeat, handle_unsubscribe_service_watch,
}
use omni_binder.Manager.Topical.{
  handle_publish_topic, handle_unpublish_topic, handle_subscribe_topic, handle_unsubscribe_topic,
}
use omni_binder.Manager.Querying.{
  handle_lookup, handle_list_instances, handle_list_services, handle_query_interfaces,
  handle_query_published_topics,
}
use omni_binder.Manager.Watching.{handle_subscribe_service_watch}

-- The loop of flushPendingSends over what is left to send and the transport's answers; none where it failed.
unfoldable pub flush_sends : List ℕ → List (Option ℕ) → Option (List ℕ × List (Option ℕ))
flush_sends [] answers = some ([], answers)
flush_sends (b ∷ buffer) [] = some ([], [])
flush_sends (b ∷ buffer) (none ∷ answers) = none
flush_sends (b ∷ buffer) (some sent ∷ answers) = elim (sent == 0) [
  | true ↦ some (b ∷ buffer, answers)
  | false ↦ flush_sends (drop sent (b ∷ buffer)) answers
]

unfoldable pub flush_pending_sends : Client → Option Client
flush_pending_sends c = elim (flush_sends c.send_buffer c.answers) [
  | none ↦ none
  | some (buffer, answers) ↦ some (record c { send_buffer = buffer; answers = answers })
]

-- The messages whose handlers are modelled.
pub data Request : Type 0 where
  hello registers unregisters heartbeat watches unwatches publishes unpublishes subscribes : Request
  unsubscribes lookup list_instances list_services query_interfaces query_published_topics : Request

pub data Event : Type 0 where
  accepts : ℕ → List (Option ℕ) → Event
  receives : ℕ → Request → ℕ → List ℕ → Event
  writable : ℕ → Event
  ends : ℕ → Event

module _ (alloc : ℕ → Option (List ℕ)) (default_timeout max_timeout sm_incarnation : ℕ) where
  -- closeClient with fuel for every connection.
  unfoldable pub close_with : Bool → Manager → ℕ → Manager
  close_with notify m fd = close_client alloc (suc (length m.clients)) notify m fd

  abbrev pub closes : Manager → ℕ → Manager
  closes m fd = close_with true m fd

  unfoldable pub dispatch_message : Request → Manager → ℕ → ℕ → List ℕ → Manager
  dispatch_message hello m fd seq payload =
      handle_runtime_hello default_timeout max_timeout sm_incarnation alloc close_with m fd seq
        payload
  dispatch_message registers m fd seq payload = handle_register alloc closes m fd seq payload
  dispatch_message unregisters m fd seq payload = handle_unregister alloc closes m fd seq payload
  dispatch_message heartbeat m fd seq payload =
      handle_control_heartbeat alloc closes sm_incarnation m fd seq payload
  dispatch_message watches m fd seq payload =
      handle_subscribe_service_watch alloc closes m fd seq payload
  dispatch_message unwatches m fd seq payload =
      handle_unsubscribe_service_watch alloc closes m fd payload
  dispatch_message publishes m fd seq payload = handle_publish_topic alloc closes m fd seq payload
  dispatch_message unpublishes m fd seq payload = handle_unpublish_topic alloc closes m fd payload
  dispatch_message subscribes m fd seq payload =
      handle_subscribe_topic alloc closes m fd seq payload
  dispatch_message unsubscribes m fd seq payload =
      handle_unsubscribe_topic alloc closes m fd payload
  dispatch_message lookup m fd seq payload = handle_lookup alloc closes m fd seq payload
  dispatch_message list_instances m fd seq payload =
      handle_list_instances alloc closes m fd seq payload
  dispatch_message list_services m fd seq payload = handle_list_services alloc closes m fd seq
  dispatch_message query_interfaces m fd seq payload =
      handle_query_interfaces alloc closes m fd seq payload
  dispatch_message query_published_topics m fd seq payload =
      handle_query_published_topics alloc closes m fd seq payload

  -- The writable side of onEndpointEvent.
  unfoldable pub on_writable : Manager → ℕ → Manager
  on_writable m fd = elim (find fd m.clients) [
    | none ↦ m
    | some c ↦ elim (flush_pending_sends c) [
      | none ↦ closes m fd
      | some c' ↦ record m { clients = insert fd c' m.clients }
    ]
  ]

  unfoldable pub serve : Manager → Event → Manager
  serve m (accepts fd answers) = accept_client m fd answers
  serve m (receives fd request seq payload) =
      if contains fd m.clients then dispatch_message request m fd seq payload else m
  serve m (writable fd) = on_writable m fd
  serve m (ends fd) = closes m fd

  unfoldable pub serve_all : Manager → List Event → Manager
  serve_all m [] = m
  serve_all m (event ∷ events) = serve_all (serve m event) events
