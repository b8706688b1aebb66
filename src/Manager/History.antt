-- ===== src/Manager/History.antt =====
-- The service manager over any sequence of events.
use omni_binder.Prelude.{
  ℕ, suc, ◌≡◌, refl, Bool, true, Option, List, [], ◌∷◌, arith, length, Bool-cases, Option-cases,
  inl, inr,
}
use omni_binder.OrderedMap.{find, contains, insert}
use omni_binder.OrderedMap.Keys.{number_key, name_key}
use omni_binder.OrderedMap.Laws.{find-insert}
use omni_binder.Registry.{empty_registry, find_entry}
use omni_binder.Registry.History.{run-IsSound}
use omni_binder.Topics.{empty_topics}
use omni_binder.Topics.History.{topic_run-IsConsistent}
use omni_binder.Watches.{empty_watches}
use omni_binder.Watches.Matching.{watch_run-IsWatched}
use omni_binder.Manager.{Manager, empty_manager, new_client, accept_client}
use omni_binder.Manager.Alive.{Keeps}
use omni_binder.Manager.Gone.{close_client-Keeps}
use omni_binder.Manager.Parts.{IsOpen, nobody, everybody, set_clients}
use omni_binder.Manager.Handled.{
  handle_register-IsOpen, handle_unregister-IsOpen, handle_control_heartbeat-IsOpen,
  handle_unsubscribe_service_watch-IsOpen,
}
use omni_binder.Manager.Served.{
  handle_publish_topic-IsOpen, handle_unpublish_topic-IsOpen, handle_subscribe_topic-IsOpen,
  handle_unsubscribe_topic-IsOpen,
}
use omni_binder.Manager.Queried.{
  handle_lookup-IsOpen, handle_list_instances-IsOpen, handle_list_services-IsOpen,
  handle_query_interfaces-IsOpen, handle_query_published_topics-IsOpen,
}
use omni_binder.Manager.Met.{handle_subscribe_service_watch-IsOpen, handle_runtime_hello-IsOpen}
use omni_binder.Manager.Serving.{
  Request, hello, registers, unregisters, heartbeat, watches, unwatches, publishes, unpublishes,
  subscribes, unsubscribes, lookup, list_instances, list_services, query_interfaces,
  query_published_topics, Event, accepts, receives, writable, ends, flush_pending_sends, close_with,
  dispatch_message, on_writable, serve, serve_all,
}

module _ (alloc : ℕ → Option (List ℕ)) (default_timeout max_timeout sm_incarnation : ℕ) where
  keeps :
      (notify : Bool)
      → Keeps (λ m f. close_with alloc default_timeout max_timeout sm_incarnation notify m f)
  unfolding close_with
  keeps notify closing allowed m fd v =
      close_client-Keeps alloc (suc (length m.clients)) notify closing allowed m fd v

  dispatch_message-IsOpen :
      (request : Request) (m : Manager) (fd seq : ℕ) (payload : List ℕ)
      → contains fd m.clients ≡ true
      → IsOpen m
      → IsOpen (
          dispatch_message alloc default_timeout max_timeout sm_incarnation request m fd seq
            payload)
  unfolding dispatch_message
  dispatch_message-IsOpen hello m fd seq payload there v =
      handle_runtime_hello-IsOpen default_timeout max_timeout sm_incarnation alloc _ keeps m fd seq
        payload v
  dispatch_message-IsOpen registers m fd seq payload there v =
      handle_register-IsOpen alloc _ (keeps true) m fd seq payload v
  dispatch_message-IsOpen unregisters m fd seq payload there v =
      handle_unregister-IsOpen alloc _ (keeps true) m fd seq payload v
  dispatch_message-IsOpen heartbeat m fd seq payload there v =
      handle_control_heartbeat-IsOpen alloc _ (keeps true) sm_incarnation m fd seq payload v
  dispatch_message-IsOpen watches m fd seq payload there v =
      handle_subscribe_service_watch-IsOpen alloc _ (keeps true) m fd seq payload there v
  dispatch_message-IsOpen unwatches m fd seq payload there v =
      handle_unsubscribe_service_watch-IsOpen alloc _ (keeps true) m fd payload v
  dispatch_message-IsOpen publishes m fd seq payload there v =
      handle_publish_topic-IsOpen alloc _ (keeps true) m fd seq payload there v
  dispatch_message-IsOpen unpublishes m fd seq payload there v =
      handle_unpublish_topic-IsOpen alloc _ (keeps true) m fd payload v
  dispatch_message-IsOpen subscribes m fd seq payload there v =
      handle_subscribe_topic-IsOpen alloc _ (keeps true) m fd seq payload there v
  dispatch_message-IsOpen unsubscribes m fd seq payload there v =
      handle_unsubscribe_topic-IsOpen alloc _ (keeps true) m fd payload v
  dispatch_message-IsOpen lookup m fd seq payload there v =
      handle_lookup-IsOpen alloc _ (keeps true) m fd seq v payload
  dispatch_message-IsOpen list_instances m fd seq payload there v =
      handle_list_instances-IsOpen alloc _ (keeps true) m fd seq v payload
  dispatch_message-IsOpen list_services m fd seq payload there v =
      handle_list_services-IsOpen alloc _ (keeps true) m fd seq v
  dispatch_message-IsOpen query_interfaces m fd seq payload there v =
      handle_query_interfaces-IsOpen alloc _ (keeps true) m fd seq v payload
  dispatch_message-IsOpen query_published_topics m fd seq payload there v =
      handle_query_published_topics-IsOpen alloc _ (keeps true) m fd seq v payload

  on_writable-IsOpen :
      (m : Manager) (fd : ℕ)
      → IsOpen m
      → IsOpen (on_writable alloc default_timeout max_timeout sm_incarnation m fd)
  unfolding on_writable
  on_writable-IsOpen m fd v = elim (Option-cases (find fd m.clients)) [
    | inl h ↦ rw (h, on_writable) v
    | inr (c, h) ↦ elim (Option-cases (flush_pending_sends c)) [
      | inl s ↦ rw (h, s, on_writable) (keeps true nobody everybody m fd v)
      | inr (c', s) ↦
          rw (h, s, on_writable)
            (set_clients m v (insert fd c' m.clients)
              (λ f g. ground (arith, g, find-insert fd f c' m.clients)))
    ]
  ]

  serve-IsOpen :
      (m : Manager) (event : Event)
      → IsOpen m
      → IsOpen (serve alloc default_timeout max_timeout sm_incarnation m event)
  unfolding serve accept_client
  serve-IsOpen m (accepts fd answers) v = elim (Bool-cases (contains fd m.clients)) [
    | inl h ↦ rw (h, accept_client) v
    | inr h ↦
        rw (h, accept_client)
          (set_clients m v (insert fd (new_client answers) m.clients)
            (λ f g. ground (arith, g, find-insert fd f (new_client answers) m.clients)))
  ]
  serve-IsOpen m (receives fd request seq payload) v = elim (Bool-cases (contains fd m.clients)) [
    | inr h ↦ rw (h, serve) v
    | inl h ↦ rw (h, serve) (dispatch_message-IsOpen request m fd seq payload h v)
  ]
  serve-IsOpen m (writable fd) v = on_writable-IsOpen m fd v
  serve-IsOpen m (ends fd) v = keeps true nobody everybody m fd v

  run_from :
      (events : List Event) (m : Manager)
      → IsOpen m
      → IsOpen (serve_all alloc default_timeout max_timeout sm_incarnation m events)
  unfolding serve_all
  run_from [] m v = v
  run_from (event ∷ events) m v = run_from events _ (serve-IsOpen m event v)

  empty_manager-IsOpen : IsOpen empty_manager
  unfolding empty_manager empty_registry empty_topics empty_watches find_entry find
      omni_binder.OrderedMap.Nested.find2 omni_binder.Registry.History.run
      omni_binder.Topics.History.topic_run omni_binder.Watches.Matching.watch_run
  empty_manager-IsOpen = record {
    registry = run-IsSound [];
    topics = topic_run-IsConsistent [];
    watches = watch_run-IsWatched [];
    within = λ f h. refl;
    unheld = λ f h n k. refl;
    unlisted = λ f h n. (refl, refl);
    unwatching = λ f h n id. refl;
  }

  -- After any sequence of accepted connections, messages, deferred writes and closed connections, with
  -- any answers of the transports to the sends, from the start of the service manager: the registry,
  -- the topics and the watches are sound, and a connection that is not open holds no service instance,
  -- is in no index of the topics and watches nothing.
  pub serve_all-IsOpen :
      (events : List Event)
      → IsOpen (serve_all alloc default_timeout max_timeout sm_incarnation empty_manager events)
  serve_all-IsOpen events = run_from events empty_manager empty_manager-IsOpen
