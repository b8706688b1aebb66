-- ===== src/Manager/Served.antt =====
-- The handlers of sm_topic.cpp, of service watches and of sessions, in the same way.
use omni_binder.Prelude.{
  ℕ, ◌≡◌, true, false, Option, List, [], ◌∷◌, Bool-cases, Option-cases, inl, inr,
}
use omni_binder.OrderedMap.{contains}
use omni_binder.OrderedMap.Keys.{Name, number_key, name_key}
use omni_binder.Types.{ServiceInfo, max_topic_name_length}
use omni_binder.Registry.{find_service_by_fd_and_name}
use omni_binder.Topics.Publishers.{register_publisher}
use omni_binder.Topics.Subscribers.{add_subscriber}
use omni_binder.Topics.Queries.{PublisherView}
use omni_binder.Topics.Operations.{
  register_publisher-IsConsistent, remove_publisher_of-IsConsistent,
}
use omni_binder.Topics.Subscriptions.{add_subscriber-IsConsistent, remove_subscription-IsConsistent}
use omni_binder.Manager.{Manager, next_sequence}
use omni_binder.Manager.Alive.{Keeps}
use omni_binder.Manager.Parts.{IsOpen, set_topics, other_fd}
use omni_binder.Manager.Unlisted.{
  register_publisher-Unlisted, remove_publisher_of-Unlisted, add_subscriber-Unlisted,
  remove_subscription-Unlisted,
}
use omni_binder.Manager.Handled.{sent, replied}
use omni_binder.Manager.Topical.{
  read_publication, is_serializable, owned_by, send_topic_publisher_notify, notify_subscribers,
  publish_topic, handle_publish_topic, handle_unpublish_topic, read_exact_string,
  send_subscribe_topic_reply, notify_subscriber, parse_subscribe_topic_request,
  handle_subscribe_topic, handle_unsubscribe_topic,
}

module _ (alloc : ℕ → Option (List ℕ)) (close : Manager → ℕ → Manager) (keeps : Keeps close) where
  send_topic_publisher_notify-IsOpen :
      (fd : ℕ) (topic : Name) (info : ServiceInfo) (idl_hash : ℕ) (m : Manager)
      → IsOpen m
      → IsOpen (send_topic_publisher_notify alloc close fd topic info idl_hash m)
  unfolding send_topic_publisher_notify next_sequence
  send_topic_publisher_notify-IsOpen fd topic info idl_hash m v =
      elim (Bool-cases (contains fd m.clients)) [
        | inr h ↦ rw (h, send_topic_publisher_notify) v
        | inl h ↦ elim (Bool-cases (is_serializable info)) [
          | inr s ↦ rw (h, s, send_topic_publisher_notify) v
          | inl s ↦
              rw (h, s, send_topic_publisher_notify)
                (sent alloc close keeps (next_sequence m) fd _ v)
        ]
      ]

  notify_subscribers-IsOpen :
      (fds : List ℕ) (topic : Name) (info : ServiceInfo) (idl_hash : ℕ) (m : Manager)
      → IsOpen m
      → IsOpen (notify_subscribers alloc close fds topic info idl_hash m)
  unfolding notify_subscribers
  notify_subscribers-IsOpen [] topic info idl_hash m v = v
  notify_subscribers-IsOpen (fd ∷ fds) topic info idl_hash m v =
      notify_subscribers-IsOpen fds topic info idl_hash
        (send_topic_publisher_notify alloc close fd topic info idl_hash m)
        (send_topic_publisher_notify-IsOpen fd topic info idl_hash m v)

  notify_subscriber-IsOpen :
      (fd : ℕ) (topic : Name) (views : List PublisherView) (m : Manager)
      → IsOpen m
      → IsOpen (notify_subscriber alloc close fd topic views m)
  unfolding notify_subscriber
  notify_subscriber-IsOpen fd topic [] m v = v
  notify_subscriber-IsOpen fd topic (view ∷ views) m v =
      notify_subscriber-IsOpen fd topic views
        (send_topic_publisher_notify alloc close fd topic view.info view.idl_hash m)
        (send_topic_publisher_notify-IsOpen fd topic view.info view.idl_hash m v)

  publish_topic-IsOpen :
      (m : Manager) (fd seq : ℕ) (topic : Name) (info : ServiceInfo) (idl_hash : ℕ)
      → contains fd m.clients ≡ true
      → IsOpen m
      → IsOpen (publish_topic alloc close m fd seq topic info idl_hash)
  unfolding publish_topic
  publish_topic-IsOpen m fd seq topic info idl_hash there v =
      let r = register_publisher m.topics topic info fd idl_hash in
      let m' : Manager = record m { topics = r.1 } in
      let w = replied alloc close keeps m' fd 0x0031 seq r.0 (
        set_topics m v r.1
          (register_publisher-IsConsistent m.topics topic info fd idl_hash v.topics)
          (λ f g u.
            register_publisher-Unlisted f m.topics topic info fd idl_hash
              (other_fd fd f m.clients there g) u)) in
      elim (Bool-cases r.0) [
        | inr h ↦ rw (h, publish_topic) (rw h at w)
        | inl h ↦
            rw (h, publish_topic) (notify_subscribers-IsOpen _ topic info idl_hash _ (rw h at w))
      ]

  pub handle_publish_topic-IsOpen :
      (m : Manager) (fd seq : ℕ) (payload : List ℕ)
      → contains fd m.clients ≡ true
      → IsOpen m
      → IsOpen (handle_publish_topic alloc close m fd seq payload)
  unfolding handle_publish_topic
  handle_publish_topic-IsOpen m fd seq payload there v =
      elim (Option-cases (read_publication payload 0)) [
        | inl p ↦ rw (p, handle_publish_topic) (replied alloc close keeps m fd 0x0031 seq false v)
        | inr (((topic, info, idl_hash), next), p) ↦
            elim (Option-cases (find_service_by_fd_and_name m.registry fd info.name)) [
              | inl h ↦
                  rw (p, h, handle_publish_topic)
                    (replied alloc close keeps m fd 0x0031 seq false v)
              | inr (owner, h) ↦
                  rw (p, h, handle_publish_topic)
                    (publish_topic-IsOpen m fd seq topic (owned_by owner info) idl_hash there v)
            ]
      ]

  pub handle_unpublish_topic-IsOpen :
      (m : Manager) (fd : ℕ) (payload : List ℕ)
      → IsOpen m
      → IsOpen (handle_unpublish_topic alloc close m fd payload)
  unfolding handle_unpublish_topic
  handle_unpublish_topic-IsOpen m fd payload v =
      elim (Option-cases (read_exact_string max_topic_name_length payload 0)) [
        | inl p ↦ rw (p, handle_unpublish_topic) v
        | inr ((topic, next), p) ↦
            rw (p, handle_unpublish_topic)
              (set_topics m v _ (remove_publisher_of-IsConsistent m.topics topic fd v.topics)
                (λ f g u. remove_publisher_of-Unlisted f m.topics topic fd u))
      ]

  pub handle_subscribe_topic-IsOpen :
      (m : Manager) (fd seq : ℕ) (payload : List ℕ)
      → contains fd m.clients ≡ true
      → IsOpen m
      → IsOpen (handle_subscribe_topic alloc close m fd seq payload)
  unfolding handle_subscribe_topic send_subscribe_topic_reply
  handle_subscribe_topic-IsOpen m fd seq payload there v =
      elim (Option-cases (parse_subscribe_topic_request payload 0)) [
        | inl p ↦ rw (p, handle_subscribe_topic) (sent alloc close keeps m fd _ v)
        | inr (((topic, selector), next), p) ↦
            let r = add_subscriber m.topics topic selector fd in
            rw (p, handle_subscribe_topic)
              (notify_subscriber-IsOpen fd topic _ _ (
                sent alloc close keeps (record m { topics = r.1 }) fd _
                  (set_topics m v r.1
                    (add_subscriber-IsConsistent m.topics topic selector fd v.topics)
                    (λ f g u.
                      add_subscriber-Unlisted f m.topics topic selector fd
                        (other_fd fd f m.clients there g) u))))
      ]

  pub handle_unsubscribe_topic-IsOpen :
      (m : Manager) (fd : ℕ) (payload : List ℕ)
      → IsOpen m
      → IsOpen (handle_unsubscribe_topic alloc close m fd payload)
  unfolding handle_unsubscribe_topic
  handle_unsubscribe_topic-IsOpen m fd payload v =
      elim (Option-cases (parse_subscribe_topic_request payload 0)) [
        | inl p ↦ rw (p, handle_unsubscribe_topic) v
        | inr (((topic, selector), next), p) ↦
            rw (p, handle_unsubscribe_topic)
              (set_topics m v _
                (remove_subscription-IsConsistent m.topics topic selector fd v.topics)
                (λ f g u. remove_subscription-Unlisted f m.topics topic selector fd u))
      ]
