-- ===== src/Message/Topic.antt =====
-- writeServiceIdentityPayload, writeTopicSubscriptionSelector and serializePublishedTopicsReply of
-- src/core/message.cpp, with their readers in include/omnibinder/message.h.
use omni_binder.Prelude.{
  ℕ, zero, suc, ◌+◌, ◌-◌, ◌/◌, ◌≤◌, ◌<◌, ◌≡◌, Bool, true, false, ◌&&◌, ◌||◌, not, Option, none,
  some, List, [], ◌∷◌, ◌++◌, ltb, leb, ◌==◌, if◌then◌else◌, length, u32_mod, arith, length-append,
  ◌∙◌, Option-cases, inl, inr,
}
use omni_binder.OrderedMap.Keys.{Name}
use omni_binder.Types.{
  max_service_name_length, max_topic_name_length, max_published_topics, max_published_topics_bytes,
  ServiceIdentity,
}
use omni_binder.Buffer.Appends.{Appends, encode_bytes, put_bytes, write_bytes-Appends}
use omni_binder.Reader.Decodes.{Decodes, Decodes-done, get_bytes, last_read, Decodes-bytes}
use omni_binder.Buffer.{
  Buffer, written, empty_buffer, write_uint8, write_uint32, write_bytes, write_raw, ◌andthen◌,
}
use omni_binder.Reader.{
  Reader, ◌>>=◌, ◌>>◌, done, check, rest_size, read_uint8, read_uint32, read_bytes,
}
use omni_binder.Message.Items.{write_each}

abbrev pub topic_sub_mode_service : ℕ
topic_sub_mode_service = 1

abbrev pub topic_sub_mode_instance : ℕ
topic_sub_mode_instance = 2

pub record Selector : Type 0 where
  pub mode : ℕ
  pub publisher_service : Name
  pub host_id : Name
  pub instance_id : Name

-- The loop of serializePublishedTopicsReply that looks at the topics; `total` is aggregate_bytes.
pub are_sendable : ℕ → List Name → Bool
are_sendable total [] = true
are_sendable total (topic ∷ topics) =
    let rest = are_sendable (total + length topic) topics in
    if length topic == 0
      || ltb max_topic_name_length (length topic)
      || ltb (max_published_topics_bytes - total) (length topic)
    then false
    else rest

-- A Boolean on the wire.
abbrev pub bool_byte : Bool → ℕ
bool_byte true = 1
bool_byte false = 0

module _ (alloc : ℕ → Option (List ℕ)) where
  pub write_service_identity : ServiceIdentity → Buffer → Bool × Buffer
  write_service_identity i =
      ◌andthen◌ alloc (write_bytes alloc i.name)
        (◌andthen◌ alloc (write_bytes alloc i.host_id) (write_bytes alloc i.instance_id))

  pub write_selector : Selector → Buffer → Bool × Buffer
  write_selector s b =
      if ltb topic_sub_mode_instance s.mode
      then (false, b)
      else ◌andthen◌ alloc (write_uint8 alloc s.mode)
          (◌andthen◌ alloc
            (λ b.
              if leb topic_sub_mode_service s.mode
              then write_bytes alloc s.publisher_service b
              else (true, b))
            (λ b.
              if s.mode == topic_sub_mode_instance
              then ◌andthen◌ alloc (write_bytes alloc s.host_id) (write_bytes alloc s.instance_id) b
              else (true, b)))
          b

  -- The count and the topics, of a service that was found.
  pub write_topics : Bool → List Name → Buffer → Bool × Buffer
  write_topics found topics b =
      if found
      then ◌andthen◌ alloc (write_uint32 alloc (length topics))
          (write_each alloc (write_bytes alloc) topics) b
      else (true, b)

  -- Into a buffer of its own first, then into `b`.
  pub serialize_published_topics : Bool → List Name → Buffer → Bool × Buffer
  serialize_published_topics found topics b =
      let (ok, encoded) =
        ◌andthen◌ alloc (write_uint8 alloc (bool_byte found)) (write_topics found topics)
          empty_buffer in
      if ltb max_published_topics (length topics) || (not found && not (length topics == 0))
      then (false, b)
      else if not (are_sendable 0 topics)
      then (false, b)
      else if not ok
      then (false, b)
      else write_raw alloc (written encoded) b

unfoldable pub is_identity : ServiceIdentity → Bool
is_identity i =
    not (length i.name == 0)
    && not (ltb max_service_name_length (length i.name))
    && not (ltb max_service_name_length (length i.host_id))
    && not (ltb max_service_name_length (length i.instance_id))

pub read_identity_fields : Reader ServiceIdentity
read_identity_fields = do
  name ← read_bytes
  host_id ← read_bytes
  instance_id ← read_bytes
  done (record { name = name; host_id = host_id; instance_id = instance_id })

pub read_service_identity : Reader ServiceIdentity
read_service_identity = do
  i ← read_identity_fields
  rest ← rest_size
  check (is_identity i && rest == 0)
  done i

-- A string that the mode has not is left empty.
optional_bytes : Bool → Reader Name
optional_bytes b block pos = if b then read_bytes block pos else some ([], pos)

pub read_selector : Reader Selector
read_selector = do
  mode ← read_uint8
  check (not (ltb topic_sub_mode_instance mode))
  service ← optional_bytes (leb topic_sub_mode_service mode)
  host ← optional_bytes (mode == topic_sub_mode_instance)
  instance_id ← optional_bytes (mode == topic_sub_mode_instance)
  done (record {
    mode = mode;
    publisher_service = service;
    host_id = host;
    instance_id = instance_id;
  })

-- The loop that reads the topics; `total` is aggregate_bytes.
unfoldable pub read_topics : ℕ → ℕ → Reader (List Name)
read_topics total zero = done []
read_topics total (suc n) = do
  topic ← read_bytes
  check (
      not (length topic == 0)
      && not (ltb max_topic_name_length (length topic))
      && not (ltb (max_published_topics_bytes - total) (length topic)))
  topics ← read_topics (total + length topic) n
  done (topic ∷ topics)

-- The topics of a service that was found. Memory for them is taken as there.
unfoldable pub read_found : Bool → Reader (List Name)
read_found false = done []
read_found true = do
  count ← read_uint32
  rest ← rest_size
  check (not (ltb max_published_topics count) && not (ltb (rest / 4) count))
  read_topics 0 count

unfoldable pub deserialize_published_topics : Reader (Bool × List Name)
deserialize_published_topics = do
  byte ← read_uint8
  topics ← read_found (not (byte == 0))
  rest ← rest_size
  check (rest == 0)
  done (not (byte == 0), topics)

abbrev pub encode_identity : ServiceIdentity → List ℕ
encode_identity i = encode_bytes i.name ++ (encode_bytes i.host_id ++ encode_bytes i.instance_id)

identity-Decodes :
    (i : ServiceIdentity)
    → length i.name < u32_mod
    → length i.host_id < u32_mod
    → length i.instance_id < u32_mod
    → Decodes read_identity_fields (encode_identity i) i
unfolding read_identity_fields
identity-Decodes i hn hh hi = get_bytes i.name _ _ hn (
    get_bytes i.host_id _ _ hh (
      last_read read_bytes _ (encode_bytes i.instance_id) i.instance_id i
        (Decodes-bytes i.instance_id hi) (Decodes-done i)))

-- The reader once the strings are read.
checked_identity :
    (i : ServiceIdentity) (block : List ℕ) (pos next : ℕ)
    → is_identity i ≡ true
    → read_identity_fields block pos ≡ some (i, next)
    → read_service_identity block pos
      ≡ (if (length block - next) == 0 then some (i, next) else none)
unfolding read_service_identity
checked_identity i block pos next v e = ground arith

module _ (alloc : ℕ → Option (List ℕ))
    (alloc_size : (n : ℕ) (block : List ℕ) → alloc n ≡ some block → length block ≡ n) where
  -- For an identity with a name that is not empty and no string longer than 256 bytes: writing the
  -- identity appends its encoding if it succeeds, and where that encoding stands at the end of a
  -- payload it is read as the identity, while more bytes behind it make the reader refuse it.
  pub service_identity_roundtrip :
      (i : ServiceIdentity) (pre rest : List ℕ)
      → is_identity i ≡ true
      → Appends (write_service_identity alloc i) (encode_identity i)
        × (read_service_identity (pre ++ (encode_identity i ++ rest)) (length pre) ≡ (
            if length rest == 0 then some (i, length pre + length (encode_identity i)) else none))
  unfolding write_service_identity read_service_identity is_identity
  service_identity_roundtrip i pre rest v = (
    put_bytes alloc alloc_size i.name _ _ (
        put_bytes alloc alloc_size i.host_id _ _
          (write_bytes-Appends alloc alloc_size i.instance_id)),
    checked_identity i (pre ++ (encode_identity i ++ rest)) (length pre)
          (length pre + length (encode_identity i)) v
          ((identity-Decodes i (ground arith) (ground arith) (ground arith)).reads_back pre rest)
        ∙ ground (
          arith,
          length-append pre (encode_identity i ++ rest),
          length-append (encode_identity i) rest,
        ),
  )

-- A list of topics that a reply may hold, after topics of `total` bytes.
pub IsBounded : ℕ → List Name → Type 0
IsBounded total [] = total ≤ max_published_topics_bytes
IsBounded total (topic ∷ topics) =
    (0 < length topic)
    × (length topic ≤ max_topic_name_length)
    × IsBounded (total + length topic) topics

read_topics-IsBounded :
    (total n : ℕ) (block : List ℕ) (pos : ℕ) (topics : List Name) (next : ℕ)
    → total ≤ max_published_topics_bytes
    → read_topics total n block pos ≡ some (topics, next)
    → (length topics ≡ n) × IsBounded total topics
unfolding read_topics IsBounded
read_topics-IsBounded total zero block pos topics next h e = ground arith
read_topics-IsBounded total (suc n) block pos topics next h e =
    elim (Option-cases (read_bytes block pos)) [
      | inl t ↦ ground arith
      | inr ((topic, p), t) ↦ elim (Option-cases (read_topics (total + length topic) n block p)) [
        | inl u ↦ ground arith
        | inr ((ts, q), u) ↦
            let ih = read_topics-IsBounded (total + length topic) n block p ts q in
            ground (arith, ih)
      ]
    ]

read_found-IsBounded :
    (found : Bool) (block : List ℕ) (pos : ℕ) (topics : List Name) (next : ℕ)
    → read_found found block pos ≡ some (topics, next)
    → (length topics ≤ max_published_topics) × IsBounded 0 topics
unfolding read_found IsBounded
read_found-IsBounded false block pos topics next e = ground arith
read_found-IsBounded true block pos topics next e = elim (Option-cases (read_uint32 block pos)) [
  | inl t ↦ ground arith
  | inr ((n, p), t) ↦
      let back = read_topics-IsBounded 0 n block p topics next in ground (arith, back)
]

-- Whatever the payload: a published-topics reply that is accepted has at most 4096 topics, each of 1 to
-- 256 bytes and all together of at most 524288 bytes.
pub published_topics-IsBounded :
    (block : List ℕ) (pos : ℕ) (found : Bool) (topics : List Name) (next : ℕ)
    → deserialize_published_topics block pos ≡ some ((found, topics), next)
    → (length topics ≤ max_published_topics) × IsBounded 0 topics
unfolding deserialize_published_topics
published_topics-IsBounded block pos found topics next e =
    elim (Option-cases (read_uint8 block pos)) [
      | inl t ↦ ground arith
      | inr ((byte, p), t) ↦ elim (Option-cases (read_found (not (byte == 0)) block p)) [
        | inl u ↦ ground arith
        | inr ((ts, q), u) ↦
            let back = read_found-IsBounded (not (byte == 0)) block p ts q u in ground (arith, back)
      ]
    ]
