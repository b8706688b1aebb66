-- ===== src/Message/Stream/Buffered.antt =====
-- What readNextMessage does while frames are buffered.
use omni_binder.Prelude.{
  ℕ, ◌+◌, ◌-◌, ◌≤◌, ◌≡◌, refl, ap, ap₂, ◌∙◌, sym, false, Option, some, List, [], ◌∷◌, ◌++◌,
  append-nil, arith, ltb, ◌==◌, length, length-append, Bool-cases, inl, inr,
}
use omni_binder.Memory.{slice, slice-append, slice-slice, length-slice}
use omni_binder.Buffer.{Buffer, written, remaining, clear, assign, set_read_position, compact}
use omni_binder.Buffer.Growth.{IsValid}
use omni_binder.Buffer.Cursors.{unread-compact, written-assign, compact-IsValid}
use omni_binder.Message.{
  Header, Message, header_size, max_message_size, complete, try_extract_frame,
}
use omni_binder.Message.Frames.{encode, IsHeader, extract-encode_header, payload-encode}
use omni_binder.Message.Stream.{
  Answer, got, unread_bytes, next_frame, deliver, taken_payload, read_next,
}

-- The header as it is received.
abbrev pub received_header : Message → Header
received_header m = record m.header { length = length m.payload }

frame-size :
    (m : Message) (rest : List ℕ)
    → length (encode m ++ rest) ≡ header_size + length m.payload + length rest
frame-size m rest = omega (arith, length-append m.payload rest)

extract_first :
    (m : Message) (rest : List ℕ)
    → IsHeader m.header
    → length m.payload ≤ max_message_size - header_size
    → try_extract_frame (encode m ++ rest)
      ≡ complete (received_header m) (header_size + length m.payload)
extract_first m rest v small =
    extract-encode_header m.header (length m.payload) (m.payload ++ rest) v small
    ∙ ground (arith, length-append m.payload rest)

remaining_of :
    (b : Buffer) (m : Message) (rest : List ℕ)
    → unread_bytes b ≡ encode m ++ rest
    → remaining b ≡ header_size + length m.payload + length rest
remaining_of b m rest e =
    sym (length-slice b.storage b.read_pos (remaining b)) ∙ ap length e ∙ frame-size m rest

next_frame-encode :
    (b : Buffer) (m : Message) (rest : List ℕ)
    → IsHeader m.header
    → length m.payload ≤ max_message_size - header_size
    → unread_bytes b ≡ encode m ++ rest
    → next_frame b ≡ complete (received_header m) (header_size + length m.payload)
unfolding next_frame
next_frame-encode b m rest v small e = elim (Bool-cases (remaining b == 0)) [
  | inl t ↦ absurd (ground (arith, t, remaining_of b m rest e))
  | inr t ↦ rw (t, next_frame) (ap try_extract_frame e ∙ extract_first m rest v small)
]

-- What stands behind the frame.
behind :
    (b : Buffer) (m : Message) (rest : List ℕ)
    → unread_bytes b ≡ encode m ++ rest
    → slice b.storage (b.read_pos + (header_size + length m.payload)) (length rest) ≡ rest
behind b m rest e =
    let k = header_size + length m.payload in
    sym (
      slice-slice b.storage b.read_pos (remaining b) k (length rest)
        (omega (arith, remaining_of b m rest e)))
    ∙ ap (λ l. slice l k (length rest)) e
    ∙ ap₂ (λ l j. slice l j (length rest)) {u = k} {v = length (encode m)}
        (ap (λ l. encode m ++ l) (sym (append-nil rest))) (omega arith)
    ∙ slice-append (encode m) rest []

no_bytes : (l : List ℕ) → length l ≡ 0 → l ≡ []
no_bytes [] h = refl
no_bytes (x ∷ l) h = absurd (omega arith)

cut :
    (b : Buffer) (m : Message) (rest : List ℕ)
    → unread_bytes b ≡ encode m ++ rest
    → slice (unread_bytes b) header_size (length m.payload) ≡ m.payload
cut b m rest e = ap (λ l. slice l header_size (length m.payload)) e ∙ payload-encode m rest

within :
    (b : Buffer) (m : Message) (rest : List ℕ)
    → IsValid b
    → unread_bytes b ≡ encode m ++ rest
    → ltb b.write_pos (b.read_pos + (header_size + length m.payload)) ≡ false
unfolding remaining
within b m rest v e = ground (arith, remaining_of b m rest e, v.read_in)

cleared : (b : Buffer) → IsValid b → IsValid (clear b)
unfolding clear
cleared b v = record { read_in = omega arith; write_in = omega arith; fits = v.fits }

-- The buffer once the frame is passed.
abbrev passed : Buffer → Message → Buffer
passed b m = record b { read_pos = b.read_pos + (header_size + length m.payload) }

passed-IsValid :
    (b : Buffer) (m : Message) (rest : List ℕ)
    → IsValid b
    → unread_bytes b ≡ encode m ++ rest
    → IsValid (passed b m)
passed-IsValid b m rest v e = record {
  read_in = ground (arith, within b m rest v e);
  write_in = v.write_in;
  fits = v.fits;
}

left :
    (b : Buffer) (m : Message) (rest : List ℕ)
    → IsValid b
    → unread_bytes b ≡ encode m ++ rest
    → unread_bytes (compact (passed b m)) ≡ rest
unfolding remaining
left b m rest v e =
    unread-compact (passed b m) (passed-IsValid b m rest v e)
    ∙ ap (slice b.storage (b.read_pos + (header_size + length m.payload)))
        {x = b.write_pos - (b.read_pos + (header_size + length m.payload))} {y = length rest}
        (omega (arith, remaining_of b m rest e, v.read_in))
    ∙ behind b m rest e

module _ (alloc : ℕ → Option (List ℕ))
    (alloc_size : (n : ℕ) (block : List ℕ) → alloc n ≡ some block → length block ≡ n) where
  payload_taken :
      (b payload : Buffer) (m : Message) (rest : List ℕ)
      → IsValid payload
      → unread_bytes b ≡ encode m ++ rest
      → (assign alloc (clear payload) m.payload).failed ≡ false
      → let p = taken_payload alloc b payload (length m.payload) in
        (p.failed ≡ false) × IsValid p × (written p ≡ m.payload)
  unfolding taken_payload clear
  payload_taken b payload m rest v e memory = elim (Bool-cases (length m.payload == 0)) [
    | inl t ↦
        rw (t, taken_payload)
          (refl, cleared payload v, sym (no_bytes m.payload (ground (arith, t))))
    | inr t ↦
        let whole =
          written-assign alloc alloc_size (clear payload) m.payload (cleared payload v) memory in
        rw (t, cut b m rest e, taken_payload) (memory, whole.0, whole.1)
  ]

  delivered :
      (b payload : Buffer) (m : Message) (rest : List ℕ)
      → IsValid b
      → IsValid payload
      → unread_bytes b ≡ encode m ++ rest
      → (assign alloc (clear payload) m.payload).failed ≡ false
      → let o = deliver alloc b payload (received_header m) (header_size + length m.payload) in
        (o.status ≡ got)
        × (o.header ≡ received_header m)
        × (written o.payload ≡ m.payload)
        × (unread_bytes o.buffer ≡ rest)
        × IsValid o.buffer
        × IsValid o.payload
  unfolding deliver set_read_position taken_payload
  delivered b payload m rest v vp e memory =
      let p = payload_taken b payload m rest vp e memory in
      rw (p.0, within b m rest v e, deliver, set_read_position)
        (
          refl,
          refl,
          p.2,
          left b m rest v e,
          compact-IsValid (passed b m) (passed-IsValid b m rest v e),
          p.1,
        )

  -- Where a valid receive buffer begins with the encoding of a message, within the limit, whose header
  -- fields fit their widths, and there is memory for the payload: readNextMessage delivers that
  -- message, with its payload's length in the header, whatever the transport would answer, and just
  -- the bytes behind the message are left to read in a valid buffer.
  pub read_next-buffered :
      (answers : List Answer) (header : Header) (payload b : Buffer) (m : Message) (rest : List ℕ)
      → IsValid b
      → IsValid payload
      → IsHeader m.header
      → length m.payload ≤ max_message_size - header_size
      → unread_bytes b ≡ encode m ++ rest
      → (assign alloc (clear payload) m.payload).failed ≡ false
      → let o = read_next alloc answers header payload b in
        (o.status ≡ got)
        × (o.header ≡ received_header m)
        × (written o.payload ≡ m.payload)
        × (unread_bytes o.buffer ≡ rest)
        × IsValid o.buffer
        × IsValid o.payload
  unfolding read_next
  read_next-buffered [] header payload b m rest v vp vh small e memory =
      rw (next_frame-encode b m rest vh small e, read_next)
        (delivered b payload m rest v vp e memory)
  read_next-buffered (answer ∷ answers) header payload b m rest v vp vh small e memory =
      rw (next_frame-encode b m rest vh small e, read_next)
        (delivered b payload m rest v vp e memory)
