-- ===== src/Ring/Layout.antt =====
-- The layout of a shared-memory channel: a control block, then for each direction the header of a
-- ring and its data. A `Mapping` is the memory with the control block and the headers as their
-- fields, each header at its offset. Writes to it are whole when the ready flag is set.
use omni_binder.Prelude.{
  ℕ, ◌+◌, ◌-◌, ◌*◌, ◌/◌, ◌%◌, ◌≤◌, ◌<◌, ◌≡◌, Bool, true, ◌&&◌, ◌||◌, not, Option, none, some, ltb,
  leb, ◌==◌, if◌then◌else◌, arith, size_mod,
}
use omni_binder.Ring.{min_ring_capacity}

-- sizeof(ShmControlBlock), sizeof(ShmRingHeader) and alignof(ShmRingHeader)
abbrev pub control_size : ℕ
control_size = 48

abbrev pub ring_header_size : ℕ
ring_header_size = 16

abbrev pub ring_header_align : ℕ
ring_header_align = 4

abbrev pub shm_magic : ℕ
shm_magic = 0x53484D42

unfoldable pub align_up : ℕ → ℕ → ℕ
align_up value alignment = ((value + alignment - 1) % size_mod / alignment) * alignment

unfoldable pub request_ring_offset : ℕ
request_ring_offset = align_up control_size ring_header_align

unfoldable pub request_data_offset : ℕ
request_data_offset = request_ring_offset + ring_header_size

unfoldable pub response_ring_offset : ℕ → ℕ
response_ring_offset req = align_up ((request_data_offset + req) % size_mod) ring_header_align

unfoldable pub response_data_offset : ℕ → ℕ
response_data_offset req = (response_ring_offset req + ring_header_size) % size_mod

unfoldable pub is_valid_ring_capacity : ℕ → Bool
is_valid_ring_capacity capacity = leb min_ring_capacity capacity && leb capacity 4_294_967_295

unfoldable pub normalize_ring_capacity : ℕ → ℕ
normalize_ring_capacity capacity =
    if capacity == 0
    then min_ring_capacity
    else if ltb capacity min_ring_capacity
    then min_ring_capacity
    else capacity

unfoldable pub calculate_shm_size : ℕ → ℕ → ℕ
calculate_shm_size req resp =
    let req = normalize_ring_capacity req in
    let resp = normalize_ring_capacity resp in
    if not (is_valid_ring_capacity req) || not (is_valid_ring_capacity resp)
    then 0
    else if ltb (size_mod - 1 - resp) (response_data_offset req)
    then 0
    else response_data_offset req + resp

pub record RingHeader : Type 0 where
  pub write_pos : ℕ
  pub read_pos : ℕ
  pub capacity : ℕ

pub record Mapping : Type 0 where
  pub size : ℕ
  pub magic : ℕ
  pub version : ℕ
  pub req_ring_capacity : ℕ
  pub resp_ring_capacity : ℕ
  pub ready_flag : ℕ
  pub header_at : ℕ → RingHeader

put_header : ℕ → RingHeader → (ℕ → RingHeader) → ℕ → RingHeader
put_header offset h headers n = if n == offset then h else headers n

abbrev pub fresh_header : ℕ → RingHeader
fresh_header capacity = record { write_pos = 0; read_pos = 0; capacity = capacity }

pub init_layout : Mapping → ℕ → ℕ → Mapping
init_layout m req resp = if m.size == 0 then m else record {
  size = m.size;
  magic = shm_magic;
  version = 1;
  req_ring_capacity = req;
  resp_ring_capacity = resp;
  ready_flag = 1;
  header_at =
      put_header (response_ring_offset req) (fresh_header resp)
        (put_header request_ring_offset (fresh_header req) (λ _. fresh_header 0));
}

pub is_usable : RingHeader → ℕ → Bool
is_usable h capacity =
    h.capacity == capacity && not (leb h.capacity h.read_pos) && not (leb h.capacity h.write_pos)

-- The two capacities, of a mapping that is accepted.
pub validate_mapped_layout : Mapping → Option (ℕ × ℕ)
validate_mapped_layout m =
    let req = m.req_ring_capacity in
    let resp = m.resp_ring_capacity in
    if ltb m.size control_size
    then none
    else if not (m.magic == shm_magic) || not (m.version == 1) || not (m.ready_flag == 1)
    then none
    else if calculate_shm_size req resp == 0 || ltb m.size (calculate_shm_size req resp)
    then none
    else if not (is_usable (m.header_at request_ring_offset) req)
        || not (is_usable (m.header_at (response_ring_offset req)) resp)
    then none
    else some (req, resp)

-- The parts of a layout stand behind each other: for two capacities that are in range the control block,
-- the request header, the request data, the response header and the response data do not overlap,
-- both headers are aligned, and the size is the end of the last part.
pub layout_regions :
    (req resp : ℕ)
    → is_valid_ring_capacity req ≡ true
    → is_valid_ring_capacity resp ≡ true
    → (control_size ≤ request_ring_offset)
      × (request_data_offset ≡ request_ring_offset + ring_header_size)
      × (request_data_offset + req ≤ response_ring_offset req)
      × (request_ring_offset % ring_header_align ≡ 0)
      × (response_ring_offset req % ring_header_align ≡ 0)
      × (response_data_offset req ≡ response_ring_offset req + ring_header_size)
      × (calculate_shm_size req resp ≡ response_data_offset req + resp)
unfolding request_ring_offset request_data_offset response_ring_offset response_data_offset align_up
    is_valid_ring_capacity normalize_ring_capacity calculate_shm_size
layout_regions req resp hr hs = ground arith

layout_facts :
    (req resp : ℕ)
    → is_valid_ring_capacity req ≡ true
    → is_valid_ring_capacity resp ≡ true
    → (control_size < calculate_shm_size req resp)
      × (request_ring_offset < response_ring_offset req)
      × (0 < req)
      × (0 < resp)
unfolding request_ring_offset request_data_offset response_ring_offset response_data_offset align_up
    is_valid_ring_capacity normalize_ring_capacity calculate_shm_size
layout_facts req resp hr hs = ground arith

-- A mapping that is large enough for two capacities in range is accepted, with those capacities,
-- once it is laid out for them.
pub validate_mapped_layout-init_layout :
    (m : Mapping) (req resp : ℕ)
    → is_valid_ring_capacity req ≡ true
    → is_valid_ring_capacity resp ≡ true
    → calculate_shm_size req resp ≤ m.size
    → validate_mapped_layout (init_layout m req resp) ≡ some (req, resp)
unfolding validate_mapped_layout init_layout is_usable put_header
validate_mapped_layout-init_layout m req resp hr hs fits =
    let facts = layout_facts req resp hr hs in ground (arith, facts)
