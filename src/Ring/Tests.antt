-- ===== src/Ring/Tests.antt =====
-- The ring's theorems at a ring of 64 bytes whose positions are near its end, so that frames wrap.
use omni_binder.Prelude.{
  ℕ, ◌+◌, ◌%◌, ◌≡◌, refl, ◌≢◌, ◌≤◌, true, false, ◌&&◌, ◌||◌, List, [], ◌∷◌, ◌++◌, arith, ◌==◌, ltb,
  if◌then◌else◌, bytes32, some,
}
use omni_binder.Memory.{zeros}
use omni_binder.Ring.{
  Ring, send_frame, recv_frame, inspect_frame, check_length, length_prefix, available_read, unread,
  advance_pos, frame, nothing, failed,
}
use omni_binder.Ring.Bytes.{IsValid, used, contents}
use omni_binder.Ring.Send.{contents-send_frame}
use omni_binder.Ring.Receive.{recv_frame-IsValid, recv_frame-unchanged}
use omni_binder.Ring.Queue.{send, recv, sent, received, push, pop, run_queue, run_ring}
use omni_binder.Ring.Fifo.{Holds, send_refines, recv_refines, run_refines}
use omni_binder.Ring.Layout.{
  Mapping, is_valid_ring_capacity, calculate_shm_size, normalize_ring_capacity, align_up,
  validate_mapped_layout, init_layout, validate_mapped_layout-init_layout, layout_regions,
  control_size, request_ring_offset, ring_header_size, request_data_offset, response_ring_offset,
  ring_header_align, response_data_offset,
}

abbrev near_end : Ring
near_end = record { write_pos = 60; read_pos = 60; capacity = 64; bytes = zeros 64 }

near_end-IsValid : IsValid near_end 64
near_end-IsValid = record {
  large = omega arith;
  word = omega arith;
  trusted = refl;
  area = refl;
  write_in = omega arith;
  read_in = omega arith;
}

near_end-Holds : Holds near_end 64 []
unfolding used
near_end-Holds = record { valid = near_end-IsValid; frames = refl; sendable = tt }

run_refines_example :
    run_ring 64 true near_end
      (send (1 ∷ 2 ∷ 3 ∷ []) ∷ send (4 ∷ []) ∷ recv 2 ∷ recv 8 ∷ recv 8 ∷ recv 8 ∷ [])
    ≡ sent 7 true
      ∷ sent 5 false
      ∷ received failed
      ∷ received (frame (1 ∷ 2 ∷ 3 ∷ []))
      ∷ received (frame (4 ∷ []))
      ∷ received nothing
      ∷ []
unfolding run_queue push pop
run_refines_example =
    run_refines (send (1 ∷ 2 ∷ 3 ∷ []) ∷ send (4 ∷ []) ∷ recv 2 ∷ recv 8 ∷ recv 8 ∷ recv 8 ∷ [])
      near_end [] true near_end-Holds ((omega arith, omega arith), ((omega arith, omega arith), tt))

send_refines_example :
    let s = send_frame near_end 64 (1 ∷ 2 ∷ 3 ∷ []) true 60 in
    let (a, q') = push 64 true [] (1 ∷ 2 ∷ 3 ∷ []) in
    (sent s.written s.notified ≡ a) × Holds s.ring 64 q'
send_refines_example =
    send_refines near_end [] true (1 ∷ 2 ∷ 3 ∷ []) near_end-Holds (omega arith, omega arith)

one_frame-Holds :
    Holds (send_frame near_end 64 (1 ∷ 2 ∷ 3 ∷ []) true 60).ring 64 ((1 ∷ 2 ∷ 3 ∷ []) ∷ [])
unfolding push
one_frame-Holds =
    (send_refines near_end [] true (1 ∷ 2 ∷ 3 ∷ []) near_end-Holds (omega arith, omega arith)).1

recv_refines_example :
    let s = send_frame near_end 64 (1 ∷ 2 ∷ 3 ∷ []) true 60 in
    let (a, r') = recv_frame s.ring 64 8 in
    let (b, q') = pop ((1 ∷ 2 ∷ 3 ∷ []) ∷ []) 8 in (received a ≡ b) × Holds r' 64 q'
recv_refines_example =
    recv_refines (send_frame near_end 64 (1 ∷ 2 ∷ 3 ∷ []) true 60).ring ((1 ∷ 2 ∷ 3 ∷ []) ∷ []) 8
      one_frame-Holds

recv_frame-IsValid_example : IsValid (recv_frame near_end 64 8).1 64
recv_frame-IsValid_example = recv_frame-IsValid near_end 8 near_end-IsValid

-- Four bytes that are no length of a frame: the length is 0.
abbrev garbled : Ring
garbled = record { write_pos = 4; read_pos = 60; capacity = 64; bytes = zeros 64 }

garbled-IsValid : IsValid garbled 64
garbled-IsValid = record {
  large = omega arith;
  word = omega arith;
  trusted = refl;
  area = refl;
  write_in = omega arith;
  read_in = omega arith;
}

garbled-failed : (recv_frame garbled 64 8).0 ≡ failed
unfolding recv_frame inspect_frame check_length length_prefix available_read unread advance_pos
garbled-failed = refl

garbled-nothing : (f : List ℕ) → (recv_frame garbled 64 8).0 ≢ frame f
garbled-nothing f h = absurd (cc garbled-failed)

recv_frame-unchanged_example : (recv_frame garbled 64 8).1 ≡ garbled
recv_frame-unchanged_example = recv_frame-unchanged garbled 8 garbled-IsValid garbled-nothing

contents-send_frame_example :
    let s = send_frame near_end 64 (1 ∷ 2 ∷ 3 ∷ []) true 60 in
    let room = ltb (used near_end 64 + 7) 64 in
    IsValid s.ring 64
    × (contents s.ring 64 ≡ (
        if room
        then contents near_end 64 ++ (bytes32 3 ++ (1 ∷ 2 ∷ 3 ∷ []))
        else contents near_end 64))
    × (s.ring.read_pos ≡ near_end.read_pos)
    × (s.written ≡ (if room then 7 else 0))
    × (s.notified ≡ room && true && (used near_end 64 == 0 || 60 == near_end.write_pos))
contents-send_frame_example =
    contents-send_frame near_end (1 ∷ 2 ∷ 3 ∷ []) true 60 near_end-IsValid (omega arith)

abbrev new_mapping : Mapping
new_mapping = record {
  size = 8304;
  magic = 0;
  version = 0;
  req_ring_capacity = 0;
  resp_ring_capacity = 0;
  ready_flag = 0;
  header_at = λ _. record { write_pos = 0; read_pos = 0; capacity = 0 };
}

validate_mapped_layout-init_layout_example :
    validate_mapped_layout (init_layout new_mapping 4096 4096) ≡ some (4096, 4096)
unfolding is_valid_ring_capacity normalize_ring_capacity calculate_shm_size response_data_offset
    response_ring_offset request_data_offset request_ring_offset align_up
validate_mapped_layout-init_layout_example =
    validate_mapped_layout-init_layout new_mapping 4096 4096 refl refl (omega arith)

layout_regions_example :
    (control_size ≤ request_ring_offset)
    × (request_data_offset ≡ request_ring_offset + ring_header_size)
    × (request_data_offset + 65 ≤ response_ring_offset 65)
    × (request_ring_offset % ring_header_align ≡ 0)
    × (response_ring_offset 65 % ring_header_align ≡ 0)
    × (response_data_offset 65 ≡ response_ring_offset 65 + ring_header_size)
    × (calculate_shm_size 65 64 ≡ response_data_offset 65 + 64)
unfolding is_valid_ring_capacity
layout_regions_example = layout_regions 65 64 refl refl
