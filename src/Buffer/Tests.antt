-- ===== src/Buffer/Tests.antt =====
-- The buffer's theorems at a buffer of 16 bytes that has to grow.
use omni_binder.Prelude.{◌+◌, ◌≤◌, ◌≡◌, ◌≢◌, refl, true, false, arith, [], ◌∷◌}
use omni_binder.Memory.{zeros, allocate, allocate_size}
use omni_binder.Buffer.{Buffer, capacity, ensure_capacity, grow, double_until, ran_out, write_bytes}
use omni_binder.Memory.{slice}
use omni_binder.Buffer.{
  clear, reset, set_read_position, reserve, set_write_position, writable_tail, compact,
  commit_written, assign, written, remaining,
}
use omni_binder.Buffer.Cursors.{written-compact, cursors-IsValid, written-assign}
use omni_binder.Buffer.Growth.{IsValid, double_until-ne-ran_out, ensure_room}
use omni_binder.Buffer.Appends.{Appends, encode_bytes, write_bytes-Appends}

double_until-ne-ran_out_example : double_until 65 4096 10_000 ≢ ran_out
double_until-ne-ran_out_example = double_until-ne-ran_out 4096 10_000 (omega arith)

abbrev almost_full : Buffer
almost_full = record { storage = zeros 16; write_pos = 10; read_pos = 2; failed = false }

almost_full-IsValid : IsValid almost_full
almost_full-IsValid = record { read_in = omega arith; write_in = omega arith; fits = omega arith }

grows : (ensure_capacity allocate almost_full 10).0 ≡ true
unfolding ensure_capacity grow double_until
grows = refl

ensure_room_example : 10 + 10 ≤ capacity (ensure_capacity allocate almost_full 10).1
ensure_room_example = ensure_room allocate allocate_size almost_full 10 almost_full-IsValid grows

write_bytes-Appends_example :
    Appends (write_bytes allocate (1 ∷ 2 ∷ [])) (encode_bytes (1 ∷ 2 ∷ []))
write_bytes-Appends_example = write_bytes-Appends allocate allocate_size (1 ∷ 2 ∷ [])

written-compact_example :
    (written (compact almost_full) ≡ slice (zeros 16) 2 (remaining almost_full))
    × ((compact almost_full).read_pos ≡ 0)
    × (remaining (compact almost_full) ≡ remaining almost_full)
written-compact_example = written-compact almost_full almost_full-IsValid

cursors-IsValid_example :
    IsValid (clear almost_full)
    × IsValid (reset almost_full)
    × IsValid (set_read_position almost_full 20).1
    × IsValid (reserve allocate almost_full 20)
    × IsValid (set_write_position allocate almost_full 20)
    × IsValid (writable_tail allocate almost_full).1
    × IsValid (compact almost_full)
    × IsValid (commit_written almost_full 20).1
    × IsValid (assign allocate almost_full (7 ∷ []))
cursors-IsValid_example =
    cursors-IsValid allocate allocate_size almost_full 20 (7 ∷ []) almost_full-IsValid

fits : (assign allocate almost_full (1 ∷ 2 ∷ 3 ∷ [])).failed ≡ false
unfolding assign reserve clear
fits = refl

written-assign_example :
    IsValid (assign allocate almost_full (1 ∷ 2 ∷ 3 ∷ []))
    × (written (assign allocate almost_full (1 ∷ 2 ∷ 3 ∷ [])) ≡ 1 ∷ 2 ∷ 3 ∷ [])
    × ((assign allocate almost_full (1 ∷ 2 ∷ 3 ∷ [])).read_pos ≡ 0)
written-assign_example =
    written-assign allocate allocate_size almost_full (1 ∷ 2 ∷ 3 ∷ []) almost_full-IsValid fits
