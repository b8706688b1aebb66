-- ===== src/Session/Tests.antt =====
-- The negotiation at a short interval and a limit.
use omni_binder.Prelude.{ℕ, ◌*◌, ◌≤◌, ◌<◌, ◌≡◌, ◌⊎◌, ◌==◌, if◌then◌else◌, min, u32_mod}
use omni_binder.Session.{negotiate_session_timeout, negotiate_session_timeout-bounds}

negotiate_session_timeout-bounds_example :
    (1 ≤ negotiate_session_timeout 4000 0 9000)
    × (negotiate_session_timeout 4000 0 9000 < u32_mod)
    × ((◌≡◌ {A = ℕ} 9000 0) ⊎ (negotiate_session_timeout 4000 0 9000 ≤ 9000))
    × (min (4000 * 3) (if 9000 == 0 then 4_294_967_295 else min 9000 4_294_967_295)
        ≤ negotiate_session_timeout 4000 0 9000)
negotiate_session_timeout-bounds_example = negotiate_session_timeout-bounds 4000 0 9000
