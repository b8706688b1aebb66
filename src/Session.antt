-- ===== src/Session.antt =====
-- include/omnibinder/types.h: what two ends of a session agree on, and the key of a session. The
-- products are of 64 bits and cannot wrap.
mod Tests
use omni_binder.Prelude.{
  ℕ, ◌*◌, ◌≤◌, ◌<◌, ◌≡◌, ◌⊎◌, not, ◌&&◌, ◌∷◌, ◌++◌, ltb, ◌==◌, if◌then◌else◌, min, arith, u32_mod,
}
use omni_binder.OrderedMap.Keys.{Name}

abbrev pub default_heartbeat_interval : ℕ
default_heartbeat_interval = 3000

abbrev pub default_heartbeat_timeout : ℕ
default_heartbeat_timeout = 10_000

abbrev pub min_heartbeat_interval_ms : ℕ
min_heartbeat_interval_ms = 100

abbrev pub heartbeat_missed_factor : ℕ
heartbeat_missed_factor = 3

pub clamp_heartbeat_interval : ℕ → ℕ
clamp_heartbeat_interval interval =
    if interval == 0
    then default_heartbeat_interval
    else if ltb interval min_heartbeat_interval_ms
    then min_heartbeat_interval_ms
    else interval

-- effective, up to the limits of the server and of the width.
wanted_timeout : ℕ → ℕ → ℕ
wanted_timeout interval requested =
    let lowest = interval * heartbeat_missed_factor in
    let effective = if requested == 0 then lowest else requested in
    let effective =
      if requested == 0 && ltb effective default_heartbeat_timeout
      then default_heartbeat_timeout
      else effective in
    if ltb effective lowest then lowest else effective

pub negotiate_session_timeout : ℕ → ℕ → ℕ → ℕ
negotiate_session_timeout interval requested max_timeout =
    let effective = wanted_timeout interval requested in
    let effective =
      if not (max_timeout == 0) && ltb max_timeout effective then max_timeout else effective in
    let effective = if ltb 4_294_967_295 effective then 4_294_967_295 else effective in
    if effective == 0 then 1 else effective

pub make_runtime_session_key : Name → Name → Name
make_runtime_session_key host_id runtime_id = host_id ++ 31 ∷ runtime_id

-- The agreed timeout is at least 1 and below 2^32, it is within the server's limit where there is one
-- (0 says that there is none), and it is at least three of the sender's intervals, or the limit, or
-- 2^32 - 1, whichever is least.
pub negotiate_session_timeout-bounds :
    (interval requested max_timeout : ℕ)
    → (1 ≤ negotiate_session_timeout interval requested max_timeout)
      × (negotiate_session_timeout interval requested max_timeout < u32_mod)
      × ((max_timeout ≡ 0)
          ⊎ (negotiate_session_timeout interval requested max_timeout ≤ max_timeout))
      × (min
            (interval * 3)
            (if max_timeout == 0 then 4_294_967_295 else min max_timeout 4_294_967_295)
          ≤ negotiate_session_timeout interval requested max_timeout)
unfolding negotiate_session_timeout wanted_timeout
negotiate_session_timeout-bounds interval requested max_timeout = ground arith
