-- ===== src/Client/Check/Clock.antt =====
-- The remaining time as it is shown.
use py_auth.Prelude.{ℕ, ◌+◌, ◌*◌, ◌≤◌, ◌<◌, ◌≡◌, arith}
use py_auth.Client.Cache.{AuthCache}
use py_auth.Client.Check.{left, format_remaining_time}

-- The days, hours and minutes shown fall short of the time that is left by less than a minute, with
-- fewer than 24 hours and 60 minutes.
pub format_remaining_time_bounds :
    (c : AuthCache) (now cached_at days hours minutes : ℕ)
    → format_remaining_time c now cached_at ≡ left days hours minutes
    → (hours < 24)
      × (minutes < 60)
      × (now + days * 86400000000 + hours * 3600000000 + minutes * 60000000
          ≤ cached_at + c.validity)
      × (cached_at + c.validity
          < now + days * 86400000000 + hours * 3600000000 + minutes * 60000000 + 60000000)
unfolding format_remaining_time
format_remaining_time_bounds c now cached_at days hours minutes h = ground arith
