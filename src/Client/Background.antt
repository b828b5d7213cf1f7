-- ===== src/Client/Background.antt =====
-- client/python/py_auth_client/auth_client.py: the pool of threads that all clients share, the refresh
-- in the background with its callback, and what the program is told of the cache. A pool is its
-- serial number and its number of threads; `max_workers` is what the number of processors gives.
pub mod Shared
use py_auth.Prelude.{
  ℕ, zero, suc, ◌+◌, ◌-◌, ◌/◌, min, max, String, Bool, true, false, ◌&&◌, ◌||◌, Option, none, some,
  List, [], ◌∷◌, ◌++◌, if◌then◌else◌, ◌is◌, leb,
}
use py_auth.Json.{Json, str}
use py_auth.Client.Storage.{Library}
use py_auth.Client.Cache.{AuthCache, File, get_cache, is_cache_valid, needs_check}
use py_auth.Client.Check.{CheckResult, can_soft_launch}

pub record Pool : Type 0 where
  pub serial : ℕ
  pub workers : ℕ

-- `_background_auth_executor`, the serial number of the next pool, and the pools that were shut down
pub record Pools : Type 0 where
  pub current : Option Pool
  pub next : ℕ
  pub shut : List ℕ

-- the number of threads; `processors` is `os.cpu_count()`
unfoldable pub worker_count : Option ℕ → ℕ
worker_count none = max 4 (min 32 (2 + 4))
worker_count (some zero) = max 4 (min 32 (2 + 4))
worker_count (some (suc n)) = max 4 (min 32 (suc n + 4))

-- `get_auth_background_executor`
unfoldable pub get_auth_background_executor : Option ℕ → Pools → Pool × Pools
unfolding worker_count
get_auth_background_executor processors p = elim p.current [
  | some pool ↦ (pool, p)
  | none ↦
      let pool : Pool = record { serial = p.next; workers = worker_count processors } in
      (pool, record p { current = some pool; next = suc p.next })
]

-- what the call of `shutdown` does: it takes `cancel_futures`, or raises a `TypeError` for it and is
-- called again without it, or raises a `RuntimeError` because one of the pool's own threads, in which
-- `on_done` runs, waits for itself; by then `shutdown` has marked the pool as shut down
pub data Shutdown : Type 0 where
  accepted : Shutdown
  accepted_without : Shutdown
  raises : Shutdown

-- `shutdown_auth_background_executor`; after an exception the pool, shut down, is still the current one
unfoldable pub shutdown_auth_background_executor : Shutdown → Pools → Pools
shutdown_auth_background_executor raises p = elim p.current [
  | none ↦ p
  | some pool ↦ record p { shut = pool.serial ∷ p.shut }
]
shutdown_auth_background_executor accepted p = elim p.current [
  | none ↦ p
  | some pool ↦ record p { current = none; shut = pool.serial ∷ p.shut }
]
shutdown_auth_background_executor accepted_without p = elim p.current [
  | none ↦ p
  | some pool ↦ record p { current = none; shut = pool.serial ∷ p.shut }
]

-- What a check in the background gives: a result, or an exception with its text.
pub data Outcome : Type 0 where
  result : CheckResult → Outcome
  exception : String → Outcome

abbrev pub failure : String → CheckResult
failure text = record {
  authorized = false;
  message = str text;
  success = false;
  from_cache = false;
}

-- The calls that `_cb` makes of `on_done`, in order. `raised` is the text of the exception that
-- `on_done` raises for a result, if it raises one; the second call is outside the `try`.
unfoldable pub callback : (CheckResult → Option String) → Outcome → List CheckResult
callback raised (exception text) = failure text ∷ []
callback raised (result r) = elim (raised r) [ none ↦ r ∷ [] | some text ↦ r ∷ failure text ∷ [] ]

-- `start_background_refresh`: whether the program may start at once, and the calls of `on_done`, if
-- there is one, when the check in the background is done
unfoldable pub start_background_refresh :
    Library
    → AuthCache
    → ℕ
    → File
    → Option (CheckResult → Option String)
    → Outcome
    → Bool × List CheckResult
unfolding can_soft_launch callback
start_background_refresh lib c now file on_done outcome = (
  can_soft_launch lib c now file,
  elim on_done [ none ↦ [] | some raised ↦ callback raised outcome ],
)

-- how long ago a time is, or how far in the future
pub data Age : Type 0 where
  ago : ℕ → Age
  ahead : ℕ → Age

abbrev pub age : ℕ → ℕ → Age
age now cached_at = if leb cached_at now then ago (now - cached_at) else ahead (cached_at - now)

-- `get_cache_info`; `last_success_at` is the same as `cached_at`, the age is in the unit of the clock and
-- not in days, and the path of the file and the constants `authorized` and `message` are left out
pub record CacheInfo : Type 0 where
  pub cached_at : ℕ
  pub cache_age : Age
  pub cache_valid : Bool
  pub needs_check : Bool

unfoldable pub get_cache_info : Library → AuthCache → ℕ → File → Option CacheInfo
unfolding get_cache is_cache_valid needs_check
get_cache_info lib c now file = elim (get_cache lib c file) [
  | none ↦ none
  | some cached_at ↦ some (record {
    cached_at = cached_at;
    cache_age = age now cached_at;
    cache_valid = is_cache_valid lib c now file;
    needs_check = needs_check lib c now file;
  })
]

-- `check_authorization` of the module, of the result of the client that it constructs
unfoldable pub check_authorization_once : CheckResult → Bool
check_authorization_once r = r.authorized && r.success
