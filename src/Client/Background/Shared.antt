-- ===== src/Client/Background/Shared.antt =====
-- auth_client.py: the shared pool of threads.
use py_auth.Prelude.{
  ℕ, zero, suc, ◌≡◌, ◌≢◌, ◌<◌, ◌≤◌, Option, none, some, List, [], ◌∷◌, arith, refl, All,
}
use py_auth.Prelude.Distinct.{All-mono}
use py_auth.Client.Background.{
  Pool, Pools, worker_count, get_auth_background_executor, Shutdown, accepted, accepted_without,
  raises, shutdown_auth_background_executor,
}

abbrev pub fresh_pools : Pools
fresh_pools = record { current = none; next = 0; shut = [] }

-- the states that any sequence of calls leads to in which no shutdown raises
pub data Reach : Pools → Type 0 where
  begun : Reach fresh_pools
  got :
      {p : Pools}
      → Reach p
      → (processors : Option ℕ) → Reach (get_auth_background_executor processors p).1
  shut_down :
      {p : Pools}
      → Reach p
      → (s : Shutdown) → s ≢ raises
      → Reach (shutdown_auth_background_executor s p)

abbrev pub IsOpen : Option Pool → Pools → Type 0
IsOpen none p = Unit
IsOpen (some pool) p =
    (pool.serial < p.next)
    × All (λ s. s ≢ pool.serial) p.shut
    × (4 ≤ pool.workers)
    × (pool.workers ≤ 32)

-- the pool is not shut down, and all numbers are below the next
record IsSound (p : Pools) : Type 0 where
  is_open : IsOpen p.current p
  below : All (λ s. s < p.next) p.shut

worker_count_bounds : (n : Option ℕ) → (4 ≤ worker_count n) × (worker_count n ≤ 32)
unfolding worker_count
worker_count_bounds none = omega arith
worker_count_bounds (some zero) = omega arith
worker_count_bounds (some (suc n)) = omega arith

ne_of_below : (n : ℕ) (xs : List ℕ) → All (λ s. s < n) xs → All (λ s. s ≢ n) xs
ne_of_below n xs = All-mono (λ s. s < n) (λ s. s ≢ n) xs (λ s h e. absurd (omega arith))

below_suc : (n : ℕ) (xs : List ℕ) → All (λ s. s < n) xs → All (λ s. s < suc n) xs
below_suc n xs = All-mono (λ s. s < n) (λ s. s < suc n) xs (λ s h. omega arith)

created-IsOpen :
    (processors : Option ℕ) (next : ℕ) (shut : List ℕ)
    → All (λ s. s < next) shut
    → let pool : Pool = record { serial = next; workers = worker_count processors } in
      IsOpen (some pool) (record { current = some pool; next = suc next; shut = shut })
created-IsOpen processors next shut below = (
  omega arith,
  ne_of_below next shut below,
  (worker_count_bounds processors).0,
  (worker_count_bounds processors).1,
)

get-IsSound :
    (processors : Option ℕ) (current : Option Pool) (next : ℕ) (shut : List ℕ)
    → let p : Pools = record { current = current; next = next; shut = shut } in
      IsSound p
      → IsSound (get_auth_background_executor processors p).1
        × IsOpen
            (some (get_auth_background_executor processors p).0)
            (get_auth_background_executor processors p).1
unfolding get_auth_background_executor
get-IsSound processors (some pool) next shut v = (v, v.is_open)
get-IsSound processors none next shut v =
    let created = created-IsOpen processors next shut v.below in
    (record { is_open = created; below = below_suc next shut v.below }, created)

-- a sound state with its pool shut down
closed-IsSound :
    (pool : Pool) (next : ℕ) (shut : List ℕ)
    → IsSound (record { current = some pool; next = next; shut = shut })
    → IsSound (record { current = none; next = next; shut = pool.serial ∷ shut })
closed-IsSound pool next shut v = record { is_open = tt; below = (v.is_open.0, v.below) }

shutdown-IsSound :
    (s : Shutdown) (current : Option Pool) (next : ℕ) (shut : List ℕ)
    → let p : Pools = record { current = current; next = next; shut = shut } in
      IsSound p → s ≢ raises → IsSound (shutdown_auth_background_executor s p)
unfolding shutdown_auth_background_executor
shutdown-IsSound raises current next shut v h = absurd (h refl)
shutdown-IsSound accepted none next shut v h = v
shutdown-IsSound accepted (some pool) next shut v h = closed-IsSound pool next shut v
shutdown-IsSound accepted_without none next shut v h = v
shutdown-IsSound accepted_without (some pool) next shut v h = closed-IsSound pool next shut v

Reach-IsSound : {p : Pools} → Reach p → IsSound p
Reach-IsSound begun = record { is_open = tt; below = tt }
Reach-IsSound (got {p} r processors) =
    (get-IsSound processors p.current p.next p.shut (Reach-IsSound r)).0
Reach-IsSound (shut_down {p} r s h) = shutdown-IsSound s p.current p.next p.shut (Reach-IsSound r) h

-- what is there is given, and nothing changes
get_again :
    (processors : Option ℕ) (again : Option ℕ) (current : Option Pool) (next : ℕ) (shut : List ℕ)
    → let p : Pools = record { current = current; next = next; shut = shut } in
      get_auth_background_executor again (get_auth_background_executor processors p).1
      ≡ get_auth_background_executor processors p
unfolding get_auth_background_executor
get_again processors again none next shut = refl
get_again processors again (some pool) next shut = refl

-- Whatever was called before, as long as no shutdown raised, the pool that is handed out was not shut
-- down and has 4 to 32 threads, and the next call, without a shutdown in between, hands out the same
-- pool.
pub get_auth_background_executor-IsOpen :
    {p : Pools}
    → Reach p
    → (processors : Option ℕ) (again : Option ℕ)
    → IsOpen
        (some (get_auth_background_executor processors p).0)
        (get_auth_background_executor processors p).1
      × (get_auth_background_executor again (get_auth_background_executor processors p).1
          ≡ get_auth_background_executor processors p)
get_auth_background_executor-IsOpen {p} r processors again = (
  (get-IsSound processors p.current p.next p.shut (Reach-IsSound r)).1,
  get_again processors again p.current p.next p.shut,
)
