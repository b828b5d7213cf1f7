-- ===== src/App/Manager/Broadcast.antt =====
-- What a broadcast does to the set of sockets, with and without other tasks in between.
use py_auth.Prelude.{
  ℕ, ◌≡◌, ◌≢◌, refl, Bool, true, false, not, ◌&&◌, List, [], ◌∷◌, ◌++◌, length, select, ◌==◌,
  if◌then◌else◌, arith, Bool-cases, inl, inr,
}
use mathlib.Core.List.{append_assoc, append-nil}
use py_auth.App.Manager.{
  Manager, has, disconnect, disconnect_all, Change, apply_changes, broadcast_loop, broadcast,
}

has-select_ne :
    (c x : ℕ) (xs : List ℕ) → has (select (λ y. not (y == c)) xs) x ≡ (not (c == x) && has xs x)
unfolding has select
has-select_ne c x [] = ground arith
has-select_ne c x (y ∷ xs) = ground (arith, has-select_ne c x xs)

has-disconnect :
    (c : ℕ) (m : Manager) (x : ℕ)
    → has (disconnect c m).clients x ≡ (not (c == x) && has m.clients x)
unfolding disconnect
has-disconnect c m x = has-select_ne c x m.clients

has-disconnect_all :
    (dead : List ℕ) (m : Manager) (x : ℕ)
    → has (disconnect_all dead m).clients x ≡ (has m.clients x && not (has dead x))
unfolding disconnect_all has
has-disconnect_all [] m x = ground arith
has-disconnect_all (c ∷ dead) m x =
    ground (arith, has-disconnect_all dead (disconnect c m) x, has-disconnect c m x)

-- With no other task in between, the loop sends to each yielded socket once and then drops those
-- that failed.
broadcast_loop_quiet :
    (alive : ℕ → Bool) (todo : List ℕ) (m : Manager) (dead sent : List ℕ)
    → broadcast_loop alive (length m.clients) todo [] m dead sent ≡ record {
      raised = false;
      manager = disconnect_all (dead ++ select (λ c. not (alive c)) todo) m;
      delivered = sent ++ select alive todo;
    }
unfolding broadcast_loop select apply_changes
broadcast_loop_quiet alive [] m dead sent = simp append-nil (ground arith)
broadcast_loop_quiet alive (c ∷ todo) m dead sent = elim (Bool-cases (alive c)) [
  | inl e ↦
      rw e (
        simp (broadcast_loop_quiet alive todo m dead (sent ++ c ∷ []), append_assoc) (ground arith))
  | inr e ↦
      rw e (
        simp (broadcast_loop_quiet alive todo m (dead ++ c ∷ []) sent, append_assoc) (ground arith))
]

has-select : (p : ℕ → Bool) (xs : List ℕ) (x : ℕ) → has (select p xs) x ≡ (has xs x && p x)
unfolding has select
has-select p [] x = refl
has-select p (y ∷ xs) x = ground (arith, has-select p xs x)

-- When no other task touches the set meanwhile, a broadcast does not raise, sends the message once
-- to every open socket, and afterwards the set holds exactly those whose send succeeded.
pub broadcast_quiet :
    (alive : ℕ → Bool) (m : Manager) (x : ℕ)
    → ((broadcast alive m.clients [] m).raised ≡ false)
      × ((broadcast alive m.clients [] m).delivered ≡ select alive m.clients)
      × (has (broadcast alive m.clients [] m).manager.clients x ≡ (has m.clients x && alive x))
unfolding broadcast
broadcast_quiet alive m x = rw (broadcast_loop_quiet alive m.clients m [] []) (
  refl,
  refl,
  ground (
    arith,
    has-disconnect_all (select (λ c. not (alive c)) m.clients) m x,
    has-select (λ c. not (alive c)) m.clients x,
  ),
)

-- When the set's size has changed by the end of the first send, as when another console connects
-- during it, the broadcast raises: nobody but the first socket has the message, and sockets that
-- failed stay in the set.
pub broadcast_interrupted :
    (alive : ℕ → Bool) (c : ℕ) (order : List ℕ) (during : List Change) (later : List (List Change))
    (m : Manager)
    → length (apply_changes during m).clients ≢ length m.clients
    → broadcast alive (c ∷ order) (during ∷ later) m ≡ record {
      raised = true;
      manager = apply_changes during m;
      delivered = if alive c then c ∷ [] else [];
    }
unfolding broadcast broadcast_loop
broadcast_interrupted alive c [] during later m h = ground arith
broadcast_interrupted alive c (d ∷ order) during later m h = ground arith
