-- ===== src/App/Manager.antt =====
-- app/ws_manager.py: the set of open sockets of the admin console. A socket is a number.
-- `broadcast` awaits one `send_json` after the other, and other tasks run meanwhile. Python's set
-- iterator raises `RuntimeError` at its next step once the size of the set has changed, so the
-- changes that other tasks make during each await are an argument, and so is the order in which
-- the iterator yields the sockets.
pub mod Broadcast
use py_auth.Prelude.{
  ℕ, Bool, true, false, not, ◌||◌, List, [], ◌∷◌, ◌++◌, length, select, ◌==◌, if◌then◌else◌,
}

pub record Manager : Type 0 where
  pub clients : List ℕ

unfoldable pub has : List ℕ → ℕ → Bool
has [] c = false
has (x ∷ xs) c = (x == c) || has xs c

-- `_clients.add`
unfoldable pub connect : ℕ → Manager → Manager
unfolding has
connect c m = if has m.clients c then m else record m { clients = m.clients ++ c ∷ [] }

-- `_clients.discard`
unfoldable pub disconnect : ℕ → Manager → Manager
unfolding select
disconnect c m = record m { clients = select (λ x. not (x == c)) m.clients }

-- what another task does to the set during an await
pub data Change : Type 0 where
  joins : ℕ → Change
  leaves : ℕ → Change

unfoldable pub apply_changes : List Change → Manager → Manager
unfolding connect disconnect
apply_changes [] m = m
apply_changes (joins c ∷ rest) m = apply_changes rest (connect c m)
apply_changes (leaves c ∷ rest) m = apply_changes rest (disconnect c m)

-- `for client in dead: self.disconnect(client)`
unfoldable pub disconnect_all : List ℕ → Manager → Manager
unfolding disconnect
disconnect_all [] m = m
disconnect_all (c ∷ dead) m = disconnect_all dead (disconnect c m)

-- How a broadcast ends: whether it raised, the set that it leaves, and who got the message.
pub record Outcome : Type 0 where
  pub raised : Bool
  pub manager : Manager
  pub delivered : List ℕ

abbrev pub this_turn : List (List Change) → List Change
this_turn [] = []
this_turn (t ∷ ts) = t

abbrev pub later_turns : List (List Change) → List (List Change)
later_turns [] = []
later_turns (t ∷ ts) = ts

-- The loop of `broadcast`. `alive c` is whether `send_json` to `c` succeeds, `size` is the size of
-- the set when the iterator was made, and the list that is matched is what it has yet to yield.
unfoldable pub broadcast_loop :
    (ℕ → Bool) → ℕ → List ℕ → List (List Change) → Manager → List ℕ → List ℕ → Outcome
unfolding disconnect_all apply_changes
broadcast_loop alive size [] turns m dead sent =
    if length m.clients == size
    then record { raised = false; manager = disconnect_all dead m; delivered = sent }
    else record { raised = true; manager = m; delivered = sent }
broadcast_loop alive size (c ∷ todo) turns m dead sent =
    let next =
      broadcast_loop alive size todo (later_turns turns) (apply_changes (this_turn turns) m)
        (if alive c then dead else dead ++ c ∷ []) (if alive c then sent ++ c ∷ [] else sent) in
    if length m.clients == size
    then next
    else record { raised = true; manager = m; delivered = sent }

unfoldable pub broadcast : (ℕ → Bool) → List ℕ → List (List Change) → Manager → Outcome
unfolding broadcast_loop
broadcast alive order turns m = broadcast_loop alive (length m.clients) order turns m [] []
