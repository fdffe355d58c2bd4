-- ===== src/Server/Lifecycle.antt =====
-- The connections of `Server` of src/pymod/server.py: `start`, `_on_client` around its loop, and `stop`.
-- A step is what runs between two awaits, so that the steps of the handlers and of `stop`
-- interleave. A connection is the number of its writer, and its task has the same number. One `stop`
-- runs at a time.
pub mod Limit
pub mod Stop
pub mod Progress
pub mod Calm
pub mod Runs
use pymod.Prelude.{ℕ, ◌≡◌, leb, Bool, true, false, List, [], ◌∷◌, length, ◌==◌, if◌then◌else◌, All}
use pymod.Errors.{Result, ok, value_error, guard, ◌>>◌}

-- Where `stop` is: not running, waiting for the writers, or waiting for the tasks that it cancelled.
pub data Phase : Type 0 where
  serving awaiting_writers : Phase
  awaiting_tasks : List ℕ → Phase

pub record Listener : Type 0 where
  pub max_connections : ℕ
  pub listening : Bool
  pub connections : List ℕ
  pub client_tasks : List ℕ
  -- The handlers that have not come to their end, and those that `cancel` was called on.
  pub running : List ℕ
  pub cancelled : List ℕ
  pub phase : Phase

-- `Server.__init__`
unfoldable pub new_listener : ℕ → Result Listener
new_listener limit = do
  guard (leb 1 limit) value_error
  ok (record {
    max_connections = limit;
    listening = false;
    connections = [];
    client_tasks = [];
    running = [];
    cancelled = [];
    phase = serving;
  })

abbrev pub active_connections : Listener → ℕ
active_connections s = length s.connections

-- `w in s`
abbrev pub is_in : ℕ → List ℕ → Bool
is_in w [] = false
is_in w (x ∷ xs) = if x == w then true else is_in w xs

-- `s.discard(w)`
unfoldable pub discard : ℕ → List ℕ → List ℕ
discard w [] = []
discard w (x ∷ xs) = let rest = discard w xs in if x == w then rest else x ∷ rest

-- `start`
unfoldable pub start : Listener → Listener
start s = record {
  max_connections = s.max_connections;
  listening = true;
  connections = s.connections;
  client_tasks = s.client_tasks;
  running = s.running;
  cancelled = s.cancelled;
  phase = s.phase;
}

-- The head of `_on_client`: above the limit the writer is only closed.
unfoldable pub accept : ℕ → Listener → Listener
accept w s = if leb s.max_connections (length s.connections) then s else record {
  max_connections = s.max_connections;
  listening = s.listening;
  connections = w ∷ s.connections;
  client_tasks = w ∷ s.client_tasks;
  running = w ∷ s.running;
  cancelled = s.cancelled;
  phase = s.phase;
}

-- The `finally` of `_on_client`, with which the handler's task is done.
unfoldable pub release : ℕ → Listener → Listener
unfolding discard
release w s = record {
  max_connections = s.max_connections;
  listening = s.listening;
  connections = discard w s.connections;
  client_tasks = discard w s.client_tasks;
  running = discard w s.running;
  cancelled = s.cancelled;
  phase = s.phase;
}

-- `stop` up to its first await.
unfoldable pub drop_connections : Listener → Listener
drop_connections s = record {
  max_connections = s.max_connections;
  listening = s.listening;
  connections = [];
  client_tasks = s.client_tasks;
  running = s.running;
  cancelled = s.cancelled;
  phase = awaiting_writers;
}

-- The tasks that are not done: `cancel` is called on each of them.
unfoldable pub undone : List ℕ → List ℕ → List ℕ
undone running [] = []
undone running (w ∷ ws) = let rest = undone running ws in if is_in w running then w ∷ rest else rest

-- The tasks of this moment are cancelled, and all of them are awaited from here on.
unfoldable pub cancel_tasks : Listener → Listener
unfolding undone
cancel_tasks s = record {
  max_connections = s.max_connections;
  listening = s.listening;
  connections = s.connections;
  client_tasks = s.client_tasks;
  running = s.running;
  cancelled = undone s.running s.client_tasks;
  phase = awaiting_tasks s.client_tasks;
}

-- The rest of `stop`, once these tasks are done.
unfoldable pub shut_down : Listener → Listener
shut_down s = record {
  max_connections = s.max_connections;
  listening = false;
  connections = s.connections;
  client_tasks = [];
  running = s.running;
  cancelled = s.cancelled;
  phase = serving;
}

-- One step of the event loop. A handler ends when its client leaves or its loop fails, and when it was
-- cancelled; a connection has a new number.
pub data Step (s : Listener) : Listener → Type 0 where
  starts : s.listening ≡ false → Step s (start s)
  connects :
      (w : ℕ)
      → s.listening ≡ true
      → is_in w s.connections ≡ false
      → is_in w s.client_tasks ≡ false
      → is_in w s.running ≡ false
      → is_in w s.cancelled ≡ false
      → Step s (accept w s)
  ends : (w : ℕ) → is_in w s.running ≡ true → Step s (release w s)
  aborts : (w : ℕ) → is_in w s.running ≡ true → is_in w s.cancelled ≡ true → Step s (release w s)
  stops : s.phase ≡ serving → Step s (drop_connections s)
  cancels : s.phase ≡ awaiting_writers → Step s (cancel_tasks s)
  shuts :
      (tasks : List ℕ)
      → s.phase ≡ awaiting_tasks tasks
      → All (λ w. is_in w s.running ≡ false) tasks
      → Step s (shut_down s)

-- The states that a new server gets to.
pub data Reach (limit : ℕ) : Listener → Type 0 where
  begins : (s : Listener) → new_listener limit ≡ ok s → Reach limit s
  moves : (s t : Listener) → Reach limit s → Step s t → Reach limit t
