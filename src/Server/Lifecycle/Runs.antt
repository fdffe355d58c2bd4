-- ===== src/Server/Lifecycle/Runs.antt =====
-- A server for one connection, and the theorems on its life.
use pymod.Prelude.{◌≡◌, refl, true, false, [], ◌∷◌}
use pymod.Errors.{ok}
use pymod.Server.Lifecycle.{
  Listener, serving, new_listener, start, accept, starts, connects, Reach, begins, moves, discard,
  release, drop_connections, cancel_tasks, shut_down, cancels, shuts, aborts, undone,
}
use pymod.Server.Lifecycle.Stop.{stays, goes, IsStopped}
use pymod.Server.Lifecycle.Calm.{CalmReach, CalmReach-IsStopped}
use pymod.Server.Lifecycle.Limit.{IsBounded, Reach-IsBounded}

-- A server for one connection, to which a second one comes while it has the first.
abbrev fresh : Listener
fresh = record {
  max_connections = 1;
  listening = false;
  connections = [];
  client_tasks = [];
  running = [];
  cancelled = [];
  phase = serving;
}

fresh_made : new_listener 1 ≡ ok fresh
unfolding new_listener
fresh_made = refl

abbrev crowded : Listener
crowded = record {
  max_connections = 1;
  listening = true;
  connections = 7 ∷ [];
  client_tasks = 7 ∷ [];
  running = 7 ∷ [];
  cancelled = [];
  phase = serving;
}

abbrev opened : Listener
opened = record {
  max_connections = 1;
  listening = true;
  connections = [];
  client_tasks = [];
  running = [];
  cancelled = [];
  phase = serving;
}

crowded_reached : Reach 1 crowded
unfolding start accept
crowded_reached =
    moves crowded crowded
      (moves opened crowded (moves fresh opened (begins fresh fresh_made) (starts refl))
        (connects 7 refl refl refl refl refl))
      (connects 8 refl refl refl refl refl)

Reach-IsBounded_example : IsBounded 1 crowded
Reach-IsBounded_example = Reach-IsBounded 1 crowded crowded_reached

crowded_calmly : CalmReach 1 crowded
unfolding start accept
crowded_calmly =
    CalmReach.moves opened crowded
      (CalmReach.moves fresh opened (CalmReach.begins fresh fresh_made) (starts refl) tt)
      (connects 7 refl refl refl refl refl) refl

CalmReach-IsStopped_example :
    IsStopped (shut_down (release 7 (cancel_tasks (drop_connections crowded))))
unfolding drop_connections cancel_tasks undone release shut_down discard
CalmReach-IsStopped_example =
    let a : Listener = drop_connections crowded in
    let b : Listener = cancel_tasks a in
    let c : Listener = release 7 b in
    CalmReach-IsStopped 1 crowded (shut_down c) crowded_calmly refl
      (goes c (shut_down c) (goes b c (goes a b stays (cancels refl) tt) (aborts 7 refl refl) tt)
        (shuts (7 ∷ []) refl (refl, tt)) tt)
      refl
