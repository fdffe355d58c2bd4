-- ===== src/Server/Lifecycle/Calm.antt =====
-- The runs of src/pymod/server.py in which no connection comes while `stop` waits, and the handlers' tasks
-- in them.
use pymod.Prelude.{
  ℕ, ◌≡◌, refl, sym, ap, arith, Bool-cases, inl, inr, true, List, leb, length, ◌==◌,
}
use mathlib.Core.Path.{subst}
use pymod.Errors.{ok, err, bind_ok, guard, value_error}
use pymod.Server.Lifecycle.Limit.{idle}
use pymod.Server.Lifecycle.{
  Listener, Phase, serving, awaiting_writers, awaiting_tasks, new_listener, is_in, start, accept,
  release, drop_connections, cancel_tasks, shut_down, Step, starts, connects, ends, aborts, stops,
  cancels, shuts,
}
use pymod.Server.Lifecycle.Stop.{
  QuietRun, IsStopped, drop_connections-IsStopped, Within, discard_in, discard-Within, none_left,
}

abbrev pub IsCalm : (s t : Listener) → Step s t → Type 0
IsCalm s t (connects w l hc ht hr hx) = s.phase ≡ serving
IsCalm s t _ = Unit

pub data CalmReach (limit : ℕ) : Listener → Type 0 where
  begins : (s : Listener) → new_listener limit ≡ ok s → CalmReach limit s
  moves :
      (s t : Listener) → CalmReach limit s → (step : Step s t) → IsCalm s t step → CalmReach limit t

-- Where each running handler has its task: in the set, and among the awaited ones while `stop` awaits.
abbrev Tracked : Listener → Phase → Type 0
Tracked s serving = Within s.running s.client_tasks
Tracked s awaiting_writers = Within s.running s.client_tasks
Tracked s (awaiting_tasks tasks) = Within s.running tasks

release-Tracked : (w : ℕ) (s : Listener) (p : Phase) → Tracked s p → Tracked (release w s) p
unfolding release
release-Tracked w s serving h = discard-Within w s.running s.client_tasks h
release-Tracked w s awaiting_writers h = discard-Within w s.running s.client_tasks h
release-Tracked w s (awaiting_tasks tasks) h = λ v i. h v (discard_in v w s.running i)

start-Tracked : (s : Listener) (p : Phase) → Tracked s p → Tracked (start s) p
unfolding start
start-Tracked s serving h = h
start-Tracked s awaiting_writers h = h
start-Tracked s (awaiting_tasks tasks) h = h

accept-Tracked :
    (w : ℕ) (s : Listener)
    → s.phase ≡ serving
    → Tracked s serving
    → Tracked (accept w s) (accept w s).phase
unfolding accept
accept-Tracked w s e h = elim (Bool-cases (leb s.max_connections (length s.connections))) [
  | inl y ↦ rw y (subst (Tracked s) (sym e) h)
  | inr n ↦
      rw (n, e)
        (λ v i. elim (Bool-cases (w == v)) [
          | inl y ↦ rw y refl
          | inr m ↦ rw m (h v (ground (arith, i)))
        ])
]

Step-Tracked :
    (s t : Listener) (step : Step s t) → IsCalm s t step → Tracked s s.phase → Tracked t t.phase
unfolding start drop_connections cancel_tasks shut_down release
Step-Tracked s t (starts e) q h = start-Tracked s s.phase h
Step-Tracked s t (connects w l hc ht hr hx) q h = accept-Tracked w s q (subst (Tracked s) q h)
Step-Tracked s t (ends w i) q h = release-Tracked w s s.phase h
Step-Tracked s t (aborts w i c) q h = release-Tracked w s s.phase h
Step-Tracked s t (stops e) q h = subst (Tracked s) e h
Step-Tracked s t (cancels e) q h = subst (Tracked s) e h
Step-Tracked s t (shuts tasks e done) q h =
    let none = none_left s.running tasks (subst (Tracked s) e h) done in
    λ w i. ground (arith, subst (λ (l : List ℕ). is_in w l ≡ true) none i)

-- In every state that a server gets to in this way, each running handler has its task in its set or, while
-- `stop` awaits tasks, among these.
CalmReach-Tracked : (limit : ℕ) (s : Listener) → CalmReach limit s → Tracked s s.phase
unfolding new_listener
CalmReach-Tracked limit s (begins _ e) =
    let (u, p, k) = bind_ok (guard (leb 1 limit) value_error) (λ x. ok (idle limit)) s e in
    subst (λ (x : Listener). Tracked x x.phase) (ap (λ r. elim r [ ok x ↦ x | err x ↦ s ]) k)
      (λ w i. i)
CalmReach-Tracked limit t (moves s _ run step q) =
    Step-Tracked s t step q (CalmReach-Tracked limit s run)

-- If no connection came while an earlier `stop` waited, and none comes and the server is not started again
-- while this one waits: once it is over, the listener is closed, there is no connection and no task, and
-- no handler runs.
pub CalmReach-IsStopped :
    (limit : ℕ) (s t : Listener)
    → CalmReach limit s
    → s.phase ≡ serving
    → QuietRun (drop_connections s) t
    → t.phase ≡ serving
    → IsStopped t
CalmReach-IsStopped limit s t reach e run p =
    drop_connections-IsStopped s t (subst (Tracked s) e (CalmReach-Tracked limit s reach)) run p
