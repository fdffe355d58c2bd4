-- ===== src/Server/Lifecycle/Stop.antt =====
-- What `stop` of src/pymod/server.py leaves behind when no connection comes while it waits.
use pymod.Prelude.{
  ℕ, ◌≡◌, ◌≢◌, refl, ap, arith, true, false, Bool-cases, inl, inr, List, [], ◌∷◌, ◌==◌, All,
}
use mathlib.Core.Path.{subst}
use pymod.Server.Lifecycle.{
  Listener, Phase, serving, awaiting_writers, awaiting_tasks, is_in, discard, release,
  drop_connections, cancel_tasks, shut_down, Step, starts, connects, ends, aborts, stops, cancels,
  shuts,
}
use pymod.Server.Lifecycle.Limit.{is_in-discard}

-- A step that neither starts the server nor brings a connection.
abbrev pub IsQuiet : (s t : Listener) → Step s t → Type 0
IsQuiet s t (starts e) = true ≡ false
IsQuiet s t (connects w l hc ht hr hx) = true ≡ false
IsQuiet s t _ = Unit

-- The states that quiet steps lead to from `s`: the ends of handlers, and `stop`.
pub data QuietRun (s : Listener) : Listener → Type 0 where
  stays : QuietRun s s
  goes : (t u : Listener) → QuietRun s t → (step : Step t u) → IsQuiet t u step → QuietRun s u

-- A step of `stop`, or the end of a handler that it cancelled: no client needs to leave for these.
abbrev pub IsOwn : (s t : Listener) → Step s t → Type 0
IsOwn s t (aborts w i c) = Unit
IsOwn s t (cancels e) = Unit
IsOwn s t (shuts tasks e h) = Unit
IsOwn s t _ = true ≡ false

pub data OwnRun (s : Listener) : Listener → Type 0 where
  rests : OwnRun s s
  steps : (t u : Listener) → OwnRun s t → (step : Step t u) → IsOwn t u step → OwnRun s u

-- All of these are among those.
abbrev pub Within : List ℕ → List ℕ → Type 0
Within xs ys = (w : ℕ) → is_in w xs ≡ true → is_in w ys ≡ true

-- Nothing is open, and no handler runs.
abbrev pub IsStopped : Listener → Type 0
IsStopped s =
    (s.listening ≡ false) × (s.connections ≡ []) × (s.client_tasks ≡ []) × (s.running ≡ [])

pub discard_in : (w v : ℕ) (xs : List ℕ) → is_in w (discard v xs) ≡ true → is_in w xs ≡ true
discard_in w v xs h = elim (Bool-cases (is_in w xs)) [
  | inl y ↦ y
  | inr n ↦ ground (arith, is_in-discard v w xs n)
]

pub is_in-discard_self : (w : ℕ) (xs : List ℕ) → is_in w (discard w xs) ≡ false
unfolding discard
is_in-discard_self w [] = refl
is_in-discard_self w (x ∷ xs) = elim (Bool-cases (x == w)) [
  | inl y ↦ rw y (is_in-discard_self w xs)
  | inr n ↦ rw (n, n) (is_in-discard_self w xs)
]

discard_other : (w v : ℕ) (xs : List ℕ) → w ≢ v → is_in w xs ≡ true → is_in w (discard v xs) ≡ true
unfolding discard
discard_other w v [] ne h = h
discard_other w v (x ∷ xs) ne h = ground (arith, discard_other w v xs ne)

pub discard-Within : (v : ℕ) (xs ys : List ℕ) → Within xs ys → Within (discard v xs) (discard v ys)
discard-Within v xs ys h w i = elim (Bool-cases (w == v)) [
  | inl y ↦
      let e : w ≡ v = ground arith in
      ground (arith, subst (λ (x : ℕ). is_in x (discard v xs) ≡ true) e i, is_in-discard_self v xs)
  | inr n ↦ discard_other w v ys (ground arith) (h w (discard_in w v xs i))
]

AreDone-lookup :
    (running awaited : List ℕ)
    → All (λ w. is_in w running ≡ false) awaited
    → (w : ℕ) → is_in w awaited ≡ true
    → is_in w running ≡ false
AreDone-lookup running [] h w i = ground arith
AreDone-lookup running (v ∷ vs) (h, hs) w i = elim (Bool-cases (v == w)) [
  | inl y ↦ subst (λ (x : ℕ). is_in x running ≡ false) {x = v} {y = w} (ground arith) h
  | inr n ↦ AreDone-lookup running vs hs w (ground arith)
]

pub none_left :
    (running awaited : List ℕ)
    → Within running awaited
    → All (λ w. is_in w running ≡ false) awaited
    → running ≡ []
none_left [] awaited h done = refl
none_left (x ∷ xs) awaited h done =
    let here : is_in x (x ∷ xs) ≡ true = ground arith in
    let there = AreDone-lookup (x ∷ xs) awaited done x (h x here) in
    absurd (ground (arith, here, there))

-- What holds of the handlers in each phase after `stop` began.
abbrev Accounted : Listener → Phase → Type 0
Accounted s serving = IsStopped s
Accounted s awaiting_writers = (s.connections ≡ []) × Within s.running s.client_tasks
Accounted s (awaiting_tasks tasks) = (s.connections ≡ []) × Within s.running tasks

release-Accounted : (w : ℕ) (s : Listener) (p : Phase) → Accounted s p → Accounted (release w s) p
unfolding release discard
release-Accounted w s serving (off, c, t, r) =
    (off, ap (discard w) c, ap (discard w) t, ap (discard w) r)
release-Accounted w s awaiting_writers (c, h) =
    (ap (discard w) c, discard-Within w s.running s.client_tasks h)
release-Accounted w s (awaiting_tasks tasks) (c, h) =
    (ap (discard w) c, λ v i. h v (discard_in v w s.running i))

at_phase : (s : Listener) (p : Phase) → s.phase ≡ p → Accounted s s.phase → Accounted s p
at_phase s p e h = subst (Accounted s) e h

Step-Accounted :
    (s t : Listener) (step : Step s t)
    → IsQuiet s t step
    → Accounted s s.phase
    → Accounted t t.phase
unfolding drop_connections cancel_tasks shut_down release
Step-Accounted s t (starts e) q h = absurd (ground (arith, q))
Step-Accounted s t (connects w l hc ht hr hx) q h = absurd (ground (arith, q))
Step-Accounted s t (ends w i) q h = release-Accounted w s s.phase h
Step-Accounted s t (aborts w i c) q h = release-Accounted w s s.phase h
Step-Accounted s t (stops e) q h =
    let (off, c, tasks, none) = at_phase s serving e h in
    (refl, λ w i. ground (arith, subst (λ (l : List ℕ). is_in w l ≡ true) none i))
Step-Accounted s t (cancels e) q h = at_phase s awaiting_writers e h
Step-Accounted s t (shuts tasks e done) q h =
    let (c, within) = at_phase s (awaiting_tasks tasks) e h in
    (refl, c, refl, none_left s.running tasks within done)

QuietRun-Accounted : (s t : Listener) → QuietRun s t → Accounted s s.phase → Accounted t t.phase
QuietRun-Accounted s t stays h = h
QuietRun-Accounted s t (goes u _ run step q) h =
    Step-Accounted u t step q (QuietRun-Accounted s u run h)

-- If each running handler has its task in the set when `stop` begins, and no connection comes and the
-- server is not started again while it waits, then whatever the order in which the handlers end: once
-- `stop` is over, the listener is closed, there is no connection and no task, and no handler runs.
pub drop_connections-IsStopped :
    (s t : Listener)
    → Within s.running s.client_tasks
    → QuietRun (drop_connections s) t
    → t.phase ≡ serving
    → IsStopped t
unfolding drop_connections
drop_connections-IsStopped s t within run p =
    at_phase t serving p (QuietRun-Accounted (drop_connections s) t run (refl, within))
