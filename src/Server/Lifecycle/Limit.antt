-- ===== src/Server/Lifecycle/Limit.antt =====
-- The limit on the connections of src/pymod/server.py, and the sets of writers and tasks.
use pymod.Prelude.{
  ℕ, ◌≤◌, ◌≡◌, refl, sym, ap, ◌∙◌, arith, true, false, Bool-cases, inl, inr, leb, List, [], ◌∷◌,
  length, ◌==◌,
}
use mathlib.Core.Path.{subst}
use pymod.Errors.{ok, err}
use pymod.Server.Lifecycle.{
  Listener, serving, new_listener, is_in, discard, start, accept, release, drop_connections,
  cancel_tasks, shut_down, Step, starts, connects, ends, aborts, stops, cancels, shuts, Reach,
  begins, moves,
}

-- No number occurs twice.
abbrev pub Distinct : List ℕ → Type 0
Distinct [] = Unit
Distinct (x ∷ xs) = (is_in x xs ≡ false) × Distinct xs

-- The well-formedness of the server's sets.
abbrev pub IsBounded : ℕ → Listener → Type 0
IsBounded limit s =
    (s.max_connections ≡ limit)
    × (length s.connections ≤ limit)
    × Distinct s.connections
    × Distinct s.client_tasks

length-discard : (w : ℕ) (xs : List ℕ) → length (discard w xs) ≤ length xs
unfolding discard
length-discard w [] = omega arith
length-discard w (x ∷ xs) = ground (arith, length-discard w xs)

pub is_in-discard : (w v : ℕ) (xs : List ℕ) → is_in v xs ≡ false → is_in v (discard w xs) ≡ false
unfolding discard
is_in-discard w v [] h = refl
is_in-discard w v (x ∷ xs) h = ground (arith, is_in-discard w v xs)

discard-Distinct : (w : ℕ) (xs : List ℕ) → Distinct xs → Distinct (discard w xs)
unfolding discard
discard-Distinct w [] h = tt
discard-Distinct w (x ∷ xs) h = elim (Bool-cases (x == w)) [
  | inl y ↦ rw y (discard-Distinct w xs h.1)
  | inr n ↦ rw n (is_in-discard w x xs h.0, discard-Distinct w xs h.1)
]

accept-IsBounded :
    (limit w : ℕ) (s : Listener)
    → is_in w s.connections ≡ false
    → is_in w s.client_tasks ≡ false
    → IsBounded limit s
    → IsBounded limit (accept w s)
unfolding accept
accept-IsBounded limit w s hc ht (m, len, dc, dt) =
    elim (Bool-cases (leb s.max_connections (length s.connections))) [
      | inl y ↦ rw y (m, len, dc, dt)
      | inr n ↦ rw n (m, ground arith, (hc, dc), (ht, dt))
    ]

release-IsBounded : (limit w : ℕ) (s : Listener) → IsBounded limit s → IsBounded limit (release w s)
unfolding release
release-IsBounded limit w s (m, len, dc, dt) = (
  m,
  omega (arith, length-discard w s.connections),
  discard-Distinct w s.connections dc,
  discard-Distinct w s.client_tasks dt,
)

Step-IsBounded : (limit : ℕ) (s t : Listener) → IsBounded limit s → Step s t → IsBounded limit t
unfolding start drop_connections cancel_tasks shut_down
Step-IsBounded limit s t h (starts e) = h
Step-IsBounded limit s t h (connects w l hc ht hr hx) = accept-IsBounded limit w s hc ht h
Step-IsBounded limit s t h (ends w i) = release-IsBounded limit w s h
Step-IsBounded limit s t h (aborts w i c) = release-IsBounded limit w s h
Step-IsBounded limit s t (m, len, dc, dt) (stops e) = (m, omega arith, tt, dt)
Step-IsBounded limit s t h (cancels e) = h
Step-IsBounded limit s t (m, len, dc, dt) (shuts tasks e done) = (m, len, dc, tt)

abbrev pub idle : ℕ → Listener
idle limit = record {
  max_connections = limit;
  listening = false;
  connections = [];
  client_tasks = [];
  running = [];
  cancelled = [];
  phase = serving;
}

new_listener-idle : (limit : ℕ) → leb 1 limit ≡ true → new_listener limit ≡ ok (idle limit)
unfolding new_listener
new_listener-idle limit y = rw (new_listener, y) refl

new_listener-IsBounded : (limit : ℕ) (s : Listener) → new_listener limit ≡ ok s → IsBounded limit s
unfolding new_listener
new_listener-IsBounded limit s e = elim (Bool-cases (leb 1 limit)) [
  | inl y ↦
      subst (IsBounded limit)
        (ap (λ o. elim o [ ok t ↦ t | err x ↦ s ]) (sym (new_listener-idle limit y) ∙ e))
        (refl, omega arith, tt, tt)
  | inr n ↦ ground (arith, n)
]

-- In every state that a server gets to by any interleaving of its handlers, `start` and `stop`: its
-- open connections are at most `max_connections`, and no writer and no task is in its set twice.
pub Reach-IsBounded : (limit : ℕ) (s : Listener) → Reach limit s → IsBounded limit s
Reach-IsBounded limit s (begins _ e) = new_listener-IsBounded limit s e
Reach-IsBounded limit t (moves s _ r step) =
    Step-IsBounded limit s t (Reach-IsBounded limit s r) step
