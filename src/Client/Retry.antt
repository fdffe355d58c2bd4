-- ===== src/Client/Retry.antt =====
-- What the attempts of `execute` amount to.
use pymod.Prelude.{
  ℕ, zero, suc, ◌+◌, ◌-◌, ◌≤◌, ◌<◌, ◌≡◌, ◌∙◌, refl, sym, ap, inl, inr, ◌⊎◌, true, false, List, [],
  ◌∷◌, arith, length, ltb, Bool-cases, length-append, ltb→lt,
}
use mathlib.Core.Path.{subst}
use pymod.Errors.{Exc, Result, ok, err}
use pymod.Bytes.{Bytes}
use pymod.Client.{Backoff, RetryPolicy, Run, settle, delays_at, attempt_loop, execute, delay_for}

lt-or-ge : (a b : ℕ) → (a < b) ⊎ (b ≤ a)
lt-or-ge a b = ground arith

suc-cases : (n : ℕ) → 1 ≤ n → (m : ℕ) × (n ≡ suc m)
suc-cases zero h = elim h [ ]
suc-cases (suc m) h = (m, refl)

module _ (times : Backoff) (policy : RetryPolicy times) (send : ℕ → Result Bytes) where
  -- Attempt `k` failed with an exception that is retried.
  abbrev pub Retried : ℕ → Type 0
  Retried k = (e : Exc) × (send k ≡ err e) × (policy.retry_on e ≡ true)

  -- The run ended with a response, with an exception that is not retried, or at the last attempt.
  abbrev pub Settled : ℕ → Result Bytes → Type 0
  Settled k outcome =
      ((pdu : Bytes) × (outcome ≡ ok pdu))
      ⊎ ((e : Exc) × (outcome ≡ err e) × ((policy.retry_on e ≡ false) ⊎ (k ≡ policy.max_attempts)))

  abbrev pub RunsWell : ℕ → Run times → Type 0
  RunsWell first run =
      (first ≤ run.attempts)
      × (run.attempts ≤ policy.max_attempts)
      × (run.outcome ≡ send run.attempts)
      × Settled run.attempts run.outcome
      × ((k : ℕ) → first ≤ k → k < run.attempts → Retried k)
      × (length run.delays + 1 ≡ run.attempts)

  length-delays_at :
      (attempt : ℕ) (delays : List times.Seconds)
      → 1 ≤ attempt
      → length delays ≡ attempt - 2
      → length (delays_at times policy attempt delays) + 1 ≡ attempt
  unfolding delays_at
  length-delays_at attempt delays lo h = elim (Bool-cases (ltb 1 attempt)) [
    | inl y ↦ rw y (
        omega (
          arith,
          ltb→lt 1 attempt y,
          length-append delays (delay_for times policy (attempt - 1) ∷ []),
        ))
    | inr n ↦ rw n (ground arith)
  ]

  RunsWell-settle :
      (attempt : ℕ) (delays : List times.Seconds) (next : Run times) (r : Result Bytes)
      → send attempt ≡ r
      → attempt ≤ policy.max_attempts
      → length delays + 1 ≡ attempt
      → (attempt < policy.max_attempts → RunsWell (attempt + 1) next)
      → RunsWell attempt (settle times policy attempt delays next r)
  unfolding settle
  RunsWell-settle attempt delays next (ok pdu) e m n more =
      (omega arith, m, sym e, inl (pdu, refl), λ k p q. absurd (omega arith), n)
  RunsWell-settle attempt delays next (err x) e m n more = elim (Bool-cases (policy.retry_on x)) [
    | inr n1 ↦
        rw n1 (omega arith, m, sym e, inr (x, refl, inl n1), λ k p q. absurd (omega arith), n)
    | inl retried ↦ rw retried (elim (Bool-cases (ltb attempt policy.max_attempts)) [
      | inr last ↦ rw last (
        omega arith,
        m,
        sym e,
        inr (x, refl, inr (ground arith)),
        λ k p q. absurd (omega arith),
        n,
      )
      | inl again ↦
          let (a, b, c, d, f, g) = more (ltb→lt attempt policy.max_attempts again) in
          rw again (
            omega arith,
            b,
            c,
            d,
            λ k p q. elim (lt-or-ge attempt k) [
              | inl l ↦ f k (omega arith) q
              | inr l ↦ let same : k ≡ attempt = omega arith in (x, ap send same ∙ e, retried)
            ],
            g,
          )
    ])
  ]

  attempt_loop_lem :
      (left attempt : ℕ) (delays : List times.Seconds)
      → left + attempt ≡ policy.max_attempts
      → 1 ≤ attempt
      → length delays ≡ attempt - 2
      → RunsWell attempt (attempt_loop times policy send (suc left) attempt delays)
  unfolding attempt_loop
  attempt_loop_lem zero attempt delays total lo h =
      RunsWell-settle attempt _ _ (send attempt) refl (omega arith)
        (length-delays_at attempt delays lo h) (λ l. absurd (omega arith))
  attempt_loop_lem (suc left) attempt delays total lo h =
      let n = length-delays_at attempt delays lo h in
      RunsWell-settle attempt _ _ (send attempt) refl (omega arith) n (λ l.
        attempt_loop_lem left (attempt + 1) (delays_at times policy attempt delays) (omega arith)
          (omega arith) (omega arith))

  -- If the policy allows an attempt, the call makes between one and `max_attempts` attempts and
  -- returns or raises what the last of them did; every attempt before it failed with an exception of
  -- `retry_on`; it ended with a response, with an exception outside `retry_on`, or at the bound; and
  -- there is one delay between any two attempts.
  pub execute_lem : 1 ≤ policy.max_attempts → RunsWell 1 (execute times policy send)
  unfolding execute
  execute_lem h =
      let (n, e) = suc-cases policy.max_attempts h in
      subst (λ (m : ℕ). RunsWell 1 (attempt_loop times policy send m 1 [])) (sym e)
        (attempt_loop_lem n 1 [] (omega arith) (omega arith) refl)
