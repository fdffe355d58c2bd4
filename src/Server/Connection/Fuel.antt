-- ===== src/Server/Connection/Fuel.antt =====
-- The turns of the loop of `_on_client` of src/pymod/server.py, and the bytes that they take.
use pymod.Prelude.{
  ℕ, zero, suc, ◌-◌, ◌≤◌, ◌<◌, ◌≡◌, refl, sym, ap, ◌∙◌, arith, leb, Bool-cases, leb→le, inl, inr,
  List, [], ◌∷◌, length, drop, take, length-drop,
}
use mathlib.Core.Path.{subst}
use pymod.Errors.{
  Result, Result-cases, ok, err, modbus_error, timeout_error, connection_error, crc_error,
  protocol_error, exception_response, value_error, struct_error, index_error, assertion_error,
  incomplete_read, python_error, ◌>>=◌, bind_ok,
}
use pymod.Bytes.{Bytes}
use pymod.Bytes.Stream.{read_exactly}
use pymod.Protocol.AduTcp.{
  mbap_min_peek_bytes, encode_mbap_frame, decode_mbap_frame, expected_frame_length,
}
use pymod.Server.{Server, dispatch}
use pymod.Server.Connection.{read_frame, Turn, closed, dropped, replied, answer, turn, serve}

read_exactly-length :
    (n : ℕ) (input got left : Bytes)
    → read_exactly n input ≡ ok (got, left)
    → (n ≤ length input) × (length left ≡ length input - n)
unfolding read_exactly
read_exactly-length n input got left h = elim (Bool-cases (leb n (length input))) [
  | inl y ↦
      let e : ok (take n input, drop n input) ≡ ok (got, left) =
        sym (rw (read_exactly, y) refl) ∙ h in
      let d : drop n input ≡ left = ap (λ r. elim r [ ok p ↦ p.1 | err x ↦ left ]) e in
      (leb→le n (length input) y, omega (arith, length-drop n input, ap length d))
  | inr k ↦ ground (arith, k)
]

read_frame-lt :
    (input frame more : Bytes) → read_frame input ≡ ok (frame, more) → length more < length input
unfolding read_frame
read_frame-lt input frame more h =
    let (p, e, k) = bind_ok (read_exactly mbap_min_peek_bytes input) _ (frame, more) h in
    let (total, e', k') = bind_ok (expected_frame_length p.0) _ (frame, more) k in
    let (q, e'', k'') =
      bind_ok (read_exactly (total - mbap_min_peek_bytes) p.1) _ (frame, more) k' in
    let d : q.1 ≡ more = ap (λ r. elim r [ ok x ↦ x.1 | err x ↦ more ]) k'' in
    let a = read_exactly-length mbap_min_peek_bytes input p.0 p.1 e in
    let b = read_exactly-length (total - mbap_min_peek_bytes) p.1 q.0 q.1 e'' in
    omega (arith, a, b, ap length d)

-- `k` turns from these bytes and this state, the last of which ends the loop, and what they come to: the
-- state at the end and the frames that were written.
pub data Turns {S : Type 0} (server : Server S) : ℕ → Bytes → S → S × List Bytes → Type 0 where
  closes :
      (input : Bytes) (s after : S)
      → turn server input s ≡ closed after
      → Turns server 1 input s (after, [])
  drops :
      (k : ℕ) (input more : Bytes) (s : S) (result : S × List Bytes)
      → turn server input s ≡ dropped more
      → Turns server k more s result
      → Turns server (suc k) input s result
  replies :
      (k : ℕ) (input more frame : Bytes) (s after : S) (result : S × List Bytes)
      → turn server input s ≡ replied after frame more
      → Turns server k more after result
      → Turns server (suc k) input s (result.0, frame ∷ result.1)

-- A turn that goes on leaves fewer bytes than `n`.
abbrev IsShorter : {S : Type 0} → ℕ → Turn S → Type 0
IsShorter n (closed s) = Unit
IsShorter n (dropped more) = length more < n
IsShorter n (replied s frame more) = length more < n

module _ {S : Type 0} (server : Server S) where
  answer-IsShorter :
      (r : ℕ × ℕ × Bytes) (more : Bytes) (s : S) (n : ℕ)
      → length more < n
      → IsShorter n (answer server r more s)
  unfolding answer
  answer-IsShorter (tid, uid, pdu) more s n h =
      elim (Result-cases ((dispatch server uid pdu s).1 >>= encode_mbap_frame tid uid)) [
        | inl (frame, e) ↦ rw (answer, e) h
        | inr (x, e) ↦ rw (answer, e) tt
      ]

  after_frame-IsShorter :
      (frame more : Bytes) (input : Bytes) (s : S)
      → read_frame input ≡ ok (frame, more)
      → IsShorter (length input) (turn server input s)
  unfolding turn
  after_frame-IsShorter frame more input s e = by_request (decode_mbap_frame frame) refl
    where
      by_request :
          (d : Result (ℕ × ℕ × Bytes))
          → decode_mbap_frame frame ≡ d
          → IsShorter (length input) (turn server input s)
      by_request (ok r) x =
          rw (turn, e, x)
            (answer-IsShorter r more s (length input) (read_frame-lt input frame more e))
      by_request (err protocol_error) x = rw (turn, e, x) (read_frame-lt input frame more e)
      by_request (err timeout_error) x = rw (turn, e, x) tt
      by_request (err modbus_error) x = rw (turn, e, x) tt
      by_request (err connection_error) x = rw (turn, e, x) tt
      by_request (err crc_error) x = rw (turn, e, x) tt
      by_request (err (exception_response cls code)) x = rw (turn, e, x) tt
      by_request (err value_error) x = rw (turn, e, x) tt
      by_request (err struct_error) x = rw (turn, e, x) tt
      by_request (err index_error) x = rw (turn, e, x) tt
      by_request (err assertion_error) x = rw (turn, e, x) tt
      by_request (err incomplete_read) x = rw (turn, e, x) tt
      by_request (err python_error) x = rw (turn, e, x) tt

  turn-IsShorter : (input : Bytes) (s : S) → IsShorter (length input) (turn server input s)
  unfolding turn
  turn-IsShorter input s = elim (Result-cases (read_frame input)) [
    | inl ((frame, more), e) ↦ after_frame-IsShorter frame more input s e
    | inr (x, e) ↦ rw (turn, e) tt
  ]

  -- The loop after a turn.
  abbrev go_on : ℕ → S → Turn S → S × List Bytes
  go_on fuel s (closed after) = (after, [])
  go_on fuel s (dropped more) = serve server fuel more s
  go_on fuel s (replied after frame more) =
      ((serve server fuel more after).0, frame ∷ (serve server fuel more after).1)

  serve-turn :
      (fuel : ℕ) (input : Bytes) (s : S) (t : Turn S)
      → turn server input s ≡ t
      → serve server (suc fuel) input s ≡ go_on fuel s t
  unfolding serve
  serve-turn fuel input s (closed after) e = rw (serve, e) refl
  serve-turn fuel input s (dropped more) e = rw (serve, e) refl
  serve-turn fuel input s (replied after frame more) e = rw (serve, e) refl

  go_on_same :
      (n m size : ℕ) (s : S) (t : Turn S)
      → IsShorter size t
      → ((more : Bytes) (after : S)
          → length more < size
          → serve server n more after ≡ serve server m more after)
      → go_on n s t ≡ go_on m s t
  go_on_same n m size s (closed after) h same = refl
  go_on_same n m size s (dropped more) h same = same more s h
  go_on_same n m size s (replied after frame more) h same =
      ap (λ (r : S × List Bytes). (r.0, frame ∷ r.1)) (same more after h)

  serve_nothing : (fuel : ℕ) (s : S) → serve server fuel [] s ≡ (s, [])
  unfolding serve turn read_frame read_exactly
  serve_nothing zero s = refl
  serve_nothing (suc fuel) s = refl

  -- The loop has one result: with any two fuels that the bytes of the connection do not exceed, it writes
  -- the same frames and ends in the same state, whatever the bytes are.
  serve_enough :
      (n m : ℕ) (input : Bytes) (s : S)
      → length input ≤ n
      → length input ≤ m
      → serve server n input s ≡ serve server m input s
  serve_enough n m [] s hn hm = serve_nothing n s ∙ sym (serve_nothing m s)
  serve_enough zero m (b ∷ input) s hn hm = absurd (omega arith)
  serve_enough (suc n) zero (b ∷ input) s hn hm = absurd (omega arith)
  serve_enough (suc n) (suc m) (b ∷ input) s hn hm =
      serve-turn n (b ∷ input) s (turn server (b ∷ input) s) refl
      ∙ (go_on_same n m (length (b ∷ input)) s (turn server (b ∷ input) s)
            (turn-IsShorter (b ∷ input) s)
            (λ more after h. serve_enough n m more after (omega arith) (omega arith))
          ∙ sym (serve-turn m (b ∷ input) s (turn server (b ∷ input) s) refl))

  turn_nothing : (s : S) → turn server [] s ≡ closed s
  unfolding turn read_frame read_exactly
  turn_nothing s = refl

  -- The loop ends after at most `size + 1` turns, with this result.
  abbrev pub EndsWithin : ℕ → Bytes → S → S × List Bytes → Type 0
  EndsWithin size input s result = (k : ℕ) × (k ≤ suc size) × Turns server k input s result

  ends_after :
      (n : ℕ) (input : Bytes) (s : S) (t : Turn S)
      → turn server input s ≡ t
      → IsShorter (length input) t
      → ((more : Bytes) (after : S)
          → length more < length input
          → EndsWithin (length more) more after (serve server n more after))
      → EndsWithin (length input) input s (go_on n s t)
  ends_after n input s (closed after) e h rest = (1, omega arith, closes input s after e)
  ends_after n input s (dropped more) e h rest =
      let (k, le, run) = rest more s h in
      (suc k, omega (arith, h), drops k input more s (serve server n more s) e run)
  ends_after n input s (replied after frame more) e h rest =
      let (k, le, run) = rest more after h in
      (
        suc k,
        omega (arith, h),
        replies k input more frame s after (serve server n more after) e run,
      )

  -- On every byte string the loop ends: with fuel for each byte, `serve` returns the state and the frames
  -- of a run of at most one turn more than there are bytes, whose last turn ends the loop.
  pub serve_ends :
      (n : ℕ) (input : Bytes) (s : S)
      → length input ≤ n
      → EndsWithin (length input) input s (serve server n input s)
  serve_ends zero [] s h =
      subst (EndsWithin 0 [] s) (sym (serve_nothing zero s))
        (1, omega arith, closes [] s s (turn_nothing s))
  serve_ends zero (b ∷ input) s h = absurd (omega arith)
  serve_ends (suc n) input s h =
      subst (EndsWithin (length input) input s)
        (sym (serve-turn n input s (turn server input s) refl))
        (ends_after n input s (turn server input s) refl (turn-IsShorter input s)
          (λ more after l. serve_ends n more after (omega arith)))
