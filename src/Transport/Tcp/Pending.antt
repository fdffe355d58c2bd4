-- ===== src/Transport/Tcp/Pending.antt =====
-- Transaction ids and pending requests of src/pymod/transport/tcp.py: allocation and delivery.
use pymod.Prelude.{
  ℕ, zero, suc, ◌+◌, ◌-◌, ◌%◌, ◌<◌, ◌≡◌, ◌≢◌, ◌∙◌, refl, ap, inl, inr, ◌==◌, true, false, Option,
  none, some, List, [], ◌∷◌, bit_and, arith, Bool-cases,
}
use pymod.Prelude.Bitwise.{bit_and_word}
use pymod.Errors.{Exc, ok, err}
use pymod.Bytes.{Bytes}
use pymod.Protocol.AduTcp.{encode_mbap_frame}
use pymod.Protocol.AduTcp.Laws.{decode_mbap_frame-encode_mbap_frame}
use pymod.Transport.Tcp.{
  Future, waiting, resolved, TcpTransport, lookup, is_pending, probe, allocate_tid, set_result,
  resolve, deliver,
}

-- What the table holds under an id, once a response came under it: the request that still waited has
-- the response, and one with an outcome keeps its own.
abbrev pub settled : Bytes → Option Future → Option Future
settled pdu none = none
settled pdu (some waiting) = some (resolved (ok pdu))
settled pdu (some (resolved outcome)) = some (resolved outcome)

set_result-settled : (pdu : Bytes) (f : Future) → some (set_result pdu f) ≡ settled pdu (some f)
unfolding set_result
set_result-settled pdu waiting = refl
set_result-settled pdu (resolved outcome) = refl

lookup-resolve :
    (tid other : ℕ) (pdu : Bytes) (pending : List (ℕ × Future))
    → (lookup tid (resolve tid pdu pending) ≡ settled pdu (lookup tid pending))
      × (other ≢ tid → lookup other (resolve tid pdu pending) ≡ lookup other pending)
unfolding lookup resolve
lookup-resolve tid other pdu [] = (refl, λ n. refl)
lookup-resolve tid other pdu ((t, f) ∷ rest) =
    let (p, q) = lookup-resolve tid other pdu rest in
    elim (Bool-cases (t == tid)) [
      | inl y ↦ rw y (rw y (set_result-settled pdu f), λ n. ground arith)
      | inr m ↦ rw m (rw m p, λ n. ground (arith, q n))
    ]

-- A frame that carries a response under a transaction id resolves the request that is pending under that
-- id with the response, if it still waits; a request that has its outcome keeps it, an id without a
-- request stays without one, and what is pending under every other id stays as it was.
pub deliver-encode_mbap_frame :
    (tid uid other : ℕ) (pdu : Bytes) (t : TcpTransport) {frame : Bytes}
    → encode_mbap_frame tid uid pdu ≡ ok frame
    → (lookup tid (deliver frame t).pending ≡ settled pdu (lookup tid t.pending))
      × (other ≢ tid → lookup other (deliver frame t).pending ≡ lookup other t.pending)
unfolding deliver
deliver-encode_mbap_frame tid uid other pdu t h =
    rw (deliver, decode_mbap_frame-encode_mbap_frame tid uid pdu h)
      (lookup-resolve tid other pdu t.pending)

module _ (pending : List (ℕ × Future)) where
  probe-ok :
      (n start tid next : ℕ)
      → start < 65536
      → probe n start pending ≡ ok (tid, next)
      → (tid < 65536) × (next < 65536) × (is_pending tid pending ≡ false)
  unfolding probe
  probe-ok zero start tid next s h = ground arith
  probe-ok (suc n) start tid next s h = elim (Bool-cases (is_pending start pending)) [
    | inl y ↦
        probe-ok n (bit_and (start + 1) 0xFFFF) tid next (omega (arith, bit_and_word (start + 1)))
          (ground arith)
    | inr m ↦ ground (arith, bit_and_word (start + 1))
  ]

  probe-err :
      (n start : ℕ) (e : Exc)
      → start < 65536
      → probe n start pending ≡ err e
      → (k : ℕ) → k < n
      → is_pending ((start + k) % 65536) pending ≡ true
  unfolding probe
  probe-err zero start e s h k l = absurd (omega arith)
  probe-err (suc n) start e s h zero l =
      ap (λ (x : ℕ). is_pending x pending) {x = (start + 0) % 65536} {y = start} (omega arith)
      ∙ elim (Bool-cases (is_pending start pending)) [ inl y ↦ y | inr m ↦ ground arith ]
  probe-err (suc n) start e s h (suc k) l = elim (Bool-cases (is_pending start pending)) [
    | inr m ↦ ground arith
    | inl y ↦
        ap (λ (x : ℕ). is_pending x pending) {x = (start + suc k) % 65536}
          {y = (bit_and (start + 1) 0xFFFF + k) % 65536} (omega (arith, bit_and_word (start + 1)))
        ∙ probe-err n (bit_and (start + 1) 0xFFFF) e (omega (arith, bit_and_word (start + 1)))
            (ground arith) k (omega arith)
  ]

-- From a 16-bit counter, an id that is given out is a 16-bit id with no request pending under it and
-- the counter stays a 16-bit one; no id is given out only if every 16-bit id is pending.
pub allocate_tid_lem :
    (t : TcpTransport)
    → t.next_tid < 65536
    → ((tid next : ℕ)
        → allocate_tid t ≡ ok (tid, next)
        → (tid < 65536) × (next < 65536) × (is_pending tid t.pending ≡ false))
      × ((e : Exc) → allocate_tid t ≡ err e → (x : ℕ) → x < 65536 → is_pending x t.pending ≡ true)
unfolding allocate_tid
allocate_tid_lem t s = (
  λ tid next h. probe-ok t.pending 65536 t.next_tid tid next s h,
  λ e h x l.
      ap (λ (y : ℕ). is_pending y t.pending) {x = x}
        {y = (t.next_tid + (x + 65536 - t.next_tid) % 65536) % 65536} (omega arith)
      ∙ probe-err t.pending 65536 t.next_tid e s h ((x + 65536 - t.next_tid) % 65536) (omega arith),
)
