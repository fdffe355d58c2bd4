-- ===== src/Transport/Tcp.antt =====
-- The bookkeeping of src/pymod/transport/tcp.py: transaction ids, the pending requests and what the
-- read loop does to them. A request's future is its outcome so far; opening, writing and the clock
-- are left out.
pub mod Pending
pub mod Steps
use pymod.Prelude.{
  ℕ, zero, suc, ◌+◌, ◌==◌, Bool, true, false, Option, none, some, List, [], ◌∷◌, bit_and,
  if◌then◌else◌,
}
use pymod.Errors.{Result, ok, err, modbus_error, connection_error, ◌>>=◌}
use pymod.Bytes.{Bytes}
use pymod.Protocol.AduTcp.{decode_mbap_frame}
use pymod.Server.Connection.{read_frame}

pub data Future : Type 0 where
  waiting : Future
  resolved : Result Bytes → Future

pub record TcpTransport : Type 0 where
  pub next_tid : ℕ
  pub pending : List (ℕ × Future)
  pub connected : Bool

-- `self._pending.get(tid)`
unfoldable pub lookup : ℕ → List (ℕ × Future) → Option Future
lookup tid [] = none
lookup tid ((t, f) ∷ rest) = if t == tid then some f else lookup tid rest

-- `tid in self._pending`
unfoldable pub is_pending : ℕ → List (ℕ × Future) → Bool
unfolding lookup
is_pending tid pending = elim (lookup tid pending) [ none ↦ false | some f ↦ true ]

-- The loop of `_allocate_tid` with `n` turns left: the id, and `_next_tid` after it.
unfoldable pub probe : ℕ → ℕ → List (ℕ × Future) → Result (ℕ × ℕ)
unfolding is_pending
probe zero tid pending = err modbus_error
probe (suc n) tid pending =
    let next = bit_and (tid + 1) 0xFFFF in
    let later = probe n next pending in if is_pending tid pending then later else ok (tid, next)

unfoldable pub allocate_tid : TcpTransport → Result (ℕ × ℕ)
unfolding probe
allocate_tid t = probe 0x10000 t.next_tid t.pending

-- The head of `_send_and_receive_unlocked`: a new id with a waiting future.
unfoldable pub begin_request : TcpTransport → Result (ℕ × TcpTransport)
unfolding allocate_tid
begin_request t = do
  (tid, next) ← allocate_tid t
  ok (
    tid,
    record { next_tid = next; pending = (tid, waiting) ∷ t.pending; connected = t.connected },
  )

-- `self._pending.pop(tid, None)`
unfoldable pub remove : ℕ → List (ℕ × Future) → List (ℕ × Future)
remove tid [] = []
remove tid ((t, f) ∷ rest) = let more = remove tid rest in if t == tid then more else (t, f) ∷ more

unfoldable pub end_request : ℕ → TcpTransport → TcpTransport
unfolding remove
end_request tid t = record {
  next_tid = t.next_tid;
  pending = remove tid t.pending;
  connected = t.connected;
}

-- `if not future.done(): future.set_result(pdu)`
unfoldable pub set_result : Bytes → Future → Future
set_result pdu waiting = resolved (ok pdu)
set_result pdu (resolved r) = resolved r

unfoldable pub resolve : ℕ → Bytes → List (ℕ × Future) → List (ℕ × Future)
unfolding set_result
resolve tid pdu [] = []
resolve tid pdu ((t, f) ∷ rest) =
    let more = resolve tid pdu rest in
    if t == tid then (t, set_result pdu f) ∷ rest else (t, f) ∷ more

-- One frame of the read loop; a malformed or unmatched one changes nothing.
unfoldable pub deliver : Bytes → TcpTransport → TcpTransport
unfolding resolve
deliver frame t = elim (decode_mbap_frame frame) [
  | err e ↦ t
  | ok (tid, uid, pdu) ↦ record {
    next_tid = t.next_tid;
    pending = resolve tid pdu t.pending;
    connected = t.connected;
  }
]

-- The head of `_teardown`, up to where it waits for the writer and the read task.
unfoldable pub disconnect : TcpTransport → TcpTransport
disconnect t = record { next_tid = t.next_tid; pending = t.pending; connected = false }

-- Its end: the futures that still wait get `ModbusConnectionError`, and the table is emptied.
unfoldable pub fail_waiting : List (ℕ × Future) → List (ℕ × Future)
fail_waiting [] = []
fail_waiting ((t, waiting) ∷ rest) = (t, resolved (err connection_error)) ∷ fail_waiting rest
fail_waiting ((t, resolved r) ∷ rest) = (t, resolved r) ∷ fail_waiting rest

-- The futures as their owners see them, and the transport after it.
unfoldable pub drop_pending : TcpTransport → List (ℕ × Future) × TcpTransport
unfolding fail_waiting
drop_pending t = (
  fail_waiting t.pending,
  record { next_tid = t.next_tid; pending = []; connected = t.connected },
)

-- `_teardown` when nothing happens while it waits.
unfoldable pub teardown : TcpTransport → List (ℕ × Future) × TcpTransport
unfolding disconnect drop_pending
teardown t = drop_pending (disconnect t)

-- `_read_loop` on the bytes that arrive until the stream ends, and its `finally`.
unfoldable pub read_loop : ℕ → Bytes → TcpTransport → List (ℕ × Future) × TcpTransport
unfolding deliver teardown
read_loop zero input t = teardown t
read_loop (suc fuel) input t = elim (read_frame input) [
  | err e ↦ teardown t
  | ok (frame, more) ↦ read_loop fuel more (deliver frame t)
]
