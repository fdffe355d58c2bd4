-- ===== src/Transport/Tcp/Steps.antt =====
-- The requests, the read loop and the teardowns of one TCP transport in any order: a step is what runs
-- between two awaits of src/pymod/transport/tcp.py.
use pymod.Prelude.{
  ℕ, ◌<◌, ◌≡◌, refl, ap, ◌∙◌, arith, true, false, Bool-cases, inl, inr, List, [], ◌∷◌, ◌==◌,
}
use mathlib.Core.Path.{subst}
use pymod.Errors.{Result-cases, ok, err, bind_ok}
use pymod.Bytes.{Bytes}
use pymod.Protocol.AduTcp.{decode_mbap_frame}
use pymod.Transport.Tcp.{
  Future, TcpTransport, lookup, is_pending, allocate_tid, begin_request, remove, end_request,
  resolve, deliver, disconnect, drop_pending,
}
use pymod.Transport.Tcp.Pending.{allocate_tid_lem}

-- `TcpTransport.__init__`
unfoldable pub new_transport : TcpTransport
new_transport = record { next_tid = 0; pending = []; connected = false }

-- The last lines of `_ensure_connected`.
unfoldable pub set_connected : TcpTransport → TcpTransport
set_connected t = record { next_tid = t.next_tid; pending = t.pending; connected = true }

pub data Step (t : TcpTransport) : TcpTransport → Type 0 where
  connects : Step t (set_connected t)
  begins : (tid : ℕ) (u : TcpTransport) → begin_request t ≡ ok (tid, u) → Step t u
  delivers : (frame : Bytes) → Step t (deliver frame t)
  finishes : (tid : ℕ) → Step t (end_request tid t)
  disconnects : Step t (disconnect t)
  drops : Step t (drop_pending t).1

pub data Reach : TcpTransport → Type 0 where
  starts : Reach new_transport
  moves : (t u : TcpTransport) → Reach t → Step t u → Reach u

-- Every id is a 16-bit one, and is pending once.
abbrev pub IdsDistinct : List (ℕ × Future) → Type 0
IdsDistinct [] = Unit
IdsDistinct ((tid, f) ∷ rest) = (tid < 65536) × (is_pending tid rest ≡ false) × IdsDistinct rest

abbrev pub IsSound : TcpTransport → Type 0
IsSound t = (t.next_tid < 65536) × IdsDistinct t.pending

is_pending-remove :
    (x tid : ℕ) (p : List (ℕ × Future))
    → is_pending x p ≡ false
    → is_pending x (remove tid p) ≡ false
unfolding is_pending lookup remove
is_pending-remove x tid [] h = refl
is_pending-remove x tid ((t, f) ∷ rest) h = ground (arith, is_pending-remove x tid rest)

is_pending-resolve :
    (x tid : ℕ) (pdu : Bytes) (p : List (ℕ × Future))
    → is_pending x (resolve tid pdu p) ≡ is_pending x p
unfolding is_pending lookup resolve
is_pending-resolve x tid pdu [] = refl
is_pending-resolve x tid pdu ((t, f) ∷ rest) = ground (arith, is_pending-resolve x tid pdu rest)

remove-IdsDistinct : (tid : ℕ) (p : List (ℕ × Future)) → IdsDistinct p → IdsDistinct (remove tid p)
unfolding remove
remove-IdsDistinct tid [] h = tt
remove-IdsDistinct tid ((t, f) ∷ rest) (a, b, c) = elim (Bool-cases (t == tid)) [
  | inl y ↦ rw (remove, y) (remove-IdsDistinct tid rest c)
  | inr n ↦ rw (remove, n) (a, is_pending-remove t tid rest b, remove-IdsDistinct tid rest c)
]

resolve-IdsDistinct :
    (tid : ℕ) (pdu : Bytes) (p : List (ℕ × Future))
    → IdsDistinct p
    → IdsDistinct (resolve tid pdu p)
unfolding resolve
resolve-IdsDistinct tid pdu [] h = tt
resolve-IdsDistinct tid pdu ((t, f) ∷ rest) (a, b, c) = elim (Bool-cases (t == tid)) [
  | inl y ↦ rw (resolve, y) (a, b, c)
  | inr n ↦
      rw (resolve, n) (a, is_pending-resolve t tid pdu rest ∙ b, resolve-IdsDistinct tid pdu rest c)
]

deliver-IsSound : (frame : Bytes) (t : TcpTransport) → IsSound t → IsSound (deliver frame t)
unfolding deliver
deliver-IsSound frame t (n, d) = elim (Result-cases (decode_mbap_frame frame)) [
  | inl ((tid, uid, pdu), e) ↦ rw (deliver, e) (n, resolve-IdsDistinct tid pdu t.pending d)
  | inr (x, e) ↦ rw (deliver, e) (n, d)
]

begin_request-IsSound :
    (t u : TcpTransport) (tid : ℕ) → begin_request t ≡ ok (tid, u) → IsSound t → IsSound u
unfolding begin_request
begin_request-IsSound t u tid h (n, d) =
    let (ids, e, k) = bind_ok (allocate_tid t) _ (tid, u) h in
    let (a, b, c) = (allocate_tid_lem t n).0 ids.0 ids.1 e in
    subst IsSound (ap (λ r. elim r [ ok p ↦ p.1 | err x ↦ u ]) k) (b, (a, c, d))

Step-IsSound : (t u : TcpTransport) → IsSound t → Step t u → IsSound u
unfolding set_connected end_request disconnect drop_pending
Step-IsSound t u h connects = h
Step-IsSound t u h (begins tid _ e) = begin_request-IsSound t u tid e h
Step-IsSound t u h (delivers frame) = deliver-IsSound frame t h
Step-IsSound t u (n, d) (finishes tid) = (n, remove-IdsDistinct tid t.pending d)
Step-IsSound t u h disconnects = h
Step-IsSound t u (n, d) drops = (n, tt)

-- In every state that a transport gets to by any interleaving of connecting, requests that begin and
-- end, arriving frames and the two halves of teardowns: the counter and all pending ids are 16-bit numbers, and no
-- id is pending twice.
pub Reach-IsSound : (t : TcpTransport) → Reach t → IsSound t
unfolding new_transport
Reach-IsSound t starts = (omega arith, tt)
Reach-IsSound t (moves s _ r step) = Step-IsSound s t (Reach-IsSound s r) step
