-- ===== src/Server/Connection.antt =====
-- The loop of `_on_client` of server.py on the bytes that a connection delivers until it ends.
-- A turn of the loop either ends the connection, drops a malformed frame, or replies to one.
pub mod Served
pub mod Fuel
use pymod.Prelude.{ℕ, zero, suc, ◌+◌, ◌-◌, List, [], ◌∷◌, ◌++◌}
use pymod.Errors.{Result, ok, err, protocol_error, ◌>>=◌, ◌>>◌}
use pymod.Bytes.{Bytes}
use pymod.Bytes.Stream.{read_exactly}
use pymod.Protocol.AduTcp.{
  mbap_min_peek_bytes, encode_mbap_frame, decode_mbap_frame, expected_frame_length,
}
use pymod.Server.{Server, dispatch}

-- The two reads at the head of the loop: a frame and what is left.
unfoldable pub read_frame : Bytes → Result (Bytes × Bytes)
unfolding read_exactly
read_frame input = do
  (header, left) ← read_exactly mbap_min_peek_bytes input
  total ← expected_frame_length header
  (rest, more) ← read_exactly (total - mbap_min_peek_bytes) left
  ok (header ++ rest, more)

pub data Turn (S : Type 0) : Type 0 where
  closed : S → Turn S
  dropped : Bytes → Turn S
  replied : S → Bytes → Bytes → Turn S

module _ {S : Type 0} (server : Server S) where
  -- `replied` has the state after the request, the frame that is written, and the bytes that are left.
  unfoldable pub answer : ℕ × ℕ × Bytes → Bytes → S → Turn S
  answer (tid, uid, request_pdu) more s =
      let (after, response) = dispatch server uid request_pdu s in
      elim (response >>= encode_mbap_frame tid uid) [
        | ok frame ↦ replied after frame more
        | err e ↦ closed after
      ]

  unfoldable pub turn : Bytes → S → Turn S
  unfolding answer read_frame
  turn input s = elim (read_frame input) [
    | err e ↦ closed s
    | ok (frame, more) ↦ elim (decode_mbap_frame frame) [
      | ok request ↦ answer request more s
      | err protocol_error ↦ dropped more
      | err e ↦ closed s
    ]
  ]

  -- The whole loop: the state at the end and the frames that were written.
  unfoldable pub serve : ℕ → Bytes → S → S × List Bytes
  unfolding turn
  serve zero input s = (s, [])
  serve (suc fuel) input s = elim (turn input s) [
    | closed after ↦ (after, [])
    | dropped more ↦ serve fuel more s
    | replied after frame more ↦ let (end, frames) = serve fuel more after in (end, frame ∷ frames)
  ]
