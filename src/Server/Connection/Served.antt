-- ===== src/Server/Connection/Served.antt =====
-- A connection to src/pymod/server.py that delivers whole frames, malformed ones among them.
use pymod.Prelude.{
  ℕ, zero, suc, ◌-◌, ◌≤◌, ◌≡◌, ◌∙◌, refl, sym, ap, List, [], ◌∷◌, ◌++◌, arith, length, take, drop,
  length-append, append_assoc, append-nil, length-take, length-drop,
}
use mathlib.Core.Path.{subst}
use pymod.Errors.{Result, ok, err, protocol_error}
use pymod.Bytes.{Bytes}
use pymod.Bytes.Stream.{read_exactly-append, take-drop}
use pymod.Protocol.AduTcp.{encode_mbap_frame, decode_mbap_frame, expected_frame_length}
use pymod.Protocol.AduTcp.Laws.{
  mbap_bytes, decode_mbap_frame-encode_mbap_frame, expected_frame_length-encode_mbap_frame,
}
use pymod.Server.{Server, dispatch}
use pymod.Server.Connection.{read_frame, answer, turn, serve}

-- A frame whose length field gives its length.
abbrev pub IsFramed : Bytes → Type 0
IsFramed frame = (6 ≤ length frame) × (expected_frame_length (take 6 frame) ≡ ok (length frame))

-- The server in state `s` takes the bytes, writes the frames, and is in the state `end`.
pub data Served {S : Type 0} (server : Server S) : S → Bytes → List Bytes → S → Type 0 where
  finished : {s : S} → Served server s [] [] s
  request :
      {s end : S} {replies : List Bytes} {reply : Bytes} (tid uid : ℕ)
      (pdu response frame more : Bytes) (after : S)
      → encode_mbap_frame tid uid pdu ≡ ok frame
      → dispatch server uid pdu s ≡ (after, ok response)
      → encode_mbap_frame tid uid response ≡ ok reply
      → Served server after more replies end
      → Served server s (frame ++ more) (reply ∷ replies) end
  malformed :
      {s end : S} {replies : List Bytes} (frame more : Bytes)
      → IsFramed frame
      → decode_mbap_frame frame ≡ err protocol_error
      → Served server s more replies end
      → Served server s (frame ++ more) replies end

-- The two reads take exactly one frame off the stream.
read_frame-IsFramed :
    (frame more : Bytes) → IsFramed frame → read_frame (frame ++ more) ≡ ok (frame, more)
unfolding read_frame
read_frame-IsFramed frame more (lo, e) =
    let split : take 6 frame ++ (drop 6 frame ++ more) ≡ frame ++ more =
      sym (append_assoc (take 6 frame) (drop 6 frame) more)
      ∙ ap (λ (t : Bytes). t ++ more) (take-drop 6 frame) in
    rw⁻¹ split (
      rw
        (
          read_exactly-append 6 (take 6 frame) (drop 6 frame ++ more)
              (omega (arith, length-take 6 frame)),
          e,
          read_exactly-append (length frame - 6) (drop 6 frame) more
              (omega (arith, length-drop 6 frame)),
          take-drop 6 frame,
        )
        refl)

IsFramed-encode_mbap_frame :
    (tid uid : ℕ) (pdu : Bytes) {frame : Bytes}
    → encode_mbap_frame tid uid pdu ≡ ok frame
    → IsFramed frame
IsFramed-encode_mbap_frame tid uid pdu {frame} h =
    let (_, _, _, _, e) = mbap_bytes tid uid pdu h in
    (
      rw e (omega arith),
      subst (λ (b : Bytes). expected_frame_length (take 6 b) ≡ ok (length frame)) (append-nil frame)
          (expected_frame_length-encode_mbap_frame tid uid pdu [] h),
    )

module _ {S : Type 0} (server : Server S) where
  -- If the bytes are frames of requests that the server answers, with malformed frames of the right
  -- length between them, then with fuel for each byte the loop writes exactly the replies, in order
  -- and under the ids of their requests, and ends in the state after the last request.
  pub serve-Served :
      (fuel : ℕ) (s end : S) (input : Bytes) (replies : List Bytes)
      → Served server s input replies end
      → length input ≤ fuel
      → serve server fuel input s ≡ (end, replies)
  unfolding serve turn answer
  serve-Served zero s end input replies finished h = refl
  serve-Served (suc fuel) s end input replies finished h = refl
  serve-Served zero s end input replies (request tid uid pdu response frame more after e d r run)
        h =
      absurd (omega (arith, (IsFramed-encode_mbap_frame tid uid pdu e).0, length-append frame more))
  serve-Served (suc fuel) s end input replies
        (request tid uid pdu response frame more after e d r run) h =
      let f = IsFramed-encode_mbap_frame tid uid pdu e in
      let rest =
        serve-Served fuel after end more _ run (omega (arith, f.0, length-append frame more)) in
      rw
        (
          serve,
          read_frame-IsFramed frame more f,
          decode_mbap_frame-encode_mbap_frame tid uid pdu e,
          d,
          r,
          ap (λ (t : S × Result Bytes). t.0) d,
          rest,
        )
        refl
  serve-Served zero s end input replies (malformed frame more f b run) h =
      absurd (omega (arith, f.0, length-append frame more))
  serve-Served (suc fuel) s end input replies (malformed frame more f b run) h =
      let rest =
        serve-Served fuel s end more replies run (omega (arith, f.0, length-append frame more)) in
      rw (serve, read_frame-IsFramed frame more f, b, rest) refl
