-- ===== src/Protocol/AduRtu/Laws.antt =====
-- The RTU frame codec of src/pymod/protocol/adu_rtu.py: decoding after encoding, and changed
-- frames.
use native.Mathlib.Decide.{dec_lt}
use pymod.Prelude.{
  ◌≢◌, ℕ, zero, suc, ◌+◌, ◌-◌, ◌*◌, ◌/◌, ◌%◌, ◌≤◌, ◌<◌, ◌==◌, ◌≡◌, ◌∙◌, sym, refl, ap, [], ◌∷◌,
  ◌++◌, arith, get_or, length, set, drop, All, if◌then◌else◌, take-append_left, drop-append_left,
  length-append, length-set,
}
use pymod.Errors.{ok, err, crc_error}
use pymod.Bytes.{Bytes, IsByte}
use pymod.Protocol.AduRtu.{crc16, encode_rtu_frame, decode_rtu_frame}
use pymod.Protocol.AduRtu.Crc.Changes.{crc16-set}

-- The frame that the encoder returns.
rtu_bytes :
    (uid : ℕ) (pdu : Bytes) {frame : Bytes}
    → encode_rtu_frame uid pdu ≡ ok frame
    → (uid < 256)
      × (1 ≤ length pdu)
      × (frame ≡ (uid ∷ pdu) ++ ((crc16 (uid ∷ pdu) % 256) ∷ (crc16 (uid ∷ pdu) / 256) ∷ []))
unfolding encode_rtu_frame
rtu_bytes uid pdu h = ground arith

-- A frame as a body and two bytes.
pub decode_parts :
    (body : Bytes) (lo hi : ℕ)
    → 2 ≤ length body
    → decode_rtu_frame (body ++ (lo ∷ hi ∷ []))
      ≡ (if crc16 body == hi * 256 + lo then ok (get_or body 0 0, drop 1 body) else err crc_error)
unfolding decode_rtu_frame
decode_parts [] lo hi h = absurd (omega arith)
decode_parts (a ∷ []) lo hi h = absurd (omega arith)
decode_parts (a ∷ b ∷ rest) lo hi h =
    let n : length (a ∷ b ∷ (rest ++ (lo ∷ hi ∷ []))) - 2 ≡ length (a ∷ b ∷ rest) =
      omega (arith, length-append (a ∷ b ∷ rest) (lo ∷ hi ∷ [])) in
    let front = take-append_left (a ∷ b ∷ rest) (lo ∷ hi ∷ []) _ n in
    let back = drop-append_left (a ∷ b ∷ rest) (lo ∷ hi ∷ []) _ n in
    rw (front, back) (ground (arith, length-append (a ∷ b ∷ rest) (lo ∷ hi ∷ [])))

-- Whatever the encoder accepts, the decoder reads back from the frame.
pub decode_rtu_frame-encode_rtu_frame :
    (uid : ℕ) (pdu : Bytes) {frame : Bytes}
    → encode_rtu_frame uid pdu ≡ ok frame
    → decode_rtu_frame frame ≡ ok (uid, pdu)
decode_rtu_frame-encode_rtu_frame uid pdu h =
    let (hu, hp, e) = rtu_bytes uid pdu h in
    rw e (
      decode_parts (uid ∷ pdu) (crc16 (uid ∷ pdu) % 256) (crc16 (uid ∷ pdu) / 256) (omega arith)
      ∙ ground arith)

set-append_left : (xs ys : Bytes) (i b : ℕ) → i < length xs → set (xs ++ ys) i b ≡ set xs i b ++ ys
set-append_left [] ys i b h = absurd (omega arith)
set-append_left (x ∷ xs) ys zero b h = refl
set-append_left (x ∷ xs) ys (suc i) b h =
    ap (λ (l : Bytes). x ∷ l) (set-append_left xs ys i b (omega arith))

get_or-append_left : (xs ys : Bytes) (i : ℕ) → i < length xs → get_or (xs ++ ys) i 0 ≡ get_or xs i 0
get_or-append_left [] ys i h = absurd (omega arith)
get_or-append_left (x ∷ xs) ys zero h = refl
get_or-append_left (x ∷ xs) ys (suc i) h = get_or-append_left xs ys i (omega arith)

-- One byte of the body is changed: the CRC of the body is another one.
body_changed :
    (body : Bytes) (i b : ℕ)
    → All IsByte body
    → 2 ≤ length body
    → b < 256
    → i < length body
    → b ≢ get_or body i 0
    → decode_rtu_frame (set body i b ++ ((crc16 body % 256) ∷ (crc16 body / 256) ∷ []))
      ≡ err crc_error
body_changed body i b hr h2 hb hi ne =
    decode_parts (set body i b) (crc16 body % 256) (crc16 body / 256)
      (omega (arith, length-set body i b))
    ∙ ground (arith, crc16-set body i b hr hb hi ne)

tail_changed :
    (body : Bytes) (lo hi : ℕ)
    → 2 ≤ length body
    → hi * 256 + lo ≢ crc16 body
    → decode_rtu_frame (body ++ (lo ∷ hi ∷ [])) ≡ err crc_error
tail_changed body lo hi h2 ne = decode_parts body lo hi h2 ∙ ground arith

set-append_right : (xs ys : Bytes) (k b : ℕ) → set (xs ++ ys) (length xs + k) b ≡ xs ++ set ys k b
set-append_right [] ys k b = ap (λ (i : ℕ). set ys i b) (omega arith)
set-append_right (x ∷ xs) ys k b =
    ap (λ (i : ℕ). set (x ∷ (xs ++ ys)) i b) {x = suc (length xs) + k} {y = suc (length xs + k)}
      (omega arith)
    ∙ ap (λ (l : Bytes). x ∷ l) (set-append_right xs ys k b)

get_or-append_right : (xs ys : Bytes) (k : ℕ) → get_or (xs ++ ys) (length xs + k) 0 ≡ get_or ys k 0
get_or-append_right [] ys k = ap (λ (i : ℕ). get_or ys i 0) (omega arith)
get_or-append_right (x ∷ xs) ys k =
    ap (λ (i : ℕ). get_or (x ∷ (xs ++ ys)) i 0) {x = suc (length xs) + k} {y = suc (length xs + k)}
      (omega arith)
    ∙ get_or-append_right xs ys k

abbrev with_crc : Bytes → Bytes
with_crc body = body ++ ((crc16 body % 256) ∷ (crc16 body / 256) ∷ [])

changed_front :
    (body : Bytes) (i b : ℕ)
    → All IsByte body
    → 2 ≤ length body
    → i < length body
    → b < 256
    → b ≢ get_or (with_crc body) i 0
    → decode_rtu_frame (set (with_crc body) i b) ≡ err crc_error
changed_front body i b hr h2 hi hb ne =
    rw (set-append_left body ((crc16 body % 256) ∷ (crc16 body / 256) ∷ []) i b hi) (
      body_changed body i b hr h2 hb hi (λ e.
        ne (e ∙ sym (get_or-append_left body ((crc16 body % 256) ∷ (crc16 body / 256) ∷ []) i hi))))

changed_back :
    (body : Bytes) (k b : ℕ)
    → 2 ≤ length body
    → k < 2
    → b < 256
    → b ≢ get_or (with_crc body) (length body + k) 0
    → decode_rtu_frame (set (with_crc body) (length body + k) b) ≡ err crc_error
changed_back body zero b h2 hk hb ne =
    rw (set-append_right body ((crc16 body % 256) ∷ (crc16 body / 256) ∷ []) 0 b) (
      tail_changed body b (crc16 body / 256) h2 (λ e. ne (
        omega (arith, e)
        ∙ sym (get_or-append_right body ((crc16 body % 256) ∷ (crc16 body / 256) ∷ []) 0))))
changed_back body (suc zero) b h2 hk hb ne =
    rw (set-append_right body ((crc16 body % 256) ∷ (crc16 body / 256) ∷ []) 1 b) (
      tail_changed body (crc16 body % 256) b h2 (λ e. ne (
        omega (arith, e)
        ∙ sym (get_or-append_right body ((crc16 body % 256) ∷ (crc16 body / 256) ∷ []) 1))))
changed_back body (suc (suc k)) b h2 hk hb ne = absurd (omega arith)

changed_any :
    (body : Bytes) (i b : ℕ)
    → All IsByte body
    → 2 ≤ length body
    → i < length (with_crc body)
    → b < 256
    → b ≢ get_or (with_crc body) i 0
    → decode_rtu_frame (set (with_crc body) i b) ≡ err crc_error
changed_any body i b hr h2 hi hb ne = elim (dec_lt i (length body)) [
  | yes front ↦ changed_front body i b hr h2 front hb ne
  | no back ↦
      let e : i ≡ length body + (i - length body) = omega arith in
      rw e (
        changed_back body (i - length body) b h2
          (omega (arith, length-append body ((crc16 body % 256) ∷ (crc16 body / 256) ∷ []))) hb
          (λ q. ne (q ∙ ap (λ (j : ℕ). get_or (with_crc body) j 0) (sym e))))
]

-- A frame that the encoder returned, with one of its bytes replaced by another byte, is rejected
-- with a CRC error, whichever byte it is.
pub single_byte_detected :
    (uid : ℕ) (pdu : Bytes) {frame : Bytes} (i b : ℕ)
    → All IsByte pdu
    → encode_rtu_frame uid pdu ≡ ok frame
    → i < length frame
    → b < 256
    → b ≢ get_or frame i 0
    → decode_rtu_frame (set frame i b) ≡ err crc_error
single_byte_detected uid pdu {frame} i b hp h hi hb ne =
    let (hu, h1, e) = rtu_bytes uid pdu h in
    rw e (
      changed_any (uid ∷ pdu) i b (hu, hp) (omega arith)
        (omega (arith, ap (λ (l : Bytes). length l) e)) hb
        (λ q. ne (q ∙ ap (λ (l : Bytes). get_or l i 0) (sym e))))
