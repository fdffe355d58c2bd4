-- ===== src/Transport/RtuResponse.antt =====
-- src/pymod/transport/_rtu_response.py: reading one RTU response off a source of bytes. The async and
-- the sync reader are the same function here.
pub mod Laws
pub mod Replies
use pymod.Prelude.{ℕ, ◌+◌, ◌==◌, ◌||◌, not, Bool, ◌++◌, bit_and, if◌then◌else◌}
use pymod.Errors.{Result, ok, err, protocol_error, ◌>>=◌}
use pymod.Bytes.{Bytes, index}
use pymod.Bytes.Stream.{read_exactly}

abbrev pub exception_bit : ℕ
exception_bit = 0x80

abbrev pub is_read_fc : ℕ → Bool
is_read_fc fc = fc == 0x01 || (fc == 0x02 || (fc == 0x03 || fc == 0x04))

abbrev pub is_write_fc : ℕ → Bool
is_write_fc fc = fc == 0x05 || (fc == 0x06 || (fc == 0x0F || fc == 0x10))

-- The frame, and the bytes that are left in the source.
unfoldable pub read_rtu_response : Bytes → Result (Bytes × Bytes)
unfolding read_exactly index
read_rtu_response source = do
  (head, left) ← read_exactly 2 source
  fc_byte ← index head 1
  if not (bit_and fc_byte exception_bit == 0)
      then (read_exactly 3 left >>= λ (tail, more). ok (head ++ tail, more))
      else if is_read_fc fc_byte
      then (read_exactly 1 left >>= λ (bc, left'). index bc 0 >>= λ n.
          read_exactly (n + 2) left' >>= λ (tail, more). ok ((head ++ bc) ++ tail, more))
      else if is_write_fc fc_byte
      then (read_exactly 6 left >>= λ (tail, more). ok (head ++ tail, more))
      else err protocol_error
