-- ===== src/Bytes/Stream.antt =====
-- `readexactly` of an asyncio stream, on the bytes that the peer delivers before the stream ends.
use pymod.Prelude.{
  ℕ, zero, suc, ◌≡◌, refl, ap, leb, le→leb, arith, [], ◌∷◌, ◌++◌, length, take, drop, length-append,
  if◌then◌else◌,
}
use pymod.Errors.{Result, ok, err, incomplete_read}
use pymod.Bytes.{Bytes}

-- The bytes and what is left, or `IncompleteReadError`.
unfoldable pub read_exactly : ℕ → Bytes → Result (Bytes × Bytes)
read_exactly n input =
    if leb n (length input) then ok (take n input, drop n input) else err incomplete_read

take-append : (a b : Bytes) → take (length a) (a ++ b) ≡ a
take-append [] b = refl
take-append (x ∷ a) b = ap (λ (t : Bytes). x ∷ t) (take-append a b)

drop-append : (a b : Bytes) → drop (length a) (a ++ b) ≡ b
drop-append [] b = refl
drop-append (x ∷ a) b = drop-append a b

-- Reading as many bytes as a prefix of the stream has gives the prefix.
pub read_exactly-append : (n : ℕ) (a b : Bytes) → length a ≡ n → read_exactly n (a ++ b) ≡ ok (a, b)
unfolding read_exactly
read_exactly-append n a b e = rw⁻¹ e (
    rw
      (
        le→leb (length a) (length (a ++ b)) (omega (arith, length-append a b)),
        take-append a b,
        drop-append a b,
      )
      refl)

pub take-drop : (n : ℕ) (a : Bytes) → take n a ++ drop n a ≡ a
take-drop zero a = refl
take-drop (suc n) [] = refl
take-drop (suc n) (x ∷ a) = ap (λ (t : Bytes). x ∷ t) (take-drop n a)
