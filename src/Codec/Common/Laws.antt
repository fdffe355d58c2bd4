-- ===== src/Codec/Common/Laws.antt =====
-- The two conversions of src/pymod/codec/_common.py after one another, in the four layouts.
use mathlib.Core.List.{reverse_aux, reverse-reverse}
use pymod.Prelude.{ℕ, zero, suc, ◌+◌, ◌*◌, ◌≡◌, ◌∙◌, refl, ap, List, [], ◌∷◌, arith, length, All}
use pymod.Errors.{ok}
use pymod.Types.{ByteOrder, big, little, WordOrder}
use pymod.Bytes.{Bytes, IsByte, IsWord, join_words}
use pymod.Codec.Common.{
  check_registers, in_word_order, join_in_order, registers_to_bytes, read_chunks,
  bytes_to_registers,
}

pub check_registers-IsWord : (rs : List ℕ) → check_registers rs ≡ ok tt → All IsWord rs
unfolding check_registers
check_registers-IsWord [] h = tt
check_registers-IsWord (r ∷ rs) h = (ground arith, check_registers-IsWord rs (ground arith))

pub IsWord-check_registers : (rs : List ℕ) → All IsWord rs → check_registers rs ≡ ok tt
unfolding check_registers
IsWord-check_registers [] h = refl
IsWord-check_registers (r ∷ rs) h = ground (arith, IsWord-check_registers rs h.1)

in_word_order_twice {ℓ} :
    {A : Type ℓ} (o : WordOrder) (xs : List A) → in_word_order o (in_word_order o xs) ≡ xs
in_word_order_twice big xs = refl
in_word_order_twice little xs = reverse-reverse xs

read_chunks-join : (o : ByteOrder) (rs : List ℕ) → read_chunks o (join_in_order o rs) ≡ rs
unfolding read_chunks join_in_order join_words
read_chunks-join big [] = refl
read_chunks-join big (r ∷ rs) = ground (arith, read_chunks-join big rs)
read_chunks-join little [] = refl
read_chunks-join little (r ∷ rs) = ground (arith, read_chunks-join little rs)

length-join : (o : ByteOrder) (rs : List ℕ) → length (join_in_order o rs) ≡ 2 * length rs
unfolding join_in_order join_words
length-join big [] = refl
length-join big (r ∷ rs) = omega (arith, length-join big rs)
length-join little [] = refl
length-join little (r ∷ rs) = omega (arith, length-join little rs)

All-reverse_aux {ℓ} :
    {A : Type ℓ} (P : A → Type 0) (xs ys : List A) → All P xs → All P ys → All P (reverse_aux xs ys)
All-reverse_aux P [] ys hx hy = hy
All-reverse_aux P (x ∷ xs) ys hx hy = All-reverse_aux P xs (x ∷ ys) hx.1 (hx.0, hy)

length-reverse_aux {ℓ} :
    {A : Type ℓ} (xs ys : List A) → length (reverse_aux xs ys) ≡ length xs + length ys
length-reverse_aux [] ys = omega arith
length-reverse_aux (x ∷ xs) ys = omega (arith, length-reverse_aux xs (x ∷ ys))

pub All-in_word_order {ℓ} :
    {A : Type ℓ} (P : A → Type 0) (o : WordOrder) (xs : List A)
    → All P xs
    → All P (in_word_order o xs)
All-in_word_order P big xs h = h
All-in_word_order P little xs h = All-reverse_aux P xs [] h tt

pub length-in_word_order {ℓ} :
    {A : Type ℓ} (o : WordOrder) (xs : List A) → length (in_word_order o xs) ≡ length xs
length-in_word_order big xs = refl
length-in_word_order little xs = length-reverse_aux xs [] ∙ omega arith

-- In every layout, the bytes of a block of registers convert back to the block.
pub bytes_to_registers-registers_to_bytes :
    (registers : List ℕ) (word_order : WordOrder) (byte_order : ByteOrder) {raw : Bytes}
    → registers_to_bytes registers word_order byte_order ≡ ok raw
    → bytes_to_registers raw word_order byte_order ≡ ok registers
unfolding registers_to_bytes bytes_to_registers
bytes_to_registers-registers_to_bytes registers wo bo {raw} h =
    let e : join_in_order bo (in_word_order wo registers) ≡ raw = ground arith in
    rw (← e, read_chunks-join bo (in_word_order wo registers), in_word_order_twice wo registers)
      (ground (arith, length-join bo (in_word_order wo registers)))

join-read_chunks :
    (o : ByteOrder) (n : ℕ) (raw : Bytes)
    → length raw ≡ 2 * n
    → All IsByte raw
    → (join_in_order o (read_chunks o raw) ≡ raw)
      × All IsWord (read_chunks o raw)
      × (length (read_chunks o raw) ≡ n)
unfolding read_chunks join_in_order join_words
join-read_chunks big zero [] h hb = (refl, tt, refl)
join-read_chunks little zero [] h hb = (refl, tt, refl)
join-read_chunks o zero (a ∷ raw) h hb = absurd (omega arith)
join-read_chunks o (suc n) [] h hb = absurd (omega arith)
join-read_chunks o (suc n) (a ∷ []) h hb = absurd (omega arith)
join-read_chunks big (suc n) (a ∷ b ∷ raw) h hb =
    let (e, w, l) = join-read_chunks big n raw (omega arith) hb.1.1 in
    (ground arith, (omega arith, w), omega arith)
join-read_chunks little (suc n) (a ∷ b ∷ raw) h hb =
    let (e, w, l) = join-read_chunks little n raw (omega arith) hb.1.1 in
    (ground arith, (omega arith, w), omega arith)

-- In every layout: `2 * n` bytes convert to `n` registers that fit a word, and these convert back.
pub registers_to_bytes-bytes_to_registers :
    (raw : Bytes) (n : ℕ) (word_order : WordOrder) (byte_order : ByteOrder)
    → length raw ≡ 2 * n
    → All IsByte raw
    → (registers : List ℕ) × (bytes_to_registers raw word_order byte_order ≡ ok registers)
      × (length registers ≡ n)
      × All IsWord registers
      × (registers_to_bytes registers word_order byte_order ≡ ok raw)
unfolding registers_to_bytes bytes_to_registers
registers_to_bytes-bytes_to_registers raw n wo bo h hb =
    let (e, w, l) = join-read_chunks bo n raw h hb in
    (
      in_word_order wo (read_chunks bo raw),
      ground arith,
      length-in_word_order wo (read_chunks bo raw) ∙ l,
      All-in_word_order IsWord wo (read_chunks bo raw) w,
      rw
          (IsWord-check_registers (in_word_order wo (read_chunks bo raw))
            (All-in_word_order IsWord wo (read_chunks bo raw) w))
          (ap (λ (s : List ℕ). ok (join_in_order bo s))
              (in_word_order_twice wo (read_chunks bo raw))
            ∙ ap ok e),
    )
