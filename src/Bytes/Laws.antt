-- ===== src/Bytes/Laws.antt =====
-- Laws of the packing functions, for values in range.
use pymod.Prelude.{ℕ, ◌*◌, ◌/◌, ◌%◌, ◌<◌, ◌≡◌, refl, List, [], ◌∷◌, arith, length, All}
use pymod.Errors.{ok}
use pymod.Bytes.{
  IsByte, IsWord, pack_bhh, pack_bhhb, to_bytes_words, pack_words, unpack_words, join_words,
}

pub pack_bhh_lem :
    (fc a b : ℕ)
    → fc < 256
    → a < 65536
    → b < 65536
    → pack_bhh fc a b ≡ ok (fc ∷ (a / 256) ∷ (a % 256) ∷ (b / 256) ∷ (b % 256) ∷ [])
unfolding pack_bhh
pack_bhh_lem fc a b hf ha hb = ground arith

pub pack_words-join_words : (vs : List ℕ) → All IsWord vs → pack_words vs ≡ ok (join_words vs)
unfolding pack_words join_words
pack_words-join_words [] h = refl
pack_words-join_words (v ∷ vs) h = ground (arith, pack_words-join_words vs h.1)

pub length-join_words : (vs : List ℕ) → length (join_words vs) ≡ 2 * length vs
unfolding join_words
length-join_words [] = refl
length-join_words (v ∷ vs) = omega (arith, length-join_words vs)

pub unpack_words-join_words : (vs : List ℕ) → unpack_words (length vs) (join_words vs) ≡ ok vs
unfolding unpack_words join_words
unpack_words-join_words [] = refl
unpack_words-join_words (v ∷ vs) = ground (arith, unpack_words-join_words vs)

pub All-join_words : (vs : List ℕ) → All IsWord vs → All IsByte (join_words vs)
unfolding join_words
All-join_words [] h = tt
All-join_words (v ∷ vs) h = (omega arith, (omega arith, All-join_words vs h.1))

pub pack_bhhb_lem :
    (fc a b c : ℕ)
    → fc < 256
    → a < 65536
    → b < 65536
    → c < 256
    → pack_bhhb fc a b c ≡ ok (fc ∷ (a / 256) ∷ (a % 256) ∷ (b / 256) ∷ (b % 256) ∷ c ∷ [])
unfolding pack_bhhb
pack_bhhb_lem fc a b c hf ha hb hc = ground arith

pub to_bytes_words-join_words :
    (vs : List ℕ) → All IsWord vs → to_bytes_words vs ≡ ok (join_words vs)
unfolding to_bytes_words join_words
to_bytes_words-join_words [] h = refl
to_bytes_words-join_words (v ∷ vs) h = ground (arith, to_bytes_words-join_words vs h.1)
