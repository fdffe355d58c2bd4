-- ===== src/Protocol/Pdu/Registry.antt =====
-- The registry of custom codecs of src/pymod/protocol/pdu.py, a module-level dict that is explicit
-- state here. The two functions of a codec are the parameter `C`.
use pymod.Prelude.{
  ℕ, ◌≡◌, ◌≢◌, refl, ◌≤◌, ◌<◌, ◌⊎◌, inl, inr, ◌==◌, leb, ltb, ◌||◌, Bool, true, false, ◌&&◌, not,
  Option, none, some, List, [], ◌∷◌, bit_and, arith, if◌then◌else◌, Bool-cases,
}
use pymod.Prelude.Bits.{all_below, all_below_sound}
use pymod.Errors.{Result, ok, value_error, ◌>>◌, guard}
use pymod.Protocol.Pdu.{exception_bit}

pub record CustomCodec (C : Type 0) : Type 0 where
  pub code : ℕ
  pub functions : C

abbrev pub Registry : Type 0 → Type 0
Registry C = List (ℕ × CustomCodec C)

code_table :
    all_below 256 (λ c. not (bit_and c 0x80 == 0) || (c == 0 || (leb c 16 || ltb c 128))) ≡ true
unfolding all_below
code_table = refl

plain_code :
    (c : ℕ)
    → c < 256
    → bit_and c 0x80 ≡ 0
    → (leb 1 c && leb c 16) ≡ false
    → (c ≡ 0) ⊎ ((17 ≤ c) × (c < 128))
plain_code c h b r = ground (arith, all_below_sound 256 _ code_table c h)

module _ {C : Type 0} where
  unfoldable pub get_codec : ℕ → Registry C → Option (CustomCodec C)
  get_codec code [] = none
  get_codec code ((c, codec) ∷ rest) = if c == code then some codec else get_codec code rest

  -- `codec.code in _CUSTOM_CODECS`
  unfoldable pub is_registered : ℕ → Registry C → Bool
  unfolding get_codec
  is_registered code registry = elim (get_codec code registry) [ none ↦ false | some codec ↦ true ]

  -- Negative codes, which raise the same exception at one of the checks, are left out.
  unfoldable pub register_codec : CustomCodec C → Registry C → Result (Registry C)
  unfolding is_registered
  register_codec codec registry = do
    guard (not (leb 1 codec.code && leb codec.code 0x10)) value_error
    guard (bit_and codec.code exception_bit == 0) value_error
    guard (leb codec.code 0xFF) value_error
    guard (not (is_registered codec.code registry)) value_error
    ok ((codec.code, codec) ∷ registry)

  unfoldable pub unregister_codec : ℕ → Registry C → Registry C
  unregister_codec code [] = []
  unregister_codec code ((c, codec) ∷ rest) =
      let more = unregister_codec code rest in if c == code then more else (c, codec) ∷ more

  -- After a code is unregistered nothing is found under it, and every other code has what it had.
  pub get_codec-unregister_codec :
      (code other : ℕ) (registry : Registry C)
      → (get_codec code (unregister_codec code registry) ≡ none)
        × (other ≢ code
            → get_codec other (unregister_codec code registry) ≡ get_codec other registry)
  unfolding get_codec unregister_codec
  get_codec-unregister_codec code other [] = (refl, λ n. refl)
  get_codec-unregister_codec code other ((c, codec) ∷ rest) =
      let (gone, kept) = get_codec-unregister_codec code other rest in
      elim (Bool-cases (c == code)) [
        | inl y ↦ rw y (gone, λ n. ground (arith, kept n))
        | inr m ↦ rw m (rw m gone, λ n. ground (arith, kept n))
      ]

  -- A codec that is registered is found under its code, which is 0 or from 17 to 127 and had no codec
  -- before, and no other code is affected.
  pub register_codec_lem :
      (codec : CustomCodec C) (registry registry' : Registry C)
      → register_codec codec registry ≡ ok registry'
      → (get_codec codec.code registry' ≡ some codec)
        × (get_codec codec.code registry ≡ none)
        × ((codec.code ≡ 0) ⊎ ((17 ≤ codec.code) × (codec.code < 128)))
        × ((other : ℕ) → other ≢ codec.code → get_codec other registry' ≡ get_codec other registry)
  unfolding register_codec is_registered get_codec
  register_codec_lem codec registry registry' h =
      (ground arith, ground arith, ground (arith, plain_code codec.code), λ other n. ground arith)
