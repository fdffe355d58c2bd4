-- ===== src/Planner/Ranges/Overlap.antt =====
-- The chunks of one area that overlap an item's range, for src/pymod/planner.py.
use pymod.Prelude.{
  ℕ, ◌+◌, ◌≤◌, ◌<◌, ◌≡◌, refl, inl, inr, Bool, true, false, ◌&&◌, ◌||◌, List, [], ◌∷◌, arith, ltb,
  Bool-cases, if◌then◌else◌,
}
use mathlib.Core.Path.{subst}
use native.Mathlib.Decide.{dec_le}
use pymod.Types.{Area}
use pymod.Planner.Ranges.{ReadChunk}
use pymod.Planner.Ranges.Split.{Chunks, Chunks-weaken, any_covers, chunk_covers}

abbrev pub overlaps : ℕ → ℕ → ReadChunk → Bool
overlaps s e c = ltb c.start e && ltb s (c.start + c.count)

abbrev pub overlap : ℕ → ℕ → List ReadChunk → List ReadChunk
overlap s e [] = []
overlap s e (c ∷ rest) = if overlaps s e c then c ∷ overlap s e rest else overlap s e rest

-- Chunks of one area without a gap, from `lo` to `e` or further.
abbrev pub Contiguous : Area → ℕ → List ReadChunk → ℕ → Type 0
Contiguous area lo [] e = e ≤ lo
Contiguous area lo (c ∷ rest) e =
    (c.area ≡ area) × (c.start ≡ lo) × Contiguous area (lo + c.count) rest e

overlap_all :
    (area : Area) (lo s t e : ℕ) (l : List ReadChunk)
    → Chunks area lo l
    → s ≤ lo
    → t ≤ lo
    → overlap s e l ≡ overlap t e l
overlap_all area lo s t e [] h p q = refl
overlap_all area lo s t e (c ∷ l) h p q =
    ground (arith, overlap_all area (c.start + c.count) s t e l h.4 (omega arith) (omega arith))

overlap_none :
    (area : Area) (lo s e : ℕ) (l : List ReadChunk) → Chunks area lo l → e ≤ lo → overlap s e l ≡ []
overlap_none area lo s e [] h p = refl
overlap_none area lo s e (c ∷ l) h p =
    ground (arith, overlap_none area (c.start + c.count) s e l h.4 (omega arith))

any_covers_below :
    (area : Area) (lo x : ℕ) (l : List ReadChunk)
    → Chunks area lo l
    → x < lo
    → any_covers x l ≡ false
any_covers_below area lo x [] h p = refl
any_covers_below area lo x (c ∷ l) h p =
    ground (arith, any_covers_below area (c.start + c.count) x l h.4 (omega arith))

pub overlap-Chunks :
    (area : Area) (lo s e : ℕ) (l : List ReadChunk)
    → Chunks area lo l
    → Chunks area lo (overlap s e l)
overlap-Chunks area lo s e [] h = tt
overlap-Chunks area lo s e (c ∷ l) h = elim (Bool-cases (overlaps s e c)) [
  | inl k ↦ rw k (h.0, h.1, h.2, h.3, overlap-Chunks area (c.start + c.count) s e l h.4)
  | inr n ↦ rw n (
      Chunks-weaken area lo (c.start + c.count) _ (omega arith)
        (overlap-Chunks area (c.start + c.count) s e l h.4))
]

first_of_two : (a b : Bool) → (a || b) ≡ true → a ≡ false → b ≡ true
first_of_two a b h k = ground arith

-- The chunks that overlap `[s, e)` when every address of it is covered.
pub overlap_lem :
    (area : Area) (lo s e : ℕ) (l : List ReadChunk)
    → Chunks area lo l
    → s < e
    → ((x : ℕ) → s ≤ x → x < e → any_covers x l ≡ true)
    → (c : ReadChunk) × (rest : List ReadChunk) × (overlap s e l ≡ c ∷ rest)
      × (c.start ≤ s)
      × Contiguous area c.start (c ∷ rest) e
overlap_lem area lo s e [] h lt cov = absurd (ground (arith, cov s (omega arith) lt))
overlap_lem area lo s e (c ∷ l) h lt cov = elim (dec_le (c.start + c.count) s) [
  | yes before ↦
      let (d, rest, o, p, q) = overlap_lem area (c.start + c.count) s e l h.4 lt (λ x sx xe.
        first_of_two (chunk_covers x c) (any_covers x l) (cov x sx xe) (ground arith)) in
      (d, rest, ground (arith, o), p, q)
  | no after ↦ elim (dec_le c.start s) [
    | no gap ↦ absurd (
        ground (
          arith,
          cov s (omega arith) lt,
          any_covers_below area (c.start + c.count) s l h.4 (omega arith),
        ))
    | yes inside ↦ elim (dec_le e (c.start + c.count)) [
      | yes last ↦ (
        c,
        [],
        ground (arith, overlap_none area (c.start + c.count) s e l h.4 last),
        inside,
        (h.0, refl, last),
      )
      | no more ↦
          let (d, rest, o, p, q) =
            overlap_lem area (c.start + c.count) (c.start + c.count) e l h.4 (omega arith)
              (λ x sx xe.
                first_of_two (chunk_covers x c) (any_covers x l) (cov x (omega arith) xe)
                  (ground arith)) in
          let low : Chunks area (c.start + c.count) (d ∷ rest) =
            subst (λ t. Chunks area (c.start + c.count) t) o
              (overlap-Chunks area (c.start + c.count) (c.start + c.count) e l h.4) in
          let joined : d.start ≡ c.start + c.count = omega arith in
          (
            c,
            d ∷ rest,
            ground (
              arith,
              o,
              overlap_all area (c.start + c.count) s (c.start + c.count) e l h.4 (omega arith)
                  (omega arith),
            ),
            inside,
            (h.0, refl, subst (λ t. Contiguous area t (d ∷ rest) e) joined q),
          )
    ]
  ]
]
