-- ===== src/Text/Split.antt =====
-- Texts joined by a separator, and `split`.
use pymod.Prelude.{ℕ, ◌≡◌, refl, ap, ◌∙◌, false, List, [], ◌∷◌, ◌++◌, ◌==◌, All, eq→==}
use pymod.Text.{Text, split, onto_first, join}

-- A code point that is not the separator goes on with the first piece.
split-onto_first :
    (sep c : ℕ) (s : Text) → (c == sep) ≡ false → split sep (c ∷ s) ≡ onto_first c (split sep s)
unfolding split
split-onto_first sep c s h = rw (split, h) refl

abbrev pub Without : ℕ → Text → Type 0
Without sep s = All (λ c. (c == sep) ≡ false) s

split-append : (sep : ℕ) (s t : Text) → Without sep s → split sep (s ++ (sep ∷ t)) ≡ s ∷ split sep t
unfolding split onto_first
split-append sep [] t h = rw (split, eq→== sep sep refl) refl
split-append sep (c ∷ s) t h =
    split-onto_first sep c (s ++ (sep ∷ t)) h.0 ∙ rw (split-append sep s t h.1) refl

split_whole : (sep : ℕ) (s : Text) → Without sep s → split sep s ≡ s ∷ []
unfolding split onto_first
split_whole sep [] h = refl
split_whole sep (c ∷ s) h = split-onto_first sep c s h.0 ∙ rw (split_whole sep s h.1) refl

-- Joined pieces without the separator are split again.
pub split-join :
    (sep : ℕ) (piece : Text) (rest : List Text)
    → All (Without sep) (piece ∷ rest)
    → split sep (join (sep ∷ []) (piece ∷ rest)) ≡ piece ∷ rest
unfolding join
split-join sep piece [] h = split_whole sep piece h.0
split-join sep piece (next ∷ rest) h =
    split-append sep piece (join (sep ∷ []) (next ∷ rest)) h.0
    ∙ ap (λ (l : List Text). piece ∷ l) (split-join sep next rest h.1)
