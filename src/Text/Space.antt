-- ===== src/Text/Space.antt =====
-- `strings.TrimSpace` of ASCII text.
use event_pool.Prelude.{
  ℕ, ◌≤◌, ◌<◌, ◌≡◌, ◌↔◌, refl, ap, ◌∙◌, length, inl, inr, [], ◌∷◌, Bool, true, false, ◌&&◌, ◌||◌,
  if◌then◌else◌, leb, nat_eq, arith, Bool-cases,
}
use event_pool.Text.{Text}

-- Tab, line feed, vertical tab, form feed, carriage return and space.
abbrev pub is_space : ℕ → Bool
is_space c = (leb 9 c && leb c 13) || nat_eq c 32

abbrev is_nil : Text → Bool
is_nil [] = true
is_nil (c ∷ cs) = false

unfoldable pub trim_left : Text → Text
trim_left [] = []
trim_left (c ∷ cs) = if is_space c then trim_left cs else c ∷ cs

unfoldable pub trim_right : Text → Text
trim_right [] = []
trim_right (c ∷ cs) = let rest = trim_right cs in if is_nil rest && is_space c then [] else c ∷ rest

unfoldable pub trim_space : Text → Text
unfolding trim_left trim_right
trim_space s = trim_right (trim_left s)

abbrev starts_spaced : Text → Bool
starts_spaced [] = false
starts_spaced (c ∷ cs) = is_space c

abbrev ends_spaced : Text → Bool
ends_spaced [] = false
ends_spaced (c ∷ cs) = if is_nil cs then is_space c else ends_spaced cs

-- Whether the first or the last byte is a space.
abbrev pub is_padded : Text → Bool
is_padded s = starts_spaced s || ends_spaced s

length-trim_left : (s : Text) → length (trim_left s) ≤ length s
unfolding trim_left
length-trim_left [] = omega arith
length-trim_left (c ∷ cs) = ground (arith, length-trim_left cs)

length-trim_right : (s : Text) → length (trim_right s) ≤ length s
unfolding trim_right
length-trim_right [] = omega arith
length-trim_right (c ∷ cs) = ground (arith, length-trim_right cs)

trim_left-less : (s : Text) → starts_spaced s ≡ true → length (trim_left s) < length s
unfolding trim_left
trim_left-less [] e = cc
trim_left-less (c ∷ cs) e = ground (arith, length-trim_left cs)

trim_right-less : (s : Text) → ends_spaced s ≡ true → length (trim_right s) < length s
unfolding trim_right
trim_right-less [] e = cc
trim_right-less (c ∷ []) e = ground arith
trim_right-less (c ∷ d ∷ cs) e = ground (arith, trim_right-less (d ∷ cs))

trim_left-same : (s : Text) → starts_spaced s ≡ false → trim_left s ≡ s
unfolding trim_left
trim_left-same [] e = refl
trim_left-same (c ∷ cs) e = ground arith

trim_right-same : (s : Text) → ends_spaced s ≡ false → trim_right s ≡ s
unfolding trim_right
trim_right-same [] e = refl
trim_right-same (c ∷ []) e = ground arith
trim_right-same (c ∷ d ∷ cs) e = ground (arith, trim_right-same (d ∷ cs))

-- A text keeps its length and its bytes exactly where neither end is a space.
pub trim_space-same : (s : Text) → (trim_space s ≡ s) ↔ (is_padded s ≡ false)
unfolding trim_space
trim_space-same s = elim (Bool-cases (starts_spaced s)) [
  | inl space ↦
      let less : length (trim_space s) < length s =
        omega (arith, trim_left-less s space, length-trim_right (trim_left s)) in
      (λ e. absurd (omega (arith, less, ap length e)), λ e. cc (space, e))
  | inr not_first ↦
      let same = trim_left-same s not_first in
      elim (Bool-cases (ends_spaced s)) [
        | inl space ↦ (
          λ e. absurd (
              omega (
                arith,
                trim_right-less s space,
                ap length e,
                ap (λ t. length (trim_right t)) same,
              )),
          λ e. cc (not_first, space, e),
        )
        | inr not_last ↦
            (λ e. cc (not_first, not_last), λ e. ap trim_right same ∙ trim_right-same s not_last)
      ]
]
