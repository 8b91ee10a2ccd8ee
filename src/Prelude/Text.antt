-- ===== src/Prelude/Text.antt =====
-- What the program uses of Go's package strings, over code points.
use Prim.Native.Nat.{ℕ, zero, suc, ◌-◌}
use Prim.Native.Char.{Char, code}
use Prim.Native.String.{String, [], ◌∷◌}
use mathlib.Core.Path.{◌≡◌, refl, ap, ◌∙◌}
use mathlib.Core.Logic.{inl, inr}
use mathlib.Core.Bool.{Bool, true, false, ◌&&◌, ◌||◌}
use service_courier_platform.Prelude.Tests.{leb, eqb, if◌then◌else◌, Bool-cases}

-- `unicode.IsSpace`.
unfoldable pub is_space : ℕ → Bool
is_space c =
    (leb 9 c && leb c 13)
    || eqb c 32
    || eqb c 0x85
    || eqb c 0xa0
    || eqb c 0x1680
    || (leb 0x2000 c && leb c 0x200a)
    || eqb c 0x2028
    || eqb c 0x2029
    || eqb c 0x202f
    || eqb c 0x205f
    || eqb c 0x3000

abbrev pub is_empty : String → Bool
is_empty [] = true
is_empty (_ ∷ _) = false

-- The number of characters.
abbrev pub text_length : String → ℕ
text_length [] = 0
text_length (c ∷ s) = suc (text_length s)

unfoldable pub trim_left : String → String
trim_left [] = []
trim_left (c ∷ s) = let rest = trim_left s in if is_space (code c) then rest else c ∷ s

unfoldable pub trim_right : String → String
trim_right [] = []
trim_right (c ∷ s) =
    let rest = trim_right s in if is_space (code c) && is_empty rest then [] else c ∷ rest

-- `strings.TrimSpace`.
unfoldable pub trim_space : String → String
unfolding trim_left trim_right is_space
trim_space s = trim_right (trim_left s)

-- The character of an alphabet at a place, or a default.
char_at_or : String → ℕ → Char → Char
char_at_or [] n c = c
char_at_or (d ∷ s) zero c = d
char_at_or (d ∷ s) (suc n) c = char_at_or s n c

-- `unicode.ToLower` on ASCII, and on the two other characters with an ASCII lower case (the
-- Kelvin sign and the dotted capital I). The other capitals have a lower case outside ASCII, and
-- stay as they are here: no text of the program that is compared with a lowered one has any.
unfoldable pub lower_char : Char → Char
unfolding char_at_or
lower_char c =
    if leb b'A' (code c) && leb (code c) b'Z'
    then char_at_or "abcdefghijklmnopqrstuvwxyz" (code c - b'A') c
    else if eqb (code c) 0x212a
    then "k"
    else if eqb (code c) 0x130
    then "i"
    else c

-- `strings.ToLower`.
unfoldable pub to_lower : String → String
unfolding lower_char
to_lower [] = []
to_lower (c ∷ s) = lower_char c ∷ to_lower s

trim_space_test : trim_space " \ta b\n " ≡ "a b"
unfolding trim_space
trim_space_test = refl

to_lower_test : to_lower "CrEated" ≡ "created"
unfolding to_lower
to_lower_test = refl

trim_right-trim_right : (s : String) → trim_right (trim_right s) ≡ trim_right s
unfolding trim_right
trim_right-trim_right [] = refl
trim_right-trim_right (c ∷ s) = elim (Bool-cases (is_space (code c) && is_empty (trim_right s))) [
  | inl e ↦ rw e refl
  | inr e ↦ rw (e, trim_right-trim_right s, e) refl
]

-- No space at the start.
abbrev Tight : String → Type 0
Tight [] = Unit
Tight (c ∷ s) = is_space (code c) ≡ false

trim_left-Tight : (s : String) → Tight (trim_left s)
unfolding trim_left
trim_left-Tight [] = tt
trim_left-Tight (c ∷ s) = elim (Bool-cases (is_space (code c))) [
  | inl e ↦ rw e (trim_left-Tight s)
  | inr e ↦ rw e e
]

trim_left-same : (s : String) → Tight s → trim_left s ≡ s
unfolding trim_left
trim_left-same [] h = refl
trim_left-same (c ∷ s) h = rw h refl

trim_right-Tight : (s : String) → Tight s → Tight (trim_right s)
unfolding trim_right
trim_right-Tight [] h = tt
trim_right-Tight (c ∷ s) h = rw h h

-- A text that has been trimmed has nothing to trim.
pub trim_space-trim_space : (s : String) → trim_space (trim_space s) ≡ trim_space s
unfolding trim_space
trim_space-trim_space s =
    ap trim_right (
      trim_left-same (trim_right (trim_left s))
        (trim_right-Tight (trim_left s) (trim_left-Tight s)))
    ∙ trim_right-trim_right (trim_left s)
