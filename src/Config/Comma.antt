-- ===== src/Config/Comma.antt =====
-- parseByComma of XmlConfigParser.cpp, by the positions of the code.
use fiberproxy.Prelude.{
  ℕ, zero, suc, ◌+◌, ◌-◌, Bool, ◌||◌, not, List, [], ◌∷◌, Option, none, some, Bytes, codes,
  if◌then◌else◌, ◌==◌, length, take, drop, ◌≡◌, refl,
}

-- one of " ,\t"
abbrev pub is_delimiter : ℕ → Bool
is_delimiter c = c == b' ' || c == b',' || c == 9

abbrev pub not_delimiter : ℕ → Bool
not_delimiter c = not (is_delimiter c)

abbrev pub one_later : Option ℕ → Option ℕ
one_later none = none
one_later (some i) = some (suc i)

-- find_first_of and find_first_not_of from a position on, by the test of a character
unfoldable pub find_first : (ℕ → Bool) → Bytes → ℕ → Option ℕ
find_first p [] start = none
find_first p (c ∷ s) zero = if p c then some 0 else one_later (find_first p s zero)
find_first p (c ∷ s) (suc start) = one_later (find_first p s start)

-- npos becomes the length
abbrev pub or_length : Bytes → Option ℕ → ℕ
or_length str none = length str
or_length str (some i) = i

abbrev pub substr : Bytes → ℕ → ℕ → Bytes
substr str pos n = take n (drop pos str)

-- The loop, on fuel; each round begins behind the one before.
module _ (str : Bytes) where
  abbrev pub comma_round : (ℕ → List Bytes) → Option ℕ → List Bytes
  comma_round rest none = []
  comma_round rest (some start) =
      let end_index = or_length str (find_first is_delimiter str (start + 1)) in
      substr str start (end_index - start) ∷ rest (end_index + 1)

  unfoldable pub comma_loop : ℕ → ℕ → List Bytes
  comma_loop zero start = []
  comma_loop (suc fuel) start = comma_round (comma_loop fuel) (find_first not_delimiter str start)

unfoldable pub parse_by_comma : Bytes → List Bytes
parse_by_comma str = comma_loop str (suc (length str)) 0

two_words : parse_by_comma (codes " ab,c, ") ≡ codes "ab" ∷ codes "c" ∷ []
unfolding parse_by_comma comma_loop find_first
two_words = refl
