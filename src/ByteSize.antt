-- ===== src/ByteSize.antt =====
-- source/core/common/ByteSizeParser.{h,cpp}: a size as a text, such as "64KB", into a 64-bit number.
-- An exception is a value. `isspace` and `isdigit` are those of the "C" locale.
pub mod Exact
use fiberproxy.Prelude.{
  ℕ, ◌+◌, ◌-◌, ◌*◌, ◌/◌, ◌^◌, Bool, true, false, ◌&&◌, ◌||◌, not, List, [], ◌∷◌, ◌++◌, Option, none,
  some, Bytes, codes, if◌then◌else◌, ◌==◌, ltb, leb, is_empty, upper_byte, lookup, bytes_key,
}

-- What the program throws: a std::runtime_error for a format or a unit, a std::overflow_error.
pub data Error : Type 0 where
  digit_required invalid_unit overflow : Error

pub data Result : Type 0 where
  threw : Error → Result
  value : ℕ → Result

abbrev pub and_then : Result → (ℕ → Result) → Result
and_then (threw e) g = threw e
and_then (value n) g = g n

abbrev pub max_byte_size : ℕ
max_byte_size = 18446744073709551615

abbrev pub is_space : ℕ → Bool
is_space c = c == 32 || (leb 9 c && leb c 13)

abbrev pub is_digit : ℕ → Bool
is_digit c = leb 48 c && leb c 57

-- unitSizeMap_
abbrev pub unit_sizes : List (Bytes × ℕ)
unit_sizes =
    (codes "B", 1)
    ∷ (codes "E", 2 ^ 60)
    ∷ (codes "EB", 2 ^ 60)
    ∷ (codes "G", 2 ^ 30)
    ∷ (codes "GB", 2 ^ 30)
    ∷ (codes "K", 2 ^ 10)
    ∷ (codes "KB", 2 ^ 10)
    ∷ (codes "M", 2 ^ 20)
    ∷ (codes "MB", 2 ^ 20)
    ∷ (codes "P", 2 ^ 50)
    ∷ (codes "PB", 2 ^ 50)
    ∷ (codes "T", 2 ^ 40)
    ∷ (codes "TB", 2 ^ 40)
    ∷ []

unfoldable pub check_add : ℕ → ℕ → Result
check_add a b = if ltb (max_byte_size - b) a then threw overflow else value (a + b)

unfoldable pub check_multiply : ℕ → ℕ → Result
check_multiply a b = if ltb 0 b && ltb (max_byte_size / b) a then threw overflow else value (a * b)

unfoldable pub skip_spaces : Bytes → Bytes
skip_spaces [] = []
skip_spaces (c ∷ s) = if is_space c then skip_spaces s else c ∷ s

unfoldable pub skip_digits : Bytes → Bytes
skip_digits [] = []
skip_digits (c ∷ s) = if is_digit c then skip_digits s else c ∷ s

-- The loop over the digits in front, with the value so far.
unfoldable pub read_digits : Bytes → ℕ → Result
unfolding check_add check_multiply
read_digits [] n = value n
read_digits (c ∷ s) n =
    if is_digit c
    then and_then (check_multiply n 10) (λ m. and_then (check_add m (c - 48)) (read_digits s))
    else value n

-- the letters of the unit, without the spaces
unfoldable pub read_unit : Bytes → Bytes
read_unit [] = []
read_unit (c ∷ s) = if is_space c then read_unit s else upper_byte c ∷ read_unit s

-- `fraction_of s unit` is what `fraction * unitSize` converts to for the text from the point on, or
-- `none` when atof gives 0.
module _ (fraction_of : Bytes → ℕ → Option ℕ) where
  abbrev pub add_fraction : Option ℕ → ℕ → Result
  add_fraction none n = value n
  add_fraction (some f) n = check_add n f

  -- the text from the point on, if there is one, and the text of the unit
  abbrev pub after_digits : Bytes → Option Bytes × Bytes
  after_digits [] = (none, [])
  after_digits (c ∷ s) = if c == b'.' then (some (c ∷ s), skip_digits s) else (none, c ∷ s)

  abbrev pub fraction_at : Option Bytes → ℕ → Option ℕ
  fraction_at none unit_size = none
  fraction_at (some s) unit_size = fraction_of s unit_size

  unfoldable pub scale : Option Bytes → Bytes → ℕ → Result
  unfolding check_multiply check_add
  scale fraction unit n = if is_empty unit then value n else (elim (lookup unit unit_sizes) [
    | none ↦ threw invalid_unit
    | some unit_size ↦
        and_then (check_multiply n unit_size) (add_fraction (fraction_at fraction unit_size))
  ])

  -- from the first digit on
  unfoldable pub from_digits : Bytes → Result
  from_digits s =
      let (fraction, unit) = after_digits (skip_digits s) in
      and_then (read_digits s 0) (scale fraction (read_unit unit))

  unfoldable pub parse_impl : Bytes → Result
  parse_impl str = elim (skip_spaces str) [
    | [] ↦ threw digit_required
    | c ∷ s ↦ if is_digit c then from_digits (c ∷ s) else threw digit_required
  ]

  -- parse<IntT>, by the greatest number of IntT
  unfoldable pub parse : ℕ → Bytes → Result
  parse max_allowed str =
      and_then (parse_impl str)
        (λ result. if ltb max_allowed result then threw overflow else value result)
