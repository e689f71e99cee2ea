-- ===== src/ByteSize/Exact.antt =====
-- The number that is read is exact: it never wraps around.
use fiberproxy.Prelude.{
  ℕ, ◌+◌, ◌-◌, ◌*◌, ◌/◌, ◌≤◌, ◌<◌, true, List, [], ◌∷◌, Option, none, some, Bytes, ◌≡◌, refl, ap,
  subst, arith, sym, ◌∙◌, if◌then◌else◌, ltb, leb, ltb→lt, leb→le, ◌↔◌, All, lookup, bytes_eq,
  bytes_key, Bool-cases, inl, inr,
}
use fiberproxy.ByteSize.{
  Result, threw, value, and_then, overflow, max_byte_size, is_digit, check_add, check_multiply,
  read_digits, skip_digits, skip_spaces, read_unit, unit_sizes, scale, add_fraction, after_digits,
  from_digits, parse_impl, digit_required,
}
use native.Mathlib.Nat.{le-div_iff_mul-le, mul-zero, mul-one, mul-le-mul_left}

-- The value of the digits in front, without a bound.
abbrev pub decimal : Bytes → ℕ → ℕ
decimal [] n = n
decimal (c ∷ s) n = if is_digit c then decimal s (n * 10 + (c - 48)) else n

-- The exact number if it fits, and the overflow exception if it does not.
abbrev pub fit : ℕ → Result
fit n = if leb n max_byte_size then value n else threw overflow

check_add-fit : (a b : ℕ) → b ≤ max_byte_size → check_add a b ≡ fit (a + b)
unfolding check_add
check_add-fit a b h = ground arith

check_multiply-fit : (a b : ℕ) → check_multiply a b ≡ fit (a * b)
unfolding check_multiply
check_multiply-fit a b = elim (Bool-cases (ltb 0 b)) [
  | inl positive ↦
      let bound : (a ≤ max_byte_size / b) ↔ (a * b ≤ max_byte_size) =
        le-div_iff_mul-le (ltb→lt 0 b positive) in
      ground (arith, bound)
  | inr not_positive ↦ let none_left : b ≡ 0 = ground arith in rw none_left (rw (mul-zero a) refl)
]

decimal-le : (s : Bytes) (n : ℕ) → n ≤ decimal s n
decimal-le [] n = omega arith
decimal-le (c ∷ s) n = ground (arith, decimal-le s (n * 10 + (c - 48)))

and_then-overflow :
    (n m : ℕ) (r : Result)
    → fit n ≡ r
    → n ≤ m
    → (g : ℕ → Result) → (n ≤ max_byte_size → g n ≡ fit m)
    → and_then r g ≡ fit m
and_then-overflow n m r e h g ok = elim (Bool-cases (leb n max_byte_size)) [
  | inl fits ↦ rw (sym e) (rw fits (ok (leb→le n max_byte_size fits)))
  | inr over ↦ rw (sym e) (rw over (ground arith))
]

read_digits-fit : (s : Bytes) (n : ℕ) → n ≤ max_byte_size → read_digits s n ≡ fit (decimal s n)
unfolding read_digits
read_digits-fit [] n h = ground arith
read_digits-fit (c ∷ s) n h = elim (Bool-cases (is_digit c)) [
  | inr other ↦ rw other (ground arith)
  | inl digit ↦ rw digit (
      and_then-overflow (n * 10) (decimal s (n * 10 + (c - 48))) _ (sym (check_multiply-fit n 10))
        (omega (arith, decimal-le s (n * 10 + (c - 48))))
        (λ m. and_then (check_add m (c - 48)) (read_digits s))
        (λ small.
          and_then-overflow (n * 10 + (c - 48)) (decimal s (n * 10 + (c - 48))) _
            (sym (check_add-fit (n * 10) (c - 48) (ground arith)))
            (decimal-le s (n * 10 + (c - 48))) (read_digits s)
            (read_digits-fit s (n * 10 + (c - 48)))))
]

lookup-positive :
    (unit : Bytes) (m : List (Bytes × ℕ)) (size : ℕ)
    → All (λ p. 0 < p.1) m
    → lookup unit m ≡ some size
    → 0 < size
unfolding lookup
lookup-positive unit [] size h e = cc
lookup-positive unit ((u, n) ∷ m) size h e = elim (Bool-cases (bytes_eq u unit)) [
  | inl same ↦ ground (arith, h.0)
  | inr other ↦ lookup-positive unit m size h.1 (rw other at e)
]

-- The size of a unit; no unit stands for bytes.
abbrev pub unit_size : Bytes → Option ℕ
unit_size [] = some 1
unit_size (c ∷ u) = lookup (c ∷ u) unit_sizes

All-positive : All (λ p. 0 < p.1) unit_sizes
All-positive = omega arith

unit_size-positive : (unit : Bytes) (size : ℕ) → unit_size unit ≡ some size → 0 < size
unit_size-positive [] size e = ground arith
unit_size-positive (c ∷ u) size e = lookup-positive (c ∷ u) unit_sizes size All-positive e

grows : (n size : ℕ) → 0 < size → n ≤ n * size
grows n size h = omega (arith, mul-le-mul_left {m = 1} {n = size} n (omega arith), mul-one n)

module _ (fraction_of : Bytes → ℕ → Option ℕ) where
  and_then_value : (r : Result) → and_then r (add_fraction fraction_of none) ≡ r
  and_then_value (threw e) = refl
  and_then_value (value n) = refl

  scale-fit :
      (unit : Bytes) (n size : ℕ)
      → n ≤ max_byte_size
      → unit_size unit ≡ some size
      → scale fraction_of none unit n ≡ fit (n * size)
  unfolding scale
  scale-fit [] n size h e =
      let one : 1 ≡ size = ground arith in
      subst (λ k. value n ≡ fit (n * k)) one (rw (mul-one n) (ground arith))
  scale-fit (c ∷ u) n size h e =
      rw (e, scale) (and_then_value (check_multiply n size) ∙ check_multiply-fit n size)

  from_digits-fit :
      (s unit : Bytes) (size : ℕ)
      → after_digits fraction_of (skip_digits s) ≡ (none, unit)
      → unit_size (read_unit unit) ≡ some size
      → from_digits fraction_of s ≡ fit (decimal s 0 * size)
  unfolding from_digits
  from_digits-fit s unit size a u = rw a (
      and_then-overflow (decimal s 0) (decimal s 0 * size) (read_digits s 0)
        (sym (read_digits-fit s 0 (omega arith)))
        (grows (decimal s 0) size (unit_size-positive (read_unit unit) size u))
        (scale fraction_of none (read_unit unit))
        (λ h. scale-fit (read_unit unit) (decimal s 0) size h u))

  -- A number with no fraction, in a known unit or none, is read as exactly its digits times the
  -- size of the unit when that fits in 64 bits, and is refused as an overflow when it does not.
  pub parse_impl-fit :
      (str : Bytes) (c : ℕ) (s unit : Bytes) (size : ℕ)
      → skip_spaces str ≡ c ∷ s
      → is_digit c ≡ true
      → after_digits fraction_of (skip_digits (c ∷ s)) ≡ (none, unit)
      → unit_size (read_unit unit) ≡ some size
      → parse_impl fraction_of str ≡ fit (decimal (c ∷ s) 0 * size)
  unfolding parse_impl
  parse_impl-fit str c s unit size e d a u =
      rw (e, parse_impl)
        (ap (λ b. if b then from_digits fraction_of (c ∷ s) else threw digit_required) d)
      ∙ from_digits-fit (c ∷ s) unit size a u
