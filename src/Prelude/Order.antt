-- ===== src/Prelude/Order.antt =====
-- std::map over byte strings: the keys rise, so that each stands once.
use mathlib.Core.Path.{◌≡◌, refl}
use mathlib.Core.Bool.{true}
use mathlib.Core.Logic.{inl, inr}
use mathlib.Core.Option.{none}
use mathlib.Core.List.{List, [], ◌∷◌}
use native.Mathlib.Omega.{arith}
use fiberproxy.Prelude.Tests.{Bool-cases}
use fiberproxy.Prelude.Text.{
  Bytes, bytes_eq, bytes_eq_iff, bytes_lt, bytes_lt_irrefl, bytes_lt_trans, bytes_lt_total,
}
use fiberproxy.Prelude.Containers.{bytes_key, lookup, insert}

module _ {V : Type 0} where
  abbrev pub Above : Bytes → List (Bytes × V) → Type 0
  Above n [] = Unit
  Above n ((k, w) ∷ m) = (bytes_lt n k ≡ true) × Above n m

  abbrev pub Sorted : List (Bytes × V) → Type 0
  Sorted [] = Unit
  Sorted ((n, w) ∷ m) = Above n m × Sorted m

  Above-trans : (a b : Bytes) (m : List (Bytes × V)) → bytes_lt a b ≡ true → Above b m → Above a m
  Above-trans a b [] h s = tt
  Above-trans a b ((k, w) ∷ m) h s = (bytes_lt_trans a b k h s.0, Above-trans a b m h s.1)

  Above-insert :
      (a n : Bytes) (hosts : V) (m : List (Bytes × V))
      → bytes_lt a n ≡ true
      → Above a m
      → Above a (insert n hosts m)
  unfolding insert
  Above-insert a n hosts [] h s = (h, tt)
  Above-insert a n hosts ((k, w) ∷ m) h s = elim (Bool-cases (bytes_eq k n)) [
    | inl same ↦ rw same (s.0, s.1)
    | inr other ↦ rw other (elim (Bool-cases (bytes_lt n k)) [
      | inl less ↦ rw less (h, (s.0, s.1))
      | inr more ↦ rw more (s.0, Above-insert a n hosts m h s.1)
    ])
  ]

  pub Sorted-insert :
      (n : Bytes) (hosts : V) (m : List (Bytes × V)) → Sorted m → Sorted (insert n hosts m)
  unfolding insert
  Sorted-insert n hosts [] s = (tt, tt)
  Sorted-insert n hosts ((k, w) ∷ m) s = elim (Bool-cases (bytes_eq k n)) [
    | inl same ↦ rw same s
    | inr other ↦ rw other (elim (Bool-cases (bytes_lt n k)) [
      | inl less ↦ rw less ((less, Above-trans n k m less s.0), s)
      | inr more ↦ rw more (
        Above-insert k n hosts m (bytes_lt_total k n other more) s.0,
        Sorted-insert n hosts m s.1,
      )
    ])
  ]

  -- A key below all of a table is not in it.
  pub lookup-Above : (n : Bytes) (m : List (Bytes × V)) → Above n m → lookup n m ≡ none
  unfolding lookup
  lookup-Above n [] s = refl
  lookup-Above n ((k, w) ∷ m) s =
      ground (arith, lookup-Above n m s.1, bytes_eq_iff k n, bytes_lt_irrefl n)

  pub lookup-below :
      (n k : Bytes) (m : List (Bytes × V)) → Above k m → bytes_lt n k ≡ true → lookup n m ≡ none
  lookup-below n k m s h = lookup-Above n m (Above-trans n k m h s)
