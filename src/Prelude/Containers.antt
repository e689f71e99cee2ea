-- ===== src/Prelude/Containers.antt =====
-- std::map and std::set as lists in the order of their keys, over an interface for the keys.
use Prim.Native.Nat.{ℕ}
use mathlib.Core.Path.{◌≡◌, refl}
use mathlib.Core.Logic.{◌↔◌}
use mathlib.Core.Bool.{Bool, true, false, ◌&&◌, ◌||◌}
use mathlib.Core.Option.{Option, none, some}
use mathlib.Core.List.{List, [], ◌∷◌}
use native.Mathlib.Omega.{arith}
use fiberproxy.Prelude.Tests.{ltb, ◌==◌ as nat_beq, if◌then◌else◌, ==_iff}
use fiberproxy.Prelude.Text.{Bytes, bytes_eq, bytes_eq_iff, bytes_lt}

pub record Key {ℓ} (A : Type ℓ) : Type ℓ where
  pub beq : A → A → Bool
  pub blt : A → A → Bool
  pub beq_iff : (a b : A) → (beq a b ≡ true) ↔ (a ≡ b)

instance abbrev pub nat_key : Key ℕ
nat_key = record { beq = nat_beq; blt = ltb; beq_iff = ==_iff }

instance abbrev pub bytes_key : Key Bytes
bytes_key = record { beq = bytes_eq; blt = bytes_lt; beq_iff = bytes_eq_iff }

pub pair_eq : Bytes × Bytes → Bytes × Bytes → Bool
pair_eq (a, b) (c, d) = bytes_eq a c && bytes_eq b d

pub pair_eq_iff : (p q : Bytes × Bytes) → (pair_eq p q ≡ true) ↔ (p ≡ q)
unfolding pair_eq
pair_eq_iff (a, b) (c, d) = ground (arith, bytes_eq_iff a c, bytes_eq_iff b d)

pub pair_lt : Bytes × Bytes → Bytes × Bytes → Bool
pair_lt (a, b) (c, d) = bytes_lt a c || (bytes_eq a c && bytes_lt b d)

instance abbrev pub pair_key : Key (Bytes × Bytes)
pair_key = record { beq = pair_eq; blt = pair_lt; beq_iff = pair_eq_iff }

module _ {ℓ} {A : Type ℓ} ⦃k : Key A⦄ where
  -- std::set
  unfoldable pub contains : A → List A → Bool
  contains a [] = false
  contains a (x ∷ xs) = k.beq x a || contains a xs

  pub beq_refl : (a : A) → k.beq a a ≡ true
  beq_refl a = (k.beq_iff a a).1 refl

  unfoldable pub add : A → List A → List A
  add a [] = a ∷ []
  add a (x ∷ xs) = if k.beq x a then x ∷ xs else if k.blt a x then a ∷ x ∷ xs else x ∷ add a xs

  pub contains-add : (a b : A) (xs : List A) → contains b (add a xs) ≡ (k.beq a b || contains b xs)
  unfolding contains add
  contains-add a b [] = refl
  contains-add a b (x ∷ xs) =
      ground (arith, k.beq_iff x a, k.beq_iff a b, k.beq_iff x b, contains-add a b xs)

module _ {ℓ κ} {A : Type ℓ} {V : Type κ} ⦃k : Key A⦄ where
  -- std::map
  unfoldable pub lookup : A → List (A × V) → Option V
  lookup a [] = none
  lookup a ((b, v) ∷ m) = if k.beq b a then some v else lookup a m

  unfoldable pub insert : A → V → List (A × V) → List (A × V)
  insert a v [] = (a, v) ∷ []
  insert a v ((b, w) ∷ m) =
      if k.beq b a
      then (b, v) ∷ m
      else if k.blt a b
      then (a, v) ∷ (b, w) ∷ m
      else (b, w) ∷ insert a v m

  unfoldable pub erase : A → List (A × V) → List (A × V)
  erase a [] = []
  erase a ((b, w) ∷ m) = if k.beq b a then erase a m else (b, w) ∷ erase a m

  -- m[a], which default-constructs a missing entry
  abbrev pub lookup_or : A → V → List (A × V) → V
  lookup_or a d m = elim (lookup a m) [ none ↦ d | some v ↦ v ]

  abbrev pub keys : List (A × V) → List A
  keys [] = []
  keys ((b, w) ∷ m) = b ∷ keys m

  pub lookup-insert :
      (a b : A) (v : V) (m : List (A × V))
      → lookup b (insert a v m) ≡ (if k.beq a b then some v else lookup b m)
  unfolding lookup insert
  lookup-insert a b v [] = refl
  lookup-insert a b v ((c, w) ∷ m) =
      ground (arith, k.beq_iff c a, k.beq_iff a b, k.beq_iff c b, lookup-insert a b v m)

  pub lookup-erase :
      (a b : A) (m : List (A × V)) → lookup b (erase a m) ≡ (if k.beq a b then none else lookup b m)
  unfolding lookup erase
  lookup-erase a b [] = ground arith
  lookup-erase a b ((c, w) ∷ m) =
      ground (arith, k.beq_iff c a, k.beq_iff a b, k.beq_iff c b, lookup-erase a b m)

  pub lookup-insert_self : (a : A) (v : V) (m : List (A × V)) → lookup a (insert a v m) ≡ some v
  lookup-insert_self a v m = rw (lookup-insert a a v m, beq_refl a)

  pub lookup_or-insert_self :
      (a : A) (d v : V) (m : List (A × V)) → lookup_or a d (insert a v m) ≡ v
  lookup_or-insert_self a d v m = rw (lookup-insert_self a v m, lookup_or)

pub ruleset map_laws = (lookup-insert, lookup-erase)
