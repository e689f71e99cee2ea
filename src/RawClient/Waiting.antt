-- ===== src/RawClient/Waiting.antt =====
-- The table of the futures that wait, and what an error does to them.
use fiberproxy.Prelude.{
  ℕ, true, false, List, [], ◌∷◌, Option, none, some, Bytes, ◌≡◌, ◌≢◌, refl, subst, sym, ◌∙◌, arith,
  if◌then◌else◌, ◌==◌, ==_iff, Bool-cases, inl, inr, ◌⊎◌, lookup, insert, erase, nat_key,
  lookup-insert,
}
use fiberproxy.ClientFuture.{Future, set_result}
use fiberproxy.RawClient.{update, fail_all}

pub lookup-update :
    (i h : ℕ) (g : Future → Future) (heap : List (ℕ × Future)) (f : Future)
    → lookup h heap ≡ some f
    → lookup h (update i g heap) ≡ some (if i == h then g f else f)
lookup-update i h g heap f e = go (lookup i heap) refl
  where
    go :
        (o : Option Future)
        → lookup i heap ≡ o
        → lookup h
            (elim o as (λ _. List (ℕ × Future)) [ none ↦ heap | some f' ↦ insert i (g f') heap ])
          ≡ some (if i == h then g f else f)
    go none q = ground (arith, ==_iff i h, e, q)
    go (some f') q = ground (arith, lookup-insert i h (g f') heap, ==_iff i h)

-- The values of a table.
abbrev pub Among : ℕ → List (ℕ × ℕ) → Type 0
Among h [] = ⊥
Among h ((k, v) ∷ l) = (v ≡ h) ⊎ Among h l

-- No future waits for two numbers.
abbrev pub Distinct : List (ℕ × ℕ) → Type 0
Distinct [] = Unit {0}
Distinct ((k, v) ∷ l) = (Among v l → ⊥) × Distinct l

pub Among-erase : (h k : ℕ) (l : List (ℕ × ℕ)) → Among h (erase k l) → Among h l
unfolding erase
Among-erase h k [] a = a
Among-erase h k ((j, v) ∷ l) a = elim (Bool-cases (j == k)) [
  | inl same ↦ inr (Among-erase h k l (rw same at a))
  | inr other ↦ go (Among-erase h k l) (rw other at a)
]
  where
    go : (Among h (erase k l) → Among h l) → (v ≡ h) ⊎ Among h (erase k l) → (v ≡ h) ⊎ Among h l
    go r (inl e) = inl e
    go r (inr b) = inr (r b)

pub Distinct-erase : (k : ℕ) (l : List (ℕ × ℕ)) → Distinct l → Distinct (erase k l)
unfolding erase
Distinct-erase k [] d = d
Distinct-erase k ((j, v) ∷ l) d = elim (Bool-cases (j == k)) [
  | inl same ↦ rw same (Distinct-erase k l d.1)
  | inr other ↦ rw other ((λ a. d.0 (Among-erase v k l a)), Distinct-erase k l d.1)
]

pub lookup-Among : (k h : ℕ) (l : List (ℕ × ℕ)) → lookup k l ≡ some h → Among h l
unfolding lookup
lookup-Among k h [] e = cc
lookup-Among k h ((j, v) ∷ l) e = elim (Bool-cases (j == k)) [
  | inl same ↦ inl (ground arith)
  | inr other ↦ inr (lookup-Among k h l (rw other at e))
]

-- The error is set again to no effect.
fail_all_done :
    (message : Bytes) (h : ℕ) (l : List (ℕ × ℕ)) (heap : List (ℕ × Future)) (f : Future)
    → lookup h heap ≡ some (set_result message false true f)
    → lookup h (fail_all message l heap) ≡ some (set_result message false true f)
unfolding fail_all
fail_all_done message h [] heap f e = e
fail_all_done message h ((k, v) ∷ l) heap f e =
    fail_all_done message h l _ f
      (lookup-update v h (set_result message false true) heap _ e ∙ ground arith)

pub fail_all-Among :
    (message : Bytes) (h : ℕ) (l : List (ℕ × ℕ)) (heap : List (ℕ × Future)) (f : Future)
    → Among h l
    → lookup h heap ≡ some f
    → lookup h (fail_all message l heap) ≡ some (set_result message false true f)
unfolding fail_all
fail_all-Among message h [] heap f a e = elim a [ ]
fail_all-Among message h ((k, v) ∷ l) heap f a e = elim (Bool-cases (v == h)) [
  | inl same ↦
      fail_all_done message h l _ f
        (lookup-update v h (set_result message false true) heap f e ∙ rw same refl)
  | inr other ↦
      fail_all-Among message h l _ f (rest other a)
        (lookup-update v h (set_result message false true) heap f e ∙ rw other refl)
]
  where
    rest : (v == h) ≡ false → (v ≡ h) ⊎ Among h l → Among h l
    rest o (inl e) = absurd (ground arith)
    rest o (inr b) = b

pub fail_all_kept :
    (message : Bytes) (h : ℕ) (l : List (ℕ × ℕ)) (heap : List (ℕ × Future)) (f : Future)
    → (Among h l → ⊥)
    → lookup h heap ≡ some f
    → lookup h (fail_all message l heap) ≡ some f
unfolding fail_all
fail_all_kept message h [] heap f gone e = e
fail_all_kept message h ((k, v) ∷ l) heap f gone e =
    fail_all_kept message h l _ f (λ a. gone (inr a))
      (lookup-update v h (set_result message false true) heap f e ∙ elim (Bool-cases (v == h)) [
        | inl same ↦ absurd (gone (inl ((==_iff v h).0 same)))
        | inr other ↦ rw other refl
      ])

-- The futures of two numbers differ.
pub Distinct-ne :
    (i j u v : ℕ) (l : List (ℕ × ℕ))
    → Distinct l
    → i ≢ j
    → lookup i l ≡ some u
    → lookup j l ≡ some v
    → u ≢ v
unfolding lookup
Distinct-ne i j u v [] d ne e f = cc
Distinct-ne i j u v ((k, w) ∷ l) d ne e f = elim (Bool-cases (k == i)) [
  | inl same ↦ λ x. d.0 (subst (λ y. Among y l) (ground arith) (lookup-Among j v l (ground arith)))
  | inr other ↦ elim (Bool-cases (k == j)) [
    | inl same ↦
        λ x. d.0 (subst (λ y. Among y l) (ground arith) (lookup-Among i u l (rw other at e)))
    | inr neither ↦ Distinct-ne i j u v l d.1 ne (rw other at e) (rw neither at f)
  ]
]

-- The future of a number is gone with the number.
pub erase-Among :
    (k h : ℕ) (l : List (ℕ × ℕ)) → Distinct l → lookup k l ≡ some h → Among h (erase k l) → ⊥
unfolding lookup erase
erase-Among k h [] d e a = a
erase-Among k h ((j, v) ∷ l) d e a = elim (Bool-cases (j == k)) [
  | inl same ↦ d.0 (subst (λ y. Among y l) (ground arith) (Among-erase h k l (rw same at a)))
  | inr other ↦ go (erase-Among k h l d.1) (rw other at e) (rw other at a)
]
  where
    go :
        (lookup k l ≡ some h → Among h (erase k l) → ⊥)
        → lookup k l ≡ some h
        → (v ≡ h) ⊎ Among h (erase k l)
        → ⊥
    go r q (inl w) = d.0 (subst (λ y. Among y l) (sym w) (lookup-Among k h l q))
    go r q (inr b) = r q b
