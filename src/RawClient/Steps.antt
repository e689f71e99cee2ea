-- ===== src/RawClient/Steps.antt =====
-- The steps that the fibers which share a raw client take, in any order.
use fiberproxy.Prelude.{
  ℕ, ◌<◌, Bool, true, false, List, [], ◌∷◌, ◌++◌, none, some, Bytes, ◌≡◌, sym, ◌∙◌, arith, ◌==◌,
  ==_iff, ltb, ◌⊎◌, inl, inr, if◌then◌else◌, Bool-cases, Option-cases, All, length, lookup, insert,
  nat_key, lookup-insert,
}
use fiberproxy.ClientFuture.{Future, new_future, set_result}
use fiberproxy.RawClient.{
  RawClient, set_response, set_all_error, begin_request, end_request, handle_read, read_frame,
}
use fiberproxy.RawClient.Waiting.{
  Among, Among-erase, Distinct, Distinct-erase, lookup-Among, lookup-update,
}
use fiberproxy.RawClient.Answers.{Fits, packed, outcome, handle_read-outcome}

-- A request makes a new future, its send ends, the reading fiber has a frame, or the connection
-- fails.
pub data Step (c : RawClient) : RawClient → Type 0 where
  request :
      (h : ℕ) (reqdata : Bytes) {d : RawClient}
      → lookup h c.heap ≡ none
      → d ≡ (begin_request h reqdata c).0
      → Step c d
  sent : (msgid h : ℕ) (ok : Bool) {d : RawClient} → d ≡ (end_request msgid h ok c).0 → Step c d
  frame :
      (seq : ℕ) (body : Bytes) {d : RawClient} → d ≡ set_response seq body true false c → Step c d
  failure : (message : Bytes) {d : RawClient} → d ≡ set_all_error message c → Step c d

pub data Reach (c : RawClient) : RawClient → Type 0 where
  here : Reach c c
  next : {d e : RawClient} → Reach c d → Step d e → Reach c e

abbrev pub new_client : RawClient
new_client = record { fid = 0; future_list = []; heap = []; reading = false }

-- Each future that waits is in the heap, and waits for one number.
record Inv (c : RawClient) : Type 0 where
  distinct : Distinct c.future_list
  known : (h : ℕ) → Among h c.future_list → (f : Future) × (lookup h c.heap ≡ some f)

Among-insert : (x k h : ℕ) (l : List (ℕ × ℕ)) → Among x (insert k h l) → (h ≡ x) ⊎ Among x l
unfolding insert
Among-insert x k h [] a = a
Among-insert x k h ((j, v) ∷ l) a = elim (Bool-cases (j == k)) [
  | inl same ↦ replaced (rw same at a)
  | inr other ↦ elim (Bool-cases (ltb k j)) [
    | inl below ↦ rw below at (rw other at a)
    | inr above ↦ behind (Among-insert x k h l) (rw above at (rw other at a))
  ]
]
  where
    replaced : (h ≡ x) ⊎ Among x l → (h ≡ x) ⊎ Among x ((j, v) ∷ l)
    replaced (inl e) = inl e
    replaced (inr b) = inr (inr b)

    behind :
        (Among x (insert k h l) → (h ≡ x) ⊎ Among x l)
        → (v ≡ x) ⊎ Among x (insert k h l)
        → (h ≡ x) ⊎ Among x ((j, v) ∷ l)
    behind r (inl e) = inr (inl e)
    behind r (inr b) = elim (r b) [ inl e ↦ inl e | inr c ↦ inr (inr c) ]

Distinct-insert :
    (k h : ℕ) (l : List (ℕ × ℕ)) → (Among h l → ⊥) → Distinct l → Distinct (insert k h l)
unfolding insert
Distinct-insert k h [] gone d = ((λ a. a), tt)
Distinct-insert k h ((j, v) ∷ l) gone d = elim (Bool-cases (j == k)) [
  | inl same ↦ rw same ((λ a. gone (inr a)), d.1)
  | inr other ↦ elim (Bool-cases (ltb k j)) [
    | inl below ↦ rw other (rw below (gone, d))
    | inr above ↦ rw other (
        rw above
          ((λ a. absent (Among-insert v k h l a)), Distinct-insert k h l (λ a. gone (inr a)) d.1))
  ]
]
  where
    absent : (h ≡ v) ⊎ Among v l → ⊥
    absent (inl e) = gone (inl (sym e))
    absent (inr a) = d.0 a

begin_request-Inv :
    (h : ℕ) (reqdata : Bytes) (c : RawClient)
    → lookup h c.heap ≡ none
    → Inv c
    → Inv (begin_request h reqdata c).0
unfolding begin_request
begin_request-Inv h reqdata c free v = record {
  distinct = Distinct-insert _ h c.future_list absent v.distinct;
  known = λ x a. new (Among-insert x _ h c.future_list a);
}
  where
    absent : Among h c.future_list → ⊥
    absent a = let f = v.known h a in let n : none ≡ some f.0 = sym free ∙ f.1 in cc

    new :
        {x : ℕ}
        → (h ≡ x) ⊎ Among x c.future_list
        → (f : Future) × (lookup x (insert h new_future c.heap) ≡ some f)
    new {x = x} (inl e) =
        (new_future, lookup-insert h x new_future c.heap ∙ ground (arith, ==_iff h x))
    new {x = x} (inr a) = (
      (if h == x then new_future else (v.known x a).0),
      lookup-insert h x new_future c.heap ∙ ground (arith, (v.known x a).1),
    )

set_response-Inv :
    (seq : ℕ) (body : Bytes) (c : RawClient) → Inv c → Inv (set_response seq body true false c)
unfolding set_response
set_response-Inv seq body c v = elim (Option-cases (lookup seq c.future_list)) [
  | inl e ↦
      rw (e, set_response)
        (record {
          distinct = Distinct-erase seq c.future_list v.distinct;
          known = λ h a. v.known h (Among-erase h seq c.future_list a);
        })
  | inr (i, e) ↦
      rw (e, set_response)
        (record {
          distinct = Distinct-erase seq c.future_list v.distinct;
          known = λ h a.
              let f = v.known h (Among-erase h seq c.future_list a) in
              (_, lookup-update i h (set_result body true false) c.heap f.0 f.1);
        })
]

end_request-Inv :
    (msgid h : ℕ) (ok : Bool) (c : RawClient) → Inv c → Inv (end_request msgid h ok c).0
unfolding end_request
end_request-Inv msgid h true c v = record { distinct = v.distinct; known = v.known }
end_request-Inv msgid h false c v = record {
  distinct = Distinct-erase msgid c.future_list v.distinct;
  known = λ x a. v.known x (Among-erase x msgid c.future_list a);
}

set_all_error-Inv : (message : Bytes) (c : RawClient) → Inv (set_all_error message c)
unfolding set_all_error
set_all_error-Inv message c = record { distinct = tt; known = λ h a. elim a [ ] }

Step-Inv : {c d : RawClient} → Step c d → Inv c → Inv d
Step-Inv {c = c} (request h reqdata free e) v = rw e (begin_request-Inv h reqdata c free v)
Step-Inv {c = c} (sent msgid h ok e) v = rw e (end_request-Inv msgid h ok c v)
Step-Inv {c = c} (frame seq body e) v = rw e (set_response-Inv seq body c v)
Step-Inv {c = c} (failure message e) v = rw e (set_all_error-Inv message c)

Reach-Inv : {c d : RawClient} → Reach c d → Inv c → Inv d
Reach-Inv here v = v
Reach-Inv (next r s) v = Step-Inv s (Reach-Inv r v)

-- Whatever the fibers have done with a client since it was made: a future that waits for a number
-- when the reading fiber takes some last frames that fit in the protocol, and the connection then
-- fails, is in the heap, and ends with the body of the first of the frames with its number, or else
-- with the error. Fuel above the number of frames is enough.
pub Reach-outcome :
    {c : RawClient} (fs : List (ℕ × Bytes)) (fuel : ℕ) (message tail : Bytes) (msgid h : ℕ)
    → Reach new_client c
    → All Fits fs
    → read_frame tail ≡ none
    → length fs < fuel
    → lookup msgid c.future_list ≡ some h
    → (f : Future) × (lookup h c.heap ≡ some f)
      × (lookup h (handle_read fuel message (packed fs ++ tail) c).heap
          ≡ some (outcome message msgid fs f))
Reach-outcome {c = c} fs fuel message tail msgid h r fits bad enough e =
    let v = Reach-Inv r (record { distinct = tt; known = λ h a. elim a [ ] }) in
    let f = v.known h (lookup-Among msgid h c.future_list e) in
    (
      f.0,
      f.1,
      handle_read-outcome fs fuel message tail c msgid h f.0 fits bad enough v.distinct e f.1,
    )
