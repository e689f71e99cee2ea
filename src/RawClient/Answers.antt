-- ===== src/RawClient/Answers.antt =====
-- What the reading fiber does to the futures that wait.
use fiberproxy.Prelude.{
  ℕ, zero, suc, ◌<◌, Bool, true, false, List, [], ◌∷◌, ◌++◌, none, some, Bytes, ◌≡◌, ◌≢◌, refl,
  subst, sym, ap, ◌∙◌, arith, if◌then◌else◌, ◌==◌, ==_iff, Bool-cases, Option-cases, inl, inr,
  length, lookup, erase, nat_key, lookup-erase, All, append_assoc,
}
use fiberproxy.ClientFuture.{Future, set_result}
use fiberproxy.RawClient.{RawClient, set_response, set_all_error, handle_read, read_frame, pack}
use fiberproxy.RawClient.Framing.{read_frame-pack}
use fiberproxy.RawClient.Waiting.{
  lookup-update, Among, Among-erase, Distinct, lookup-Among, Distinct-erase, fail_all-Among,
  fail_all_kept, Distinct-ne, erase-Among,
}

-- How a future that waits for `msgid` ends: with the first frame of its number, or with the error.
abbrev pub outcome : Bytes → ℕ → List (ℕ × Bytes) → Future → Future
outcome message msgid [] f = set_result message false true f
outcome message msgid ((seq, body) ∷ fs) f =
    if seq == msgid then set_result body true false f else outcome message msgid fs f

-- What the peer sends for these frames.
abbrev pub packed : List (ℕ × Bytes) → Bytes
packed [] = []
packed ((seq, body) ∷ fs) = pack seq body ++ packed fs

abbrev pub Fits : ℕ × Bytes → Type 0
Fits (seq, body) = (seq < 4294967296) × (length body < 4294967296)

-- One response: the future that waits for the number has it, another is left as it is.
pub set_response_self :
    (msgid h : ℕ) (body : Bytes) (ok : Bool) (c : RawClient) (f : Future)
    → lookup msgid c.future_list ≡ some h
    → lookup h c.heap ≡ some f
    → lookup h (set_response msgid body ok false c).heap ≡ some (set_result body ok false f)
unfolding set_response
set_response_self msgid h body ok c f e g =
    rw (e, set_response)
      (lookup-update h h (set_result body ok false) c.heap f g ∙ ground (arith, ==_iff h h))

pub set_response_ne :
    (seq msgid h : ℕ) (body : Bytes) (ok : Bool) (c : RawClient) (f : Future)
    → Distinct c.future_list
    → seq ≢ msgid
    → lookup msgid c.future_list ≡ some h
    → lookup h c.heap ≡ some f
    → lookup h (set_response seq body ok false c).heap ≡ some f
unfolding set_response
set_response_ne seq msgid h body ok c f d ne e g = elim (Option-cases (lookup seq c.future_list)) [
  | inl q ↦ rw (q, set_response) g
  | inr (i, q) ↦
      rw (q, set_response)
        (lookup-update i h (set_result body ok false) c.heap f g
          ∙ ground (arith, ==_iff i h, Distinct-ne seq msgid i h c.future_list d ne q e))
]

pub set_response-list :
    (seq : ℕ) (body : Bytes) (ok : Bool) (c : RawClient)
    → (set_response seq body ok false c).future_list ≡ erase seq c.future_list
unfolding set_response
set_response-list seq body ok c = elim (Option-cases (lookup seq c.future_list)) [
  | inl q ↦ rw (q, set_response)
  | inr (i, q) ↦ rw (q, set_response)
]

pub set_response_kept :
    (seq h : ℕ) (body : Bytes) (ok : Bool) (c : RawClient) (f : Future)
    → (Among h c.future_list → ⊥)
    → lookup h c.heap ≡ some f
    → lookup h (set_response seq body ok false c).heap ≡ some f
unfolding set_response
set_response_kept seq h body ok c f gone g = elim (Option-cases (lookup seq c.future_list)) [
  | inl q ↦ rw (q, set_response) g
  | inr (i, q) ↦
      rw (q, set_response)
        (lookup-update i h (set_result body ok false) c.heap f g ∙ elim (Bool-cases (i == h)) [
          | inl same ↦ absurd (
              gone (
                subst (λ y. Among y c.future_list) ((==_iff i h).0 same)
                  (lookup-Among seq i c.future_list q)))
          | inr other ↦ rw other refl
        ])
]

packed_more :
    (seq : ℕ) (body : Bytes) (fs : List (ℕ × Bytes)) (tail : Bytes)
    → packed ((seq, body) ∷ fs) ++ tail ≡ pack seq body ++ (packed fs ++ tail)
packed_more seq body fs tail = append_assoc (pack seq body) (packed fs) tail

-- The reading fiber takes one frame, or ends.
handle_read_frame :
    (fuel : ℕ) (message : Bytes) (seq : ℕ) (body s : Bytes) (c : RawClient)
    → Fits (seq, body)
    → handle_read (suc fuel) message (pack seq body ++ s) c
      ≡ handle_read fuel message s (set_response seq body true false c)
unfolding handle_read
handle_read_frame fuel message seq body s c fits =
    rw (read_frame-pack seq body s fits.0 fits.1, handle_read)

-- A future that waits for no number is left as it is.
handle_read_kept :
    (fs : List (ℕ × Bytes)) (fuel : ℕ) (message tail : Bytes) (c : RawClient) (h : ℕ) (f : Future)
    → All Fits fs
    → read_frame tail ≡ none
    → length fs < fuel
    → (Among h c.future_list → ⊥)
    → lookup h c.heap ≡ some f
    → lookup h (handle_read fuel message (packed fs ++ tail) c).heap ≡ some f
unfolding handle_read set_all_error
handle_read_kept fs zero message tail c h f fits bad enough gone g = absurd (omega arith)
handle_read_kept [] (suc fuel) message tail c h f fits bad enough gone g =
    rw (bad, handle_read) (fail_all_kept message h c.future_list c.heap f gone g)
handle_read_kept ((seq, body) ∷ fs) (suc fuel) message tail c h f fits bad enough gone g =
    rw (packed_more seq body fs tail) (
      rw (handle_read_frame fuel message seq body (packed fs ++ tail) c fits.0) (
        handle_read_kept fs fuel message tail (set_response seq body true false c) h f fits.1 bad
          (omega arith)
          (λ a. gone (
            Among-erase h seq c.future_list
              (subst (Among h) (set_response-list seq body true c) a)))
          (set_response_kept seq h body true c f gone g)))

-- When the connection of a reading fiber ends, behind frames that fit in the protocol and a rest
-- that is none, each future that has waited, for one number, is done: it has the body of the first
-- frame with its number, or else the error, with leave to retry. Fuel above the number of frames is
-- enough.
pub handle_read-outcome :
    (fs : List (ℕ × Bytes)) (fuel : ℕ) (message tail : Bytes) (c : RawClient) (msgid h : ℕ)
    (f : Future)
    → All Fits fs
    → read_frame tail ≡ none
    → length fs < fuel
    → Distinct c.future_list
    → lookup msgid c.future_list ≡ some h
    → lookup h c.heap ≡ some f
    → lookup h (handle_read fuel message (packed fs ++ tail) c).heap
      ≡ some (outcome message msgid fs f)
unfolding handle_read set_all_error
handle_read-outcome fs zero message tail c msgid h f fits bad enough d e g = absurd (omega arith)
handle_read-outcome [] (suc fuel) message tail c msgid h f fits bad enough d e g =
    rw (bad, handle_read)
      (fail_all-Among message h c.future_list c.heap f (lookup-Among msgid h c.future_list e) g)
handle_read-outcome ((seq, body) ∷ fs) (suc fuel) message tail c msgid h f fits bad enough d e g =
    rw (packed_more seq body fs tail) (
      rw (handle_read_frame fuel message seq body (packed fs ++ tail) c fits.0)
        (elim (Bool-cases (seq == msgid)) [
          | inl same ↦ rw same (
              handle_read_kept fs fuel message tail c' h _ fits.1 bad (omega arith)
                (λ a.
                  erase-Among seq h c.future_list d (here same)
                    (subst (Among h) (set_response-list seq body true c) a))
                (set_response_self seq h body true c f (here same) g))
          | inr other ↦ rw other (
              handle_read-outcome fs fuel message tail c' msgid h f fits.1 bad (omega arith)
                (subst Distinct (sym (set_response-list seq body true c))
                  (Distinct-erase seq c.future_list d))
                (ap (lookup msgid) (set_response-list seq body true c)
                  ∙ lookup-erase seq msgid c.future_list
                  ∙ rw other e)
                (set_response_ne seq msgid h body true c f d (λ x. ground arith) e g))
        ]))
  where
    c' : RawClient
    c' = set_response seq body true false c

    here : (seq == msgid) ≡ true → lookup seq c.future_list ≡ some h
    here same = ap (λ i. lookup i c.future_list) ((==_iff seq msgid).0 same) ∙ e
