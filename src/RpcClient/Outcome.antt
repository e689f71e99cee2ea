-- ===== src/RpcClient/Outcome.antt =====
-- How the futures of an RPC client end.
use fiberproxy.Prelude.{
  ℕ, Bool, true, false, List, [], ◌∷◌, some, Bytes, ◌≡◌, refl, subst, sym, ap, ◌∙◌, arith,
  if◌then◌else◌, ◌==◌, ==_iff, Bool-cases, inl, inr, lookup, nat_key, lookup-erase,
}
use fiberproxy.ClientFuture.{Future, set_result}
use fiberproxy.RawClient.{RawClient, set_response, set_all_error}
use fiberproxy.RawClient.Waiting.{
  Among, Among-erase, Distinct, lookup-Among, Distinct-erase, fail_all-Among, fail_all_kept,
  erase-Among,
}
use fiberproxy.RawClient.Answers.{
  set_response_self, set_response_ne, set_response-list, set_response_kept,
}
use fiberproxy.RpcClient.{
  Met, result, error, bad, read_failed, large, too_large, rpc_fail, handle_read,
}

-- The responses that come before the failure: number, whether it is a result, and text.
abbrev pub Response : Type 0
Response = ℕ × Bool × Bytes

abbrev pub met : Response → Met
met (msgid, true, packed) = result msgid packed
met (msgid, false, text) = error msgid text

abbrev pub all_met : List Response → Met → List Met
all_met [] last = last ∷ []
all_met (r ∷ rs) last = met r ∷ all_met rs last

-- The error that a failure gives, if it is one.
pub data Fails : Met → Bytes → Type 0 where
  by_bad : (what : Bytes) → Fails (bad what) what
  by_read : (message : Bytes) → Fails (read_failed message) message
  by_size : Fails large too_large

-- A future that waits for `msgid` ends with the first response of its number, or the error.
abbrev pub outcome : Bytes → ℕ → List Response → Future → Future
outcome message msgid [] f = set_result message false true f
outcome message msgid ((seq, ok, body) ∷ rs) f =
    if seq == msgid then set_result body ok false f else outcome message msgid rs f

handle_read-met :
    (seq : ℕ) (ok : Bool) (body : Bytes) (ms : List Met) (c : RawClient)
    → handle_read (met (seq, ok, body) ∷ ms) c ≡ handle_read ms (set_response seq body ok false c)
unfolding handle_read
handle_read-met seq true body ms c = refl
handle_read-met seq false body ms c = refl

handle_read-Fails :
    {last : Met} {message : Bytes} (c : RawClient)
    → Fails last message
    → handle_read (last ∷ []) c ≡ rpc_fail message c
unfolding handle_read
handle_read-Fails c (by_bad what) = refl
handle_read-Fails c (by_read message) = refl
handle_read-Fails c by_size = refl

-- A future that waits for no number is left as it is.
handle_read_kept :
    (rs : List Response) {last : Met} {message : Bytes} (c : RawClient) (h : ℕ) (f : Future)
    → Fails last message
    → (Among h c.future_list → ⊥)
    → lookup h c.heap ≡ some f
    → lookup h (handle_read (all_met rs last) c).heap ≡ some f
unfolding rpc_fail set_all_error
handle_read_kept [] {message = message} c h f fails gone g =
    rw (handle_read-Fails c fails) (fail_all_kept message h c.future_list c.heap f gone g)
handle_read_kept ((seq, ok, body) ∷ rs) {last = last} c h f fails gone g =
    rw (handle_read-met seq ok body (all_met rs last) c) (
      handle_read_kept rs (set_response seq body ok false c) h f fails
        (λ a.
          gone
            (Among-erase h seq c.future_list (subst (Among h) (set_response-list seq body ok c) a)))
        (set_response_kept seq h body ok c f gone g))

-- When the connection of an RPC client fails behind some responses, a future that waits for one
-- number ends: with the first response of its number, as a result or as an error that no retry
-- helps, or else with the error of the failure, with leave to retry.
pub handle_read-all_met :
    (rs : List Response) {last : Met} {message : Bytes} (c : RawClient) (msgid h : ℕ) (f : Future)
    → Fails last message
    → Distinct c.future_list
    → lookup msgid c.future_list ≡ some h
    → lookup h c.heap ≡ some f
    → lookup h (handle_read (all_met rs last) c).heap ≡ some (outcome message msgid rs f)
unfolding rpc_fail set_all_error
handle_read-all_met [] {message = message} c msgid h f fails d e g =
    rw (handle_read-Fails c fails)
      (fail_all-Among message h c.future_list c.heap f (lookup-Among msgid h c.future_list e) g)
handle_read-all_met ((seq, ok, body) ∷ rs) {last = last} c msgid h f fails d e g =
    rw (handle_read-met seq ok body (all_met rs last) c) (elim (Bool-cases (seq == msgid)) [
      | inl same ↦ rw same (
          handle_read_kept rs c' h _ fails
            (λ a.
              erase-Among seq h c.future_list d (here same)
                (subst (Among h) (set_response-list seq body ok c) a))
            (set_response_self seq h body ok c f (here same) g))
      | inr other ↦ rw other (
          handle_read-all_met rs c' msgid h f fails
            (subst Distinct (sym (set_response-list seq body ok c))
              (Distinct-erase seq c.future_list d))
            (ap (lookup msgid) (set_response-list seq body ok c)
              ∙ lookup-erase seq msgid c.future_list
              ∙ rw other e)
            (set_response_ne seq msgid h body ok c f d (λ x. ground arith) e g))
    ])
  where
    c' : RawClient
    c' = set_response seq body ok false c

    here : (seq == msgid) ≡ true → lookup seq c.future_list ≡ some h
    here same = ap (λ i. lookup i c.future_list) ((==_iff seq msgid).0 same) ∙ e
