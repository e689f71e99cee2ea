-- ===== src/ForwardManager/Attempts.antt =====
-- How often a call is tried, and what is counted.
use fiberproxy.Prelude.{
  ℕ, zero, suc, ◌+◌, ◌≤◌, Bool, true, false, List, [], ◌∷◌, Option, none, some, ◌≡◌, refl, arith,
  Bytes, bytes_eq, bytes_key, Option-cases, Bool-cases, inl, inr, lookup_or, lookup_or-insert_self,
}
use fiberproxy.Types.{
  ServiceCallReq, LogCall, send_service_request, get_service_rsp, log_service_failed,
  log_transaction,
}
use fiberproxy.Remote.{Remote}
use fiberproxy.ForwardManager.{
  Call, Next, again, failed, success, max_retry, local_test, after_response, after_send, attempt,
  call_loop, after_loop, call_single_service,
}

-- The requests that were sent, as the log shows them.
abbrev pub sends : List LogCall → ℕ
sends [] = 0
sends (send_service_request _ _ _ _ ∷ l) = suc (sends l)
sends (get_service_rsp _ _ ∷ l) = sends l
sends (log_service_failed _ _ _ ∷ l) = sends l
sends (log_transaction _ _ _ _ _ ∷ l) = sends l

-- The failed attempts, as the log shows them.
abbrev pub failures : List LogCall → ℕ
failures [] = 0
failures (send_service_request _ _ _ _ ∷ l) = failures l
failures (get_service_rsp _ _ ∷ l) = failures l
failures (log_service_failed _ _ _ ∷ l) = suc (failures l)
failures (log_transaction _ _ _ _ _ ∷ l) = failures l

abbrev pub fail_count : Bytes → List (Bytes × ℕ) → ℕ
fail_count name m = lookup_or name 0 m

-- From `s` to `t` at most `n` requests were sent, and each failure was counted under `name`.
pub record Counted {W : Type 0} (name : Bytes) (n : ℕ) (s t : Call W) : Type 0 where
  pub bounded : sends t.log ≤ sends s.log + n
  pub counted :
      fail_count name t.service_fail_stat + failures s.log
      ≡ fail_count name s.service_fail_stat + failures t.log

Counted-sent :
    {W : Type 0} (name : Bytes) (id : ℕ) (ip port : Bytes) (s s₁ t : Call W)
    → s₁.log ≡ send_service_request id name ip port ∷ s.log
    → s₁.service_fail_stat ≡ s.service_fail_stat
    → Counted name 0 s₁ t
    → Counted name 1 s t
Counted-sent name id ip port s s₁ t e f c = ground arith

Counted-trans :
    {W : Type 0} (name : Bytes) (m n : ℕ) (s t u : Call W)
    → Counted name m s t
    → Counted name n t u
    → Counted name (m + n) s u
Counted-trans name m n s t u c d = omega arith

module _ {W H : Type 0} (remote : Remote W H) where
  after_response-Counted :
      (id : ℕ) (req : ServiceCallReq) (n : ℕ) (s : Call W) (r : Bool × Bytes × Bool × W)
      → Counted req.service_name 0 s (after_response remote id req n s r).0
  unfolding after_response
  after_response-Counted id req n s (ret, data', c, w) = ground (
    arith,
    lookup_or-insert_self req.service_name 0 (fail_count req.service_name s.service_fail_stat + 1)
        s.service_fail_stat,
  )

  after_send-Counted :
      (id : ℕ) (req : ServiceCallReq) (n : ℕ) (s : Call W) (r : Option H × W)
      → Counted req.service_name 0 s (after_send remote id req n s r).0
  unfolding after_send
  after_send-Counted id req n s (none, w) = ground (
    arith,
    lookup_or-insert_self req.service_name 0 (fail_count req.service_name s.service_fail_stat + 1)
        s.service_fail_stat,
  )
  after_send-Counted id req n s (some f, w) =
      after_response-Counted id req n s (remote.get_response f w)

  attempt-Counted :
      (id : ℕ) (req : ServiceCallReq) (n b : ℕ) (s : Call W)
      → Counted req.service_name 1 s (attempt remote id req n b s).0
  unfolding attempt
  attempt-Counted id req n b s =
      elim (Option-cases (remote.get_service_address b req.service_name req.service_type s.world)) [
        | inl e ↦ rw (e, attempt) (omega arith)
        | inr ((ip, port), e) ↦
            rw (e, attempt)
              (Counted-sent req.service_name id ip port s _ _ refl refl
                (after_send-Counted id req n _ _))
      ]

  call_loop-Counted :
      (left id : ℕ) (req : ServiceCallReq) (n b : ℕ) (s : Call W)
      → Counted req.service_name left s (call_loop remote left id req n b s).0
  unfolding call_loop
  call_loop-Counted zero id req n b s = omega arith
  call_loop-Counted (suc left) id req n b s =
      go (attempt remote id req (n + 1) (b + 1) s) (attempt-Counted id req (n + 1) (b + 1) s)
        (λ s'. call_loop-Counted left id req (n + 1) (b + 1) s')
    where
      go :
          (r : Call W × Next)
          → Counted req.service_name 1 s r.0
          → ((s' : Call W)
              → Counted req.service_name left s'
                  (call_loop remote left id req (n + 1) (b + 1) s').0)
          → Counted req.service_name
              (suc left)
              s
              (elim r.1 as (λ _. Call W × Bool) [
                | again ↦ call_loop remote left id req (n + 1) (b + 1) r.0
                | failed ↦ (r.0, false)
                | success ↦ (r.0, true)
              ]).0
      go (s', again) c rest = let d = rest s' in omega arith
      go (s', failed) c rest = omega arith
      go (s', success) c rest = omega arith

  after_loop-Counted :
      (req : ServiceCallReq) (n : ℕ) (s : Call W) (r : Call W × Bool)
      → Counted req.service_name n s r.0
      → Counted req.service_name n s (after_loop remote req r)
  unfolding after_loop
  after_loop-Counted req n s (t, true) c = omega arith
  after_loop-Counted req n s (t, false) c = ground (
    arith,
    lookup_or-insert_self req.service_name 0 (fail_count req.service_name t.service_fail_stat)
        t.service_fail_stat,
  )

  -- A call sends three requests at most, and adds to the failure count of its service exactly the
  -- failed attempts that it logs.
  pub call_single_service-Counted :
      (seed id : ℕ) (req : ServiceCallReq) (s : Call W)
      → Counted req.service_name max_retry s (call_single_service remote seed id req s)
  unfolding call_single_service
  call_single_service-Counted seed id req s =
      let s₀ : Call W = record s { rsp = record (s.rsp) { service_name = req.service_name } } in
      let named : Counted req.service_name max_retry s₀
          (after_loop remote req (call_loop remote max_retry id req 0 seed s₀)) =
        after_loop-Counted req max_retry s₀ _ (call_loop-Counted max_retry id req 0 seed s₀) in
      elim (Bool-cases (bytes_eq req.service_name local_test)) [
        | inl same ↦ rw same (omega arith)
        | inr other ↦ rw other (record { bounded = named.bounded; counted = named.counted })
      ]
