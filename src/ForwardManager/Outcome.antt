-- ===== src/ForwardManager/Outcome.antt =====
-- How a call ends: with the data of a response, with a cached response, or with an error.
use fiberproxy.Prelude.{
  ℕ, zero, suc, ◌+◌, Bool, true, false, [], Option, none, some, ◌≡◌, ◌≢◌, refl, arith, Bytes, ◌==◌,
  bytes_eq, bytes_eq_iff, Option-cases, Bool-cases, inl, inr, ◌⊎◌,
}
use fiberproxy.Types.{ServiceCallReq, ServiceCallRsp}
use fiberproxy.Remote.{Remote}
use fiberproxy.ServiceCache
use fiberproxy.ForwardManager.{
  Call, Next, again, failed, success, max_retry, local_test, after_response, after_send, attempt,
  call_loop, after_loop, call_single_service,
}

-- The slot is as it was made: nothing has been answered yet.
pub record Fresh (r : ServiceCallRsp) : Type 0 where
  pub no_data : r.rsp ≡ []
  pub no_error : r.error ≡ []
  pub not_cached : r.is_cached ≡ false

-- An error, and no data beside it.
pub record Failed (r : ServiceCallRsp) : Type 0 where
  pub no_data : r.rsp ≡ []
  pub has_error : r.error ≢ []
  pub not_cached : r.is_cached ≡ false

module _ {W H : Type 0} (remote : Remote W H) where
  open remote use {get_response, cache_get}

  -- The data of a response that succeeded, and no error.
  pub record Answered (r : ServiceCallRsp) : Type 0 where
    pub pending : H
    pub before : W
    pub after : W
    pub can_retry : Bool
    pub answered : get_response pending before ≡ (true, r.rsp, can_retry, after)
    pub no_error : r.error ≡ []
    pub not_cached : r.is_cached ≡ false

  -- What the cache holds for the request, marked as cached.
  pub record FromCache (req : ServiceCallReq) (r : ServiceCallRsp) : Type 0 where
    pub before : W
    pub after : W
    pub entry : ServiceCallRsp
    pub cached : cache_get req before ≡ (some entry, after)
    pub marked : r ≡ record entry { is_cached = true }
    pub wanted : req.enable_cache ≡ true

  -- A round that goes on leaves the slot fresh, or has been the last one.
  abbrev AfterRound : ℕ → Call W × Next → Type 0
  AfterRound n (s, again) = (n ≢ max_retry → Fresh s.rsp) × (n ≡ max_retry → Failed s.rsp)
  AfterRound n (s, failed) = Failed s.rsp
  AfterRound n (s, success) = Answered s.rsp

  after_response-AfterRound :
      (id : ℕ) (req : ServiceCallReq) (n : ℕ) (s : Call W) (f : H) (w w' : W) (ret c : Bool)
      (rspdata : Bytes)
      → get_response f w ≡ (ret, rspdata, c, w')
      → Fresh s.rsp
      → AfterRound n (after_response remote id req n s (ret, rspdata, c, w'))
  unfolding after_response
  after_response-AfterRound id req n s f w w' true c rspdata e h = record {
    pending = f;
    before = w;
    after = w';
    can_retry = c;
    answered = e;
    no_error = h.no_error;
    not_cached = h.not_cached;
  }
  after_response-AfterRound id req n s f w w' false false rspdata e h = record {
    no_data = h.no_data;
    has_error = λ x. cc;
    not_cached = h.not_cached;
  }
  after_response-AfterRound id req n s f w w' false true rspdata e h =
      elim (Bool-cases (n == max_retry)) [
        | inl last ↦
            rw last (record { no_data = h.no_data; has_error = λ x. cc; not_cached = h.not_cached })
        | inr more ↦ rw more (λ _. h, λ same. ground arith)
      ]

  after_send-AfterRound :
      (id : ℕ) (req : ServiceCallReq) (n : ℕ) (s : Call W) (sent : Option H × W)
      → Fresh s.rsp
      → AfterRound n (after_send remote id req n s sent)
  unfolding after_send
  after_send-AfterRound id req n s (none, w) h = elim (Bool-cases (n == max_retry)) [
    | inl last ↦ rw last (
      λ more. ground arith,
      λ _. record { no_data = h.no_data; has_error = λ x. cc; not_cached = h.not_cached },
    )
    | inr more ↦ rw more (λ _. h, λ same. ground arith)
  ]
  after_send-AfterRound id req n s (some f, w) h =
      let r = get_response f w in after_response-AfterRound id req n s f w r.3 r.0 r.2 r.1 refl h

  attempt-AfterRound :
      (id : ℕ) (req : ServiceCallReq) (n b : ℕ) (s : Call W)
      → Fresh s.rsp
      → AfterRound n (attempt remote id req n b s)
  unfolding attempt
  attempt-AfterRound id req n b s h =
      elim (Option-cases (remote.get_service_address b req.service_name req.service_type s.world)) [
        | inl e ↦
            rw (e, attempt)
              (record { no_data = h.no_data; has_error = λ x. cc; not_cached = h.not_cached })
        | inr ((ip, port), e) ↦
            rw (e, attempt)
              (after_send-AfterRound id req n _ _
                (record { no_data = h.no_data; no_error = h.no_error; not_cached = h.not_cached }))
      ]

  abbrev AfterLoop : Call W × Bool → Type 0
  AfterLoop (s, true) = Answered s.rsp
  AfterLoop (s, false) = Failed s.rsp

  -- The loop has its `left` rounds before it, of which there is one at least.
  call_loop-AfterLoop :
      (left id : ℕ) (req : ServiceCallReq) (n b : ℕ) (s : Call W)
      → n + suc left ≡ max_retry
      → Fresh s.rsp
      → AfterLoop (call_loop remote (suc left) id req n b s)
  unfolding call_loop
  call_loop-AfterLoop zero id req n b s e h =
      go (attempt remote id req (n + 1) (b + 1) s) (attempt-AfterRound id req (n + 1) (b + 1) s h)
    where
      go :
          (r : Call W × Next)
          → AfterRound (n + 1) r
          → AfterLoop
              (elim r.1 [ again ↦ (r.0, false) | failed ↦ (r.0, false) | success ↦ (r.0, true) ])
      go (s', again) (_, last) = last (omega arith)
      go (s', failed) f = f
      go (s', success) a = a
  call_loop-AfterLoop (suc left) id req n b s e h =
      go (attempt remote id req (n + 1) (b + 1) s) (attempt-AfterRound id req (n + 1) (b + 1) s h)
        (λ s'. call_loop-AfterLoop left id req (n + 1) (b + 1) s' (omega arith))
    where
      go :
          (r : Call W × Next)
          → AfterRound (n + 1) r
          → ((s' : Call W)
              → Fresh s'.rsp
              → AfterLoop (call_loop remote (suc left) id req (n + 1) (b + 1) s'))
          → AfterLoop (elim r.1 [
            | again ↦ call_loop remote (suc left) id req (n + 1) (b + 1) r.0
            | failed ↦ (r.0, false)
            | success ↦ (r.0, true)
          ])
      go (s', again) (fresh, _) rest = rest s' (fresh (omega arith))
      go (s', failed) f rest = f
      go (s', success) a rest = a

  abbrev pub Ends : ServiceCallReq → ServiceCallRsp → Type 0
  Ends req r = Answered r ⊎ FromCache req r ⊎ Failed r

  take_cached-Ends :
      (req : ServiceCallReq) (r : ServiceCallRsp) (w : W) (found : Option ServiceCallRsp × W)
      → cache_get req w ≡ found
      → req.enable_cache ≡ true
      → Failed r
      → Ends req (ServiceCache.take_cached remote r found.0).1
  take_cached-Ends req r w (none, w') e h f = inr (inr f)
  take_cached-Ends req r w (some entry, w') e h f = inr (
      inl (record { before = w; after = w'; entry = entry; cached = e; marked = refl; wanted = h }))

  after_loop-Ends :
      (req : ServiceCallReq) (r : Call W × Bool)
      → AfterLoop r
      → Ends req (after_loop remote req r).rsp
  unfolding after_loop ServiceCache.get
  after_loop-Ends req (s, true) a = inl a
  after_loop-Ends req (s, false) f = elim (Bool-cases req.enable_cache) [
    | inr unwanted ↦ simp unwanted (inr (inr f))
    | inl wanted ↦
        simp wanted (take_cached-Ends req s.rsp s.world (cache_get req s.world) refl wanted f)
  ]

  -- A call to a service other than the built-in local_test, from a fresh slot, ends in one of three
  -- ways: with the data of a response that succeeded, with the cache's entry for the request (only
  -- if the request allows it), or with an error and no data.
  pub call_single_service-Ends :
      (seed id : ℕ) (req : ServiceCallReq) (s : Call W)
      → Fresh s.rsp
      → req.service_name ≢ local_test
      → Ends req (call_single_service remote seed id req s).rsp
  unfolding call_single_service
  call_single_service-Ends seed id req s h ne =
      elim (Bool-cases (bytes_eq req.service_name local_test)) [
        | inl same ↦ absurd (ne ((bytes_eq_iff _ _).0 same))
        | inr other ↦ rw other (
            after_loop-Ends req _ (
              call_loop-AfterLoop 2 id req 0 seed _ refl
                (record { no_data = h.no_data; no_error = h.no_error; not_cached = h.not_cached })))
      ]
