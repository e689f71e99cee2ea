-- ===== src/RpcServer/Once.antt =====
-- Each request over msgpack-rpc is answered once.
use fiberproxy.Prelude.{
  ℕ, Bool, true, false, List, [], ◌∷◌, ◌++◌, Option, none, some, Bytes, codes, bind, bytes_eq,
  if◌then◌else◌, is_empty, ◌≡◌, refl, ap, bytes_eq_iff, ◌⊎◌, inl, inr,
}
use fiberproxy.Types.{ServiceCallReq, ServiceCallRsp}
use fiberproxy.Transaction.{find}
use fiberproxy.Logger.{Logger, start_service_call, end_service_call}
use fiberproxy.RpcServer.{
  Request, Answer, error, result_object, Server, Context, reply, method_call_services_async,
  start_list, start_single, dispatch_single, dispatch_list, dispatch_method, dispatch, rpc_callback,
  single_answer, rpc_single_service_callback,
}

module _ {O : Type 0} (what : Bytes) (unpack : Bytes → Option O) where
  -- The answer to a request: the dispatch and, when a batch started, its callback.
  abbrev pub callback : ℕ → List ServiceCallRsp → Server O → Context → Option (Server O)
  callback later rsps s c =
      if c.single
      then rpc_single_service_callback unpack c.id later rsps s
      else some (rpc_callback c.id later rsps s)

  abbrev pub answer : ℕ → List ServiceCallRsp → Server O × Option Context → Option (Server O)
  answer later rsps (s, none) = some s
  answer later rsps (s, some c) = callback later rsps s c

  -- What has become of the log: no call was recorded, or one that has ended, or one that has not,
  -- for a request for several calls whose parameters are of another type.
  abbrev pub Logged : ℕ → ℕ → Request → Logger → Logger → Type 0
  Logged now later q old new =
      (new ≡ old)
      ⊎ ((new
            ≡ end_service_call (start_service_call now old).1 later (start_service_call now old).0)
          ⊎ ((q.method ≡ some method_call_services_async)
              × (q.req_list ≡ none)
              × (new ≡ (start_service_call now old).0)))

  pub record AnsweredOnce (now later : ℕ) (q : Request) (s d : Server O) : Type 0 where
    pub reply_sent : Answer O
    pub once : d.answers ≡ s.answers ++ (reply_sent ∷ [])
    pub logged : Logged now later q s.log d.log

  -- The response of a single call can be unpacked, if it is there.
  abbrev pub Unpacks : List ServiceCallRsp → Type 0
  Unpacks (r ∷ []) = if is_empty r.error then ((o : O) × (unpack r.rsp ≡ some o)) else Unit
  Unpacks rsps = Unit

  single_answer-some :
      (rsps : List ServiceCallRsp)
      → Unpacks rsps
      → (a : Answer O) × (single_answer unpack rsps ≡ some a)
  single_answer-some [] u = (_, refl)
  single_answer-some (r ∷ []) u = go (is_empty r.error) u
    where
      go :
          (b : Bool)
          → (if b then ((o : O) × (unpack r.rsp ≡ some o)) else Unit)
          → (a : Answer O) × ((if b
                then bind (unpack r.rsp) (λ o. some (result_object o))
                else some (error r.error))
              ≡ some a)
      go true (o, e) = rw e (_, refl)
      go false u = (_, refl)
  single_answer-some (r ∷ r' ∷ rsps) u = (_, refl)

  module _ (now later : ℕ) (q : Request) (rsps : List ServiceCallRsp) (u : Unpacks rsps) where
    abbrev Goal : Server O → Server O × Option Context → Type 0
    Goal s p = (d : Server O) × (answer later rsps p ≡ some d) × AnsweredOnce now later q s d

    replied : (s : Server O) (a : Answer O) → Goal s (reply a s, none)
    replied s a = (reply a s, refl, record { reply_sent = a; once = refl; logged = inl refl })

    single_replied :
        (s : Server O) (m : Bytes) (o : Option ℕ) → Goal s (start_single now m q.packed o s)
    unfolding rpc_single_service_callback
    single_replied s m none = replied s _
    single_replied s m (some i) =
        let (a, e) = single_answer-some rsps u in
        rw e (_, refl, record { reply_sent = a; once = refl; logged = inr (inl refl) })

    list_replied :
        (s : Server O) (o : Option (List ServiceCallReq))
        → q.method ≡ some method_call_services_async
        → q.req_list ≡ o
        → Goal s (
            start_list
              (start_service_call now s.log).1
              o
              (record s { log = (start_service_call now s.log).0 }))
    unfolding rpc_callback
    list_replied s none m e =
        (_, refl, record { reply_sent = _; once = refl; logged = inr (inr (m, e, refl)) })
    list_replied s (some reqs) m e =
        (_, refl, record { reply_sent = _; once = refl; logged = inr (inl refl) })

    past_replied :
        (s : Server O) (method : Bytes) (m : Bytes) (b : Bool)
        → Goal s (
            if b
            then start_single now m q.packed (find m (codes "/") 0) s
            else (reply (error what) s, none))
    past_replied s method m true = single_replied s m _
    past_replied s method m false = replied s _

    pick_replied :
        (s : Server O) (method : Bytes) (b1 b2 b3 : Bool) (a1 a2 : Answer O)
        → q.method ≡ some method
        → bytes_eq method method_call_services_async ≡ b2
        → Goal s (
            if b1
            then (reply a1 s, none)
            else if b2
            then dispatch_list what now q.req_list s
            else if b3
            then dispatch_single what now method q.packed s
            else (reply a2 s, none))
    pick_replied s method true b2 b3 a1 a2 m e = replied s a1
    pick_replied s method false true b3 a1 a2 m e =
        list_replied s q.req_list (rw m (ap some ((bytes_eq_iff method _).0 e))) refl
    pick_replied s method false false true a1 a2 m e = past_replied s method _ _
    pick_replied s method false false false a1 a2 m e = replied s a2

    dispatch_replied :
        (s : Server O) (m : Option Bytes) → q.method ≡ m → Goal s (dispatch_method what now q m s)
    dispatch_replied s none e = replied s _
    dispatch_replied s (some method) e = pick_replied s method _ _ _ _ _ e refl

    -- Provided the response of a single call without an error can be unpacked: every request over
    -- msgpack-rpc gets one answer, at once or from the callback of the batch that it starts. Its
    -- call, if the log has one, is ended then, except for a request for several calls whose
    -- parameters are of another type.
    pub dispatch-AnsweredOnce :
        (s : Server O)
        → (d : Server O) × (answer later rsps (dispatch what now q s) ≡ some d)
          × AnsweredOnce now later q s d
    unfolding dispatch
    dispatch-AnsweredOnce s = dispatch_replied s q.method refl
