-- ===== src/HttpServer/Order.antt =====
-- What a connection is to make of its requests: those whose handlers answer in their calls are
-- answered at once, the others later, and with a fiber pool the pool gets them, until one ends the
-- reading.
use fiberproxy.Prelude.{
  ℕ, Bool, true, false, ◌&&◌, not, List, [], ◌∷◌, ◌++◌, Option, none, some, Bytes, ◌≡◌, refl,
  if◌then◌else◌, ◌==◌, bind,
}
use fiberproxy.Http.Incoming.{RequestT}
use fiberproxy.HttpServer.{
  Router, Texts, Conn, Invoked, threw, answered, deferred, write_error_rsp, s_err_rsp_500,
  s_err_rsp_404, s_err_rsp_400, error_text, answer_text, full_path, shutdown, write_rsp, route,
  fail_500, answer, invoke, handle_request_func, handle_request, request_cb,
}
use fiberproxy.HttpServer.Loop.{Read, failed, chunk}

-- What a handler makes of a request.
abbrev pub handled : {H : Type 0} → Router H → H → RequestT → Invoked
handled router h req =
    if router.is_async h
    then router.invoke_raw_async h (full_path req) req.method req.body
    else elim (router.invoke_raw h (full_path req) req.method req.body) [
      | none ↦ threw
      | some (raw, json) ↦ answered raw json
    ]

-- the connection after an answer
abbrev pub sent : Bytes → Bool → Conn → Conn
sent s keep c = let d = record c { answers = c.answers ++ s ∷ [] } in if keep then d else shutdown d

-- What becomes of a request: it has its answer at once, its handler will answer, or the fiber pool
-- has it, with the controller and the action.
pub data Fate : Type 0 where
  now : Bytes → Fate
  later : Fate
  scheduled : Bytes → Bytes → Fate

abbrev pub is_now : Fate → Bool
is_now (now s) = true
is_now later = false
is_now (scheduled controller action) = false

-- the connection after a request
abbrev pub effect : Fate → Bool → RequestT → Conn → Conn
effect later keep req c = record c { waiting = c.waiting ++ req ∷ [] }
effect (scheduled controller action) keep req c = record c {
  queued = c.queued ++ (controller, action, req) ∷ [];
}
effect (now s) keep req c = sent s keep c

abbrev pub told : Fate → List Bytes → List Bytes
told (now s) ss = s ∷ ss
told later ss = ss
told (scheduled controller action) ss = ss

abbrev pub put : Fate → RequestT → List RequestT → List RequestT
put (now s) m ms = ms
put later m ms = m ∷ ms
put (scheduled controller action) m ms = ms

abbrev pub PoolTask : Type 0
PoolTask = Bytes × Bytes × RequestT

abbrev pub give : Fate → RequestT → List PoolTask → List PoolTask
give (now s) m ts = ts
give later m ts = ts
give (scheduled controller action) m ts = (controller, action, m) ∷ ts

module _ (lib : Texts) {H : Type 0} (router : Router H) (pooled : Bool) where
  abbrev pub trimmed : RequestT → RequestT
  trimmed req = record req { path = lib.trim req.path }

  abbrev pub outcome : RequestT → Invoked → Fate × Bool
  outcome req threw = (now (error_text s_err_rsp_500), false)
  outcome req (answered raw json) = (now (answer_text lib req raw json), true)
  outcome req deferred = (later, true)

  abbrev pub found_reply : RequestT → Option H → Fate × Bool
  found_reply req none = (now (error_text s_err_rsp_404), false)
  found_reply req (some h) = outcome req (handled router h req)

  abbrev pub routed_reply : RequestT → Option (Bytes × Bytes) → Fate × Bool
  routed_reply req none = (now (error_text s_err_rsp_400), false)
  routed_reply req (some (controller, action)) =
      if pooled
      then (scheduled controller action, true)
      else found_reply req (router.find controller action)

  -- What becomes of a request, and whether it is no error.
  abbrev pub reply : RequestT → Fate × Bool
  reply req = routed_reply (trimmed req) (route lib req)

  abbrev pub goes_on : RequestT → Bool
  goes_on req = (reply req).1 && req.keep_alive

  -- The requests up to the first that ends the reading, and whether none does.
  abbrev pub served : List RequestT → List RequestT
  served [] = []
  served (m ∷ ms) = let rest = served ms in if goes_on m then m ∷ rest else m ∷ []

  abbrev pub all_go_on : List RequestT → Bool
  all_go_on [] = true
  all_go_on (m ∷ ms) = goes_on m && all_go_on ms

  -- Whether they leave the connection open: a request that is deferred does.
  abbrev pub stays : List RequestT → Bool
  stays [] = true
  stays (m ∷ ms) = let rest = stays ms in if goes_on m then rest else not (is_now (reply m).0)

  -- the answers that are given at once, and the requests that are deferred
  abbrev pub replies : List RequestT → List Bytes
  replies [] = []
  replies (m ∷ ms) = told (reply m).0 (replies ms)

  abbrev pub postponed : List RequestT → List RequestT
  postponed [] = []
  postponed (m ∷ ms) = put (reply m).0 (trimmed m) (postponed ms)

  abbrev pub given : List RequestT → List PoolTask
  given [] = []
  given (m ∷ ms) = give (reply m).0 (trimmed m) (given ms)

  abbrev pub reads_on : ℕ → List RequestT → Bool → Bool
  reads_on n messages whole = not (n == 0) && all_go_on messages && whole

  -- The same of all that a connection reads.
  abbrev pub expected : List Read → List Bytes
  expected [] = []
  expected (failed ∷ reads) = error_text s_err_rsp_500 ∷ []
  expected (chunk n messages whole ∷ reads) =
      let rest = expected reads in
      replies (served messages) ++ (if reads_on n messages whole then rest else [])

  abbrev pub awaited : List Read → List RequestT
  awaited [] = []
  awaited (failed ∷ reads) = []
  awaited (chunk n messages whole ∷ reads) =
      let rest = awaited reads in
      postponed (served messages) ++ (if reads_on n messages whole then rest else [])

  abbrev pub given_all : List Read → List PoolTask
  given_all [] = []
  given_all (failed ∷ reads) = []
  given_all (chunk n messages whole ∷ reads) =
      let rest = given_all reads in
      given (served messages) ++ (if reads_on n messages whole then rest else [])

  -- Whether the connection is open behind the reads.
  abbrev pub stays_open : List Read → Bool
  stays_open [] = true
  stays_open (failed ∷ reads) = false
  stays_open (chunk n messages whole ∷ reads) =
      let rest = stays_open reads in
      not (n == 0) && (if all_go_on messages then whole && rest else stays messages)

  pub write_error_rsp-sent :
      (rsp : Bytes) (c : Conn)
      → c.writable ≡ true
      → write_error_rsp rsp c ≡ some (sent (error_text rsp) false c)
  unfolding write_error_rsp
  write_error_rsp-sent rsp c w = simp w

  fail_500-sent :
      (c : Conn)
      → c.writable ≡ true
      → fail_500 lib router c ≡ some (false, sent (error_text s_err_rsp_500) false c)
  unfolding fail_500
  fail_500-sent c w = rw (write_error_rsp-sent s_err_rsp_500 c w) refl

  write_rsp-sent :
      (req : RequestT) (raw json : Bytes) (c : Conn)
      → c.writable ≡ true
      → write_rsp lib req raw json c ≡ some (sent (answer_text lib req raw json) req.keep_alive c)
  unfolding write_rsp
  write_rsp-sent req raw json c w = rw w refl

  answer-sent :
      (req : RequestT) (raw json : Bytes) (c : Conn)
      → c.writable ≡ true
      → answer lib router req raw json c
        ≡ some (true, sent (answer_text lib req raw json) req.keep_alive c)
  unfolding answer
  answer-sent req raw json c w = rw (write_rsp-sent req raw json c w, answer) refl

  abbrev result : RequestT → Fate × Bool → Conn → Option (Bool × Conn)
  result req (o, ok) c = some (ok, effect o (ok && req.keep_alive) req c)

  invoke-sent :
      (h : H) (req : RequestT) (c : Conn)
      → c.writable ≡ true
      → invoke lib router h req c ≡ result req (outcome req (handled router h req)) c
  unfolding invoke
  invoke-sent h req c w =
      go (router.is_async h) (router.invoke_raw_async h (full_path req) req.method req.body)
        (router.invoke_raw h (full_path req) req.method req.body)
    where
      go :
          (b : Bool) (i : Invoked) (o : Option (Bytes × Bytes))
          → (if b
              then elim i [
                | threw ↦ fail_500 lib router c
                | answered raw json ↦ answer lib router req raw json c
                | deferred ↦ some (true, record c { waiting = c.waiting ++ req ∷ [] })
              ]
              else elim o [
                | none ↦ fail_500 lib router c
                | some (raw, json) ↦ answer lib router req raw json c
              ])
            ≡ result req
                (outcome req
                  (if b then i else elim o [ none ↦ threw | some (raw, json) ↦ answered raw json ]))
                c
      go true threw o = fail_500-sent c w
      go true (answered raw json) o = answer-sent req raw json c w
      go true deferred o = refl
      go false i none = fail_500-sent c w
      go false i (some (raw, json)) = answer-sent req raw json c w

  handle_request_func-sent :
      (controller action : Bytes) (req : RequestT) (c : Conn)
      → c.writable ≡ true
      → handle_request_func lib router controller action req c
        ≡ result req (found_reply req (router.find controller action)) c
  unfolding handle_request_func
  handle_request_func-sent controller action req c w = go (router.find controller action)
    where
      go :
          (o : Option H)
          → elim o [
            | none ↦ bind (write_error_rsp s_err_rsp_404 c) (λ d. some (false, d))
            | some h ↦ invoke lib router h req c
          ]
            ≡ result req (found_reply req o) c
      go none = rw (write_error_rsp-sent s_err_rsp_404 c w) refl
      go (some h) = invoke-sent h req c w

  handle_request-sent :
      (req : RequestT) (c : Conn)
      → c.writable ≡ true
      → handle_request lib router pooled req c ≡ result (trimmed req) (reply req) c
  unfolding handle_request
  handle_request-sent req c w = go (route lib req)
    where
      go :
          (o : Option (Bytes × Bytes))
          → elim o [
            | none ↦ bind (write_error_rsp s_err_rsp_400 c) (λ d. some (false, d))
            | some (controller, action) ↦
                if pooled
                then some
                    (true, record c { queued = c.queued ++ (controller, action, trimmed req) ∷ [] })
                else handle_request_func lib router controller action (trimmed req) c
          ]
            ≡ result (trimmed req) (routed_reply (trimmed req) o) c
      go none = rw (write_error_rsp-sent s_err_rsp_400 c w) refl
      go (some (controller, action)) =
          by_pool pooled (handle_request_func-sent controller action (trimmed req) c w)
        where
          by_pool :
              (b : Bool)
              → handle_request_func lib router controller action (trimmed req) c
                ≡ result (trimmed req) (found_reply (trimmed req) (router.find controller action)) c
              → (if b
                  then some (
                    true,
                    record c { queued = c.queued ++ (controller, action, trimmed req) ∷ [] },
                  )
                  else handle_request_func lib router controller action (trimmed req) c)
                ≡ result
                    (trimmed req)
                    (if b
                      then (scheduled controller action, true)
                      else found_reply (trimmed req) (router.find controller action))
                    c
          by_pool true e = refl
          by_pool false e = e

  pub request_cb-sent :
      (req : RequestT) (c : Conn)
      → c.writable ≡ true
      → request_cb lib router pooled req c
        ≡ some (goes_on req, effect (reply req).0 (goes_on req) (trimmed req) c)
  unfolding request_cb
  request_cb-sent req c w = rw (handle_request-sent req c w) refl
