-- ===== src/Commands/Once.antt =====
-- The answer of CommandsController.cpp to a request for several calls, with an entry for each of them,
-- told of the responses and not of the code that renders them.
use fiberproxy.Prelude.{
  ℕ, ◌+◌, Bool, true, false, List, [], ◌∷◌, ◌++◌, Option, none, some, ◌≡◌, ◌≢◌, refl, sym, ◌∙◌,
  arith, length, Bytes, codes, inl, inr, ◌⊎◌, ◌==◌, ==_iff, ◌&&◌, not, is_empty, Bool-cases,
}
use fiberproxy.Types.{ServiceCallReq, ServiceCallRsp, rpc_service}
use fiberproxy.Logger.{Logger, start_service_call}
use fiberproxy.Commands.{Value, Msgpack}
use fiberproxy.Commands.Parse.{parse_api_request}
use fiberproxy.Commands.Render.{
  Entry, render_one, entry_texts, some_error, convert_failed, generate_rsp,
}
use fiberproxy.Commands.Handlers.{
  Controller, Handled, started, refused, threw, parse_failed, refuse, accept, after_parse,
  with_transaction, call_services_async, ended, after_call_services,
}

-- The response is one of an RPC service, and not empty, so that it is unpacked.
abbrev pub Packed : ServiceCallReq → ServiceCallRsp → Type 0
Packed q r = (q.service_type ≡ rpc_service) × (r.rsp ≢ [])

-- An error is a member of the entry when it is not empty.
abbrev pub ShowsError : Bytes → Option Bytes → Type 0
ShowsError [] o = o ≡ none
ShowsError (c ∷ s) o = o ≡ some (c ∷ s)

-- The body and the error of an entry: those of the response, or what the unpacking makes of the body,
-- or nothing and the error of the unpacking.
pub data ShowsBody (mp : Msgpack) (q : ServiceCallReq) (r : ServiceCallRsp) (e : Entry)
    : Type 0 where
  kept :
      ¬ Packed q r → e.service_rsp ≡ r.rsp → ShowsError r.error e.service_error → ShowsBody mp q r e
  unpacked :
      Packed q r
      → mp.unpack r.rsp ≡ inr e.service_rsp
      → ShowsError r.error e.service_error
      → ShowsBody mp q r e
  broken :
      Packed q r
      → (what : Bytes) → mp.unpack r.rsp ≡ inl what
      → e.service_rsp ≡ []
      → e.service_error ≡ some (convert_failed what)
      → ShowsBody mp q r e

-- An entry for each call, in order, that stands for its response.
abbrev pub Shows : Msgpack → List Entry → List ServiceCallReq → List ServiceCallRsp → Type 0
Shows mp [] qs [] = Unit
Shows mp [] qs (r ∷ rs) = ⊥
Shows mp (e ∷ es) [] rs = ⊥
Shows mp (e ∷ es) (q ∷ qs) [] = ⊥
Shows mp (e ∷ es) (q ∷ qs) (r ∷ rs) =
    (e.service_name ≡ r.service_name)
    × (e.is_cached ≡ r.is_cached)
    × ShowsBody mp q r e
    × Shows mp es qs rs

module _ (mp : Msgpack) where
  some_error-ShowsError : (e : Bytes) → ShowsError e (some_error e)
  some_error-ShowsError [] = refl
  some_error-ShowsError (c ∷ s) = refl

  Packed-true :
      (q : ServiceCallReq) (r : ServiceCallRsp)
      → Packed q r
      → (q.service_type == rpc_service && not (is_empty r.rsp)) ≡ true
  Packed-true q r (t, n) = both r.rsp n
    where
      both : (s : Bytes) → s ≢ [] → (q.service_type == rpc_service && not (is_empty s)) ≡ true
      both [] n = absurd (n refl)
      both (c ∷ s) n = ground (arith, t, ==_iff q.service_type rpc_service)

  true-Packed :
      (q : ServiceCallReq) (r : ServiceCallRsp)
      → (q.service_type == rpc_service && not (is_empty r.rsp)) ≡ true
      → Packed q r
  true-Packed q r e = both r.rsp e
    where
      both :
          (s : Bytes)
          → (q.service_type == rpc_service && not (is_empty s)) ≡ true
          → (q.service_type ≡ rpc_service) × (s ≢ [])
      both [] e = absurd (ground arith)
      both (c ∷ s) e = (ground (arith, ==_iff q.service_type rpc_service), λ n. cc)

  render_one-ShowsBody :
      (q : ServiceCallReq) (r : ServiceCallRsp) → ShowsBody mp q r (render_one mp q.service_type r)
  unfolding render_one entry_texts
  render_one-ShowsBody q r =
      elim (Bool-cases (q.service_type == rpc_service && not (is_empty r.rsp))) [
        | inr e ↦ rw e (
            kept (λ p. absurd (let n : true ≡ false = sym (Packed-true q r p) ∙ e in cc)) refl
              (some_error-ShowsError r.error))
        | inl e ↦ rw e (go (mp.unpack r.rsp) refl (true-Packed q r e))
      ]
    where
      entry : Bytes × Bytes → Entry
      entry (rsp, error) = record {
        service_name = r.service_name;
        service_rsp = rsp;
        is_cached = r.is_cached;
        service_error = some_error error;
      }

      go :
          (u : Bytes ⊎ Bytes)
          → mp.unpack r.rsp ≡ u
          → Packed q r
          → ShowsBody mp q r (
              entry (elim u as (λ _. Bytes × Bytes) [
                | inl what ↦ ([], convert_failed what)
                | inr text ↦ (text, r.error)
              ]))
      go (inl what) e p = broken p what e refl refl
      go (inr text) e p = unpacked p e (some_error-ShowsError r.error)

  generate_rsp-Shows :
      (reqs : List ServiceCallReq) (rs : List ServiceCallRsp)
      → length rs ≡ length reqs
      → (es : List Entry) × (generate_rsp mp reqs rs ≡ some es) × Shows mp es reqs rs
  unfolding generate_rsp render_one
  generate_rsp-Shows [] [] h = ([], refl, tt)
  generate_rsp-Shows (q ∷ qs) [] h = absurd (omega (arith, h))
  generate_rsp-Shows [] (r ∷ rs) h = absurd (omega (arith, h))
  generate_rsp-Shows (q ∷ qs) (r ∷ rs) h =
      let (es, e, s) = generate_rsp-Shows qs rs (omega (arith, h)) in
      rw e (render_one mp q.service_type r ∷ es, refl, (refl, refl, render_one-ShowsBody q r, s))

  after_call_services-some :
      (id later : ℕ) (rsps : List ServiceCallRsp) (c : Controller) (es : List Entry)
      → generate_rsp mp c.call_api_list rsps ≡ some es
      → after_call_services mp id later rsps c
        ≡ some (ended id later (record c { service_rsp_list = c.service_rsp_list ++ es }))
  unfolding after_call_services
  after_call_services-some id later rsps c es e = rw e refl

  -- The answer to a request for several calls: the handler, and the callback when a batch started,
  -- with its responses and the time then.
  abbrev pub answer : ℕ → List ServiceCallRsp → Controller × Handled → Option Controller
  answer later rsps (c, started s) = after_call_services mp s.id later rsps c
  answer later rsps (c, refused) = some c
  answer later rsps (c, threw) = some c

  module _ {V : Type 0} (val : Value V) (l request : V) (c : Controller) where
    -- What the client sees of the controller: one response, with an entry for each call or with the
    -- error of the parser, or none when an exception has left the handler.
    abbrev pub Answered : Controller → List ServiceCallRsp → Controller × Handled → Type 0
    Answered d rsps (b, started s) =
        ((parse_api_request val mp l c.call_api_list).0 ≡ true)
        × (d.posts ≡ c.posts + 1)
        × (d.errors ≡ c.errors)
        × ((es : List Entry) × (d.service_rsp_list ≡ c.service_rsp_list ++ es)
            × Shows mp es b.call_api_list rsps)
    Answered d rsps (b, refused) =
        ((parse_api_request val mp l c.call_api_list).0 ≡ false)
        × (d.posts ≡ c.posts + 1)
        × (d.errors ≡ c.errors ++ parse_failed ∷ [])
        × (d.service_rsp_list ≡ c.service_rsp_list)
    Answered d rsps (b, threw) =
        (val.as_bool (codes "do_transaction") request ≡ none) × (d ≡ record c { log = d.log })

    -- What is shown of a way in which the handler ends.
    abbrev Replied : ℕ → List ServiceCallRsp → Controller × Handled → Type 0
    Replied later rsps p =
        length rsps ≡ length (p.0.call_api_list)
        → (d : Controller) × (answer later rsps p ≡ some d) × Answered d rsps p

    after_parse-Replied :
        (id later : ℕ) (log : Logger) (t : Bool) (rsps : List ServiceCallRsp)
        (p : Bool × List ServiceCallReq)
        → (parse_api_request val mp l c.call_api_list).0 ≡ p.0
        → Replied later rsps (after_parse id t log p c)
    after_parse-Replied id later log t rsps (false, reqs) e h =
        (refuse reqs log c, refl, (e, refl, refl, refl))
    after_parse-Replied id later log t rsps (true, reqs) e h =
        let (es, g, s) = generate_rsp-Shows reqs rsps h in
        (
          ended id later
              (record (accept reqs log c) { service_rsp_list = c.service_rsp_list ++ es }),
          after_call_services-some id later rsps (accept reqs log c) es g,
          (e, refl, refl, (es, refl, s)),
        )

    with_transaction-Replied :
        (id later : ℕ) (log : Logger) (rsps : List ServiceCallRsp) (t : Option Bool)
        → val.as_bool (codes "do_transaction") request ≡ t
        → Replied later rsps (with_transaction val mp id log l t c)
    with_transaction-Replied id later log rsps none e h = (record c { log = log }, refl, (e, refl))
    with_transaction-Replied id later log rsps (some t) e h =
        after_parse-Replied id later log t rsps (parse_api_request val mp l c.call_api_list) refl h

    -- A request for several calls, with a response for each of its calls: when it parses it gets
    -- one response, with no error and an entry for each call, in order; an entry has the name and
    -- the mark of the cache of its response, its error unless that is empty, and its body, unpacked
    -- for an RPC service, or the error of the unpacking and no body. When it does not parse, it
    -- gets one response with one error. Only an exception of asBool for do_transaction leaves it
    -- without a response, and then the record of the call in the log alone has changed.
    pub call_services_async-Answered :
        (now later : ℕ) (rsps : List ServiceCallRsp)
        → length rsps ≡ length ((call_services_async val mp now l request c).0.call_api_list)
        → (d : Controller) × (answer later rsps (call_services_async val mp now l request c)
            ≡ some d)
          × Answered d rsps (call_services_async val mp now l request c)
    unfolding call_services_async
    call_services_async-Answered now later rsps h =
        with_transaction-Replied (start_service_call now c.log).1 later
          (start_service_call now c.log).0 rsps (val.as_bool (codes "do_transaction") request) refl
          h
