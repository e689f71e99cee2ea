-- ===== src/Commands/Handlers.antt =====
-- source/process/controllers/CommandsController.cpp: the handlers of the calls of services, with the
-- record of the calls that they keep. A handler ends with the start of a batch, whose callback
-- comes later, or with its answer.
use fiberproxy.Prelude.{
  ℕ, ◌+◌, Bool, true, false, List, [], ◌∷◌, ◌++◌, Option, none, some, Bytes, codes, bind, ◌⊎◌, inl,
  inr,
}
use fiberproxy.Types.{ServiceCallReq, ServiceCallRsp}
use fiberproxy.Logger.{Logger, start_service_call, end_service_call}
use fiberproxy.Commands.{Value, Msgpack}
use fiberproxy.Commands.Parse.{parse_single_api_request, parse_api_request}
use fiberproxy.Commands.Render.{Entry, generate_rsp, generate_single_rsp}

-- `posts` counts the calls of postprocess, which sends the response.
pub record Controller : Type 0 where
  pub call_api_list : List ServiceCallReq
  pub raw_rsp : Bytes
  pub errors : List Bytes
  pub service_rsp_list : List Entry
  pub posts : ℕ
  pub log : Logger

-- The start of call_services_in_fiber.
pub record Started : Type 0 where
  pub id : ℕ
  pub reqs : List ServiceCallReq
  pub do_transaction : Bool

-- How a handler ends: with a batch that starts, with its answer, or by an exception.
pub data Handled : Type 0 where
  started : Started → Handled
  refused : Handled
  threw : Handled

abbrev pub is_started : Handled → Bool
is_started (started s) = true
is_started refused = false
is_started threw = false

abbrev pub parse_failed : Bytes
parse_failed = codes "parser request data failed."

-- response().addError and Controller::postprocess
abbrev pub refuse : List ServiceCallReq → Logger → Controller → Controller
refuse reqs log c = record c {
  call_api_list = reqs;
  errors = c.errors ++ parse_failed ∷ [];
  posts = c.posts + 1;
  log = log;
}

abbrev pub accept : List ServiceCallReq → Logger → Controller → Controller
accept reqs log c = record c { call_api_list = reqs; log = log }

-- the end of a handler of one or of several calls, by what the parser returns
abbrev pub after_parse :
    ℕ → Bool → Logger → Bool × List ServiceCallReq → Controller → Controller × Handled
after_parse id do_transaction log (false, reqs) c = (refuse reqs log c, refused)
after_parse id do_transaction log (true, reqs) c =
    (accept reqs log c, started (record { id = id; reqs = reqs; do_transaction = do_transaction }))

-- `now` is the time of the record. An exception of the parser is `none`.
unfoldable pub call_single_service_async :
    (Bytes → Bytes)
    → (Bytes → List Bytes)
    → ℕ
    → ℕ
    → Bytes
    → Bytes
    → Controller
    → Option (Controller × Handled)
call_single_service_async trim split now method raw_req path c =
    let (log, id) = start_service_call now c.log in
    bind (parse_single_api_request trim split method raw_req path c.call_api_list)
      (λ p. some (after_parse id false log p c))

module _ {V : Type 0} (val : Value V) (mp : Msgpack) where
  -- asBool(request()[Keys::do_transaction]), whose exception leaves the handler behind the start of
  -- the record, and then the parser
  abbrev pub with_transaction : ℕ → Logger → V → Option Bool → Controller → Controller × Handled
  with_transaction id log call_api_list none c = (record c { log = log }, threw)
  with_transaction id log call_api_list (some do_transaction) c =
      after_parse id do_transaction log (parse_api_request val mp call_api_list c.call_api_list) c

  -- `call_api_list` is the member of the request that the parser gets.
  unfoldable pub call_services_async : ℕ → V → V → Controller → Controller × Handled
  call_services_async now call_api_list request c =
      let (log, id) = start_service_call now c.log in
      with_transaction id log call_api_list (val.as_bool (codes "do_transaction") request) c

-- The callbacks, with the responses of the batch.
abbrev pub ended : ℕ → ℕ → Controller → Controller
ended id now c = record c { posts = c.posts + 1; log = end_service_call id now c.log }

abbrev pub set_single : Bytes ⊎ Bytes → Controller → Controller
set_single (inl error) c = record c { errors = c.errors ++ error ∷ [] }
set_single (inr rsp) c = record c { raw_rsp = rsp }

unfoldable pub after_call_single_service :
    ℕ → ℕ → List ServiceCallRsp → Controller → Option Controller
after_call_single_service id now rsp_list c =
    bind (generate_single_rsp rsp_list) (λ r. some (ended id now (set_single r c)))

unfoldable pub after_call_services :
    Msgpack → ℕ → ℕ → List ServiceCallRsp → Controller → Option Controller
after_call_services mp id now rsp_list c =
    bind (generate_rsp mp c.call_api_list rsp_list)
      (λ es. some (ended id now (record c { service_rsp_list = c.service_rsp_list ++ es })))
