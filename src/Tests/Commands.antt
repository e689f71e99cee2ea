-- ===== src/Tests/Commands.antt =====
-- Concrete requests of clients, over a JSON value that is a list of strings.
use fiberproxy.Prelude.{
  ◌≤◌, true, false, List, [], ◌∷◌, Option, none, some, Bytes, codes, ◌≡◌, refl, arith, map, length,
  inr, bytes_eq, is_some, if◌then◌else◌,
}
use fiberproxy.Types.{ServiceCallRsp, empty_req, empty_rsp}
use fiberproxy.Logger.{Logger, new_logger, start_service_call, end_service_call, modify}
use fiberproxy.Logger.Spec.{Op, Answer, start, change, finish, given, done, run, Run, here, next}
use fiberproxy.Commands.{Value, Msgpack}
use fiberproxy.Commands.Parse.{
  parse_single_api_request, parse_api_request, parse_all, parse_one, get_req_method, substr,
}
use fiberproxy.Commands.Handlers.{Controller, Handled, is_started, call_services_async}
use fiberproxy.Commands.Once.{answer, Answered, call_services_async-Answered}
use fiberproxy.Commands.Unended.{call_services_async-unended}

-- A slash too many shifts the API, since the offset counts the pieces alone.
shifted_api :
    parse_single_api_request
      (λ s. s)
      (λ s. codes "a" ∷ codes "b" ∷ codes "c" ∷ codes "d" ∷ [])
      3
      []
      (codes "a//b/c/d")
      []
    ≡ some (true, record empty_req { service_name = codes "c"; service_api = codes "c/d" } ∷ [])
unfolding parse_single_api_request substr
shifted_api = refl

-- A value is a list of service names, or not an array.
abbrev names_value : Value (Option (List Bytes))
names_value = record {
  is_array = is_some;
  elements = λ v. elim v [ none ↦ [] | some names ↦ map (λ n. some (n ∷ [])) names ];
  as_string =
      λ key v. some (elim v [ none ↦ [] | some names ↦ elim names [ [] ↦ [] | n ∷ ns ↦ n ] ]);
  as_int = λ key v. some 0;
  as_bool = λ key v. if is_some v then some false else none;
}

abbrev no_msgpack : Msgpack
no_msgpack = record { pack = λ s. s; unpack = λ s. inr s }

abbrev new_controller : Controller
new_controller = record {
  call_api_list = [];
  raw_rsp = [];
  errors = [];
  service_rsp_list = [];
  posts = 0;
  log = new_logger;
}

abbrev two_calls : Option (List Bytes)
two_calls = some (codes "users" ∷ codes "orders" ∷ [])

abbrev two_responses : List ServiceCallRsp
two_responses =
    record empty_rsp { service_name = codes "users"; rsp = codes "{}" }
    ∷ record empty_rsp { service_name = codes "orders"; error = codes "No Available Service." }
    ∷ []

abbrev two_handled : Controller × Handled
two_handled = call_services_async names_value no_msgpack 5 two_calls two_calls new_controller

two_parsed : length two_responses ≡ length (two_handled.0.call_api_list)
unfolding call_services_async start_service_call parse_api_request parse_all parse_one
    get_req_method bytes_eq
two_parsed = refl

call_services_async-Answered_example :
    (d : Controller) × (answer no_msgpack 9 two_responses two_handled ≡ some d)
    × Answered no_msgpack names_value two_calls two_calls new_controller d two_responses two_handled
call_services_async-Answered_example =
    call_services_async-Answered no_msgpack names_value two_calls two_calls new_controller 5 9
      two_responses two_parsed

abbrev bad_handled : Controller × Handled
bad_handled = call_services_async names_value no_msgpack 5 none two_calls new_controller

abbrev later_ops : List (Op × Answer)
later_ops = (start 7, given 2) ∷ (change 2 (finish 8), done) ∷ []

abbrev later_log : Logger
later_log = (run (change 2 (finish 8)) (run (start 7) bad_handled.0.log).0).0

later_run : Run bad_handled.0.log later_ops later_log
unfolding call_services_async parse_api_request run start_service_call end_service_call modify
later_run = next (start 7) tt (next (change 2 (finish 8)) (inr (omega arith, refl)) here)

call_services_async-unended_example : (is_started bad_handled.1 ≡ false) × (later_log.next_send ≤ 1)
call_services_async-unended_example =
    call_services_async-unended names_value no_msgpack 5 none two_calls new_controller refl refl
      (omega arith) later_run (omega arith, tt)
