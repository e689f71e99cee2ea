-- ===== src/Tests/Servers.antt =====
-- Concrete connections of clients.
use fiberproxy.Prelude.{
  ◌+◌, Bool, true, false, List, [], ◌∷◌, ◌++◌, none, some, Bytes, codes, ◌≡◌, refl, if◌then◌else◌,
  bytes_eq, inr, not,
}
use fiberproxy.Http.Incoming.{RequestT, no_request}
use fiberproxy.HttpServer.{Router, Texts, Conn, answered, deferred}
use fiberproxy.HttpServer.Loop.{Read, chunk, do_parse}
use fiberproxy.HttpServer.Order.{expected, awaited, given_all, stays_open}
use fiberproxy.HttpServer.Since.{IsFresh}
use fiberproxy.HttpServer.Pipeline.{do_parse-answers}
use fiberproxy.Driver as Forms
use fiberproxy.Driver.{Driver, Form, form, no_header}
use fiberproxy.Driver.Gives.{owed, count_of}
use fiberproxy.Driver.Sequence.{Event, arrive, task, finish, run, accepted, forms_of, run-owed}

-- A router with one handler, for the controller "echo", which defers a request with the body "wait".
abbrev echo_router : Router Bool
echo_router = record {
  find = λ c a. if bytes_eq c (codes "echo") then some true else none;
  is_async = λ h. h;
  invoke_raw = λ h p m b. none;
  invoke_raw_async =
      λ h p m b. if bytes_eq b (codes "wait") then deferred else answered b (codes "{}");
}

abbrev some_texts : Texts
some_texts = record {
  text = λ n. (48 + n) ∷ [];
  iequals = bytes_eq;
  trim = λ s. s;
  split = λ s. s ∷ [];
  timed = λ req s. s;
}

abbrev echo_request : RequestT
echo_request = record no_request { path = codes "echo"; keep_alive = true; body = codes "hi" }

abbrev new_conn : Conn
new_conn = record {
  writable = true;
  answers = [];
  receiving = true;
  parser = true;
  stale = false;
  queued = [];
  waiting = [];
}

-- a request that is deferred and one behind it in a read, then one for an unknown controller
abbrev three_requests : List Read
three_requests =
    chunk 90 (record echo_request { body = codes "wait" } ∷ echo_request ∷ []) true
    ∷ chunk 40 (record echo_request { path = codes "other" } ∷ []) true
    ∷ []

new_conn-IsFresh : IsFresh new_conn
new_conn-IsFresh = record { held = refl; listens = refl; clean = refl }

do_parse-answers_example :
    (d : Conn) × (do_parse some_texts echo_router false three_requests new_conn ≡ some d)
    × (d.answers ≡ expected some_texts echo_router false three_requests)
    × (d.waiting ≡ awaited some_texts echo_router false three_requests)
    × (d.queued ≡ given_all some_texts echo_router false three_requests)
    × (d.receiving ≡ stays_open some_texts echo_router false three_requests)
    × (d.stale ≡ not (stays_open some_texts echo_router false three_requests))
do_parse-answers_example =
    do_parse-answers some_texts echo_router false three_requests new_conn refl new_conn-IsFresh

-- A driver connection whose values are byte strings and whose handlers are asynchronous.
abbrev echo_driver : Driver Bytes Bytes Bool
echo_driver = record {
  read = λ s. inr s;
  is_object = λ v. true;
  controller = λ v. v;
  action = λ v. v;
  find = λ c a. some true;
  is_async = λ h. h;
  set_remote_ip = λ v. v;
  add_process_time = λ v r. r;
  add_total_time = λ v r. r;
  invoke = λ h v r. (r, none);
  invoke_async = λ h v r. (v, Forms.deferred);
  new_response = [];
  set_success = λ r. r;
  add_error = λ e r. r ++ e;
  write = λ r. r;
}

abbrev new_driver_conn : Forms.Conn Bytes Bytes
new_driver_conn = record { sent = []; receiving = true; queued = []; waiting = [] }

-- two requests, of which the first is answered after the second has come, and the end of the stream
abbrev driver_events : List (Event Bytes)
driver_events =
    arrive (form 7 2 (inr (codes "{}")))
    ∷ task
    ∷ arrive (form 8 2 (inr (codes "{}")))
    ∷ finish (codes "ok")
    ∷ arrive (no_header (codes "End of file"))
    ∷ []

run-owed_example :
    owed 7 (run echo_driver true driver_events new_driver_conn)
    ≡ owed 7 new_driver_conn + (if true then count_of 7 (accepted (forms_of driver_events)) else 0)
run-owed_example = run-owed echo_driver true 7 driver_events new_driver_conn
