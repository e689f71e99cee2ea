-- ===== src/Tests/Calls.antt =====
-- Calls and batches against a small remote.
use fiberproxy.Prelude.{
  ℕ, zero, suc, ◌+◌, ◌<◌, Bool, true, false, List, [], ◌∷◌, none, some, codes, bytes_eq, ltb,
  if◌then◌else◌, ◌≡◌, refl, ◌≢◌, length, arith,
}
use fiberproxy.Types.{ServiceCallReq, empty_req, empty_rsp, rpc_service}
use fiberproxy.Remote.{Remote}
use fiberproxy.ForwardManager.{Call, call_single_service, max_retry, local_test}
use fiberproxy.ForwardManager.Outcome.{Ends, call_single_service-Ends}
use fiberproxy.ForwardManager.Attempts.{Counted, call_single_service-Counted}
use fiberproxy.Batch.{Batch, Task, request, call_services_in_fiber}
use fiberproxy.Batch.Complete.{AllEnded, IsSchedule, starts, call_services_in_fiber-AllEnded}

-- The world counts the requests. Nobody offers the service "gone", and the requests before the
-- third are answered with a failure.
abbrev proxy : Remote ℕ Bool
proxy = record {
  get_service_address = λ b name type w.
      if bytes_eq name (codes "gone") then none else some (codes "10.0.0.1", codes "80");
  send_http = λ path method ip port body timeout w. (some (ltb 1 w), w + 1);
  send_other = λ path ip port type body timeout w. (none, w + 1);
  get_response = λ f w. (f, codes "{\"transaction_id\":\"7\"}", true, w);
  cache_get = λ req w. (some empty_rsp, w);
  cache_insert = λ req rsp w. w;
}

abbrev search_req : ServiceCallReq
search_req = record empty_req { service_name = codes "search"; service_api = codes "/q" }

abbrev gone_req : ServiceCallReq
gone_req = record empty_req { service_name = codes "gone"; enable_cache = true }

abbrev rpc_req : ServiceCallReq
rpc_req = record empty_req { service_name = codes "search"; service_type = rpc_service }

abbrev new_call : Call ℕ
new_call = record { rsp = empty_rsp; service_fail_stat = []; log = []; world = 0 }

abbrev new_batch : Batch ℕ
new_batch = record {
  rsp_list = [];
  call_num = 0;
  callbacks = 0;
  service_fail_stat = [];
  log = [];
  world = 0;
}

abbrev both : List ServiceCallReq
both = search_req ∷ gone_req ∷ []

-- The second call ends first.
abbrev backwards : List Task
backwards = record { index = 1; seed = 5 } ∷ record { index = 0; seed = 3 } ∷ []

both_proxied : (i : ℕ) → i < length both → (request both i).service_name ≢ local_test
both_proxied zero h = λ e. cc
both_proxied (suc zero) h = λ e. cc
both_proxied (suc (suc i)) h = absurd (omega arith)

both_ended : IsSchedule (length both) backwards
both_ended = record {
  sized = refl;
  in_range = (omega arith, (omega arith, tt));
  once = λ i h. go i h;
}
  where
    go : (i : ℕ) → i < length both → starts i backwards ≡ 1
    go zero h = refl
    go (suc zero) h = refl
    go (suc (suc i)) h = absurd (omega arith)

call_single_service-Ends_example :
    Ends proxy search_req (call_single_service proxy 4 1 search_req new_call).rsp
call_single_service-Ends_example =
    call_single_service-Ends proxy 4 1 search_req new_call
      (record { no_data = refl; no_error = refl; not_cached = refl }) (λ e. cc)

call_single_service-Counted_example :
    Counted (codes "search") max_retry new_call (call_single_service proxy 4 1 search_req new_call)
call_single_service-Counted_example = call_single_service-Counted proxy 4 1 search_req new_call

call_services_in_fiber-AllEnded_example :
    AllEnded proxy 1 both both_proxied
      (call_services_in_fiber proxy [] [] 1 both true false backwards 0 new_batch)
call_services_in_fiber-AllEnded_example =
    call_services_in_fiber-AllEnded proxy 1 both both_proxied [] [] true false backwards 0 new_batch
      both_ended refl refl
