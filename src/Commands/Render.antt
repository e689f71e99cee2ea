-- ===== src/Commands/Render.antt =====
-- source/process/controllers/ResponseRender.cpp.
use fiberproxy.Prelude.{
  ℕ, Bool, ◌&&◌, not, List, [], ◌∷◌, ◌++◌, Option, none, some, Bytes, codes, bind, if◌then◌else◌,
  ◌==◌, is_empty, ◌⊎◌, inl, inr,
}
use fiberproxy.Types.{ServiceCallReq, ServiceCallRsp, rpc_service}
use fiberproxy.Commands.{Msgpack}

-- An entry of service_rsp_list; `service_error` is a member only when it is there.
pub record Entry : Type 0 where
  pub service_name : Bytes
  pub service_rsp : Bytes
  pub is_cached : Bool
  pub service_error : Option Bytes

abbrev pub some_error : Bytes → Option Bytes
some_error e = if not (is_empty e) then some e else none

abbrev pub convert_failed : Bytes → Bytes
convert_failed what = codes "Convert Service Rpc Response to Json String Failed." ++ what

module _ (mp : Msgpack) where
  -- the response and the error of an entry: an RPC response is unpacked
  unfoldable pub entry_texts : ℕ → ServiceCallRsp → Bytes × Bytes
  entry_texts service_type r =
      if service_type == rpc_service && not (is_empty r.rsp)
      then elim (mp.unpack r.rsp) [
        | inl what ↦ ([], convert_failed what)
        | inr text ↦ (text, r.error)
      ]
      else (r.rsp, r.error)

  unfoldable pub render_one : ℕ → ServiceCallRsp → Entry
  render_one service_type r =
      let (rsp, error) = entry_texts service_type r in
      record {
        service_name = r.service_name;
        service_rsp = rsp;
        is_cached = r.is_cached;
        service_error = some_error error;
      }

  -- The loop reads a request for each response; `none` is a read past the end of the requests.
  unfoldable pub generate_rsp : List ServiceCallReq → List ServiceCallRsp → Option (List Entry)
  generate_rsp reqs [] = some []
  generate_rsp [] (r ∷ rs) = none
  generate_rsp (q ∷ qs) (r ∷ rs) =
      bind (generate_rsp qs rs) (λ es. some (render_one q.service_type r ∷ es))

-- The one response, as an error or as the raw body; `none` is the assertion on their number.
unfoldable pub generate_single_rsp : List ServiceCallRsp → Option (Bytes ⊎ Bytes)
generate_single_rsp [] = none
generate_single_rsp (r ∷ s ∷ rs) = none
generate_single_rsp (r ∷ []) = some (if not (is_empty r.error) then inl r.error else inr r.rsp)
