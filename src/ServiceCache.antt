-- ===== src/ServiceCache.antt =====
-- source/core/forward-manager/FibpServiceCache.cpp, over the cache of izenelib (`Remote`).
use fiberproxy.Prelude.{Bool, true, false, ◌||◌, not, Option, none, some, if◌then◌else◌, is_empty}
use fiberproxy.Types.{ServiceCallReq, ServiceCallRsp}
use fiberproxy.Remote.{Remote}

module _ {W H : Type 0} (remote : Remote W H) where
  open remote use {cache_get, cache_insert}

  -- what FibpServiceCache::get leaves in `rsp`, given the cache's answer
  abbrev pub take_cached : ServiceCallRsp → Option ServiceCallRsp → Bool × ServiceCallRsp
  take_cached rsp none = (false, rsp)
  take_cached rsp (some tmp) = (true, record tmp { is_cached = true })

  unfoldable pub get : ServiceCallReq → ServiceCallRsp → W → Bool × ServiceCallRsp × W
  get req rsp w =
      let (found, w') = cache_get req w in
      let (ret, rsp') = take_cached rsp found in
      if not req.enable_cache then (false, rsp, w) else (ret, rsp', w')

  unfoldable pub set : ServiceCallReq → ServiceCallRsp → W → W
  set req rsp w =
      if not (is_empty rsp.error) || not req.enable_cache then w else cache_insert req rsp w
