-- ===== src/ServiceMgr/Cluster.antt =====
-- source/core/forward-manager/FibpServiceMgr.cpp, watchCurrentClusterName: the cluster whose hosts calls
-- are sent to. What rapidjson's GetString() gives for an object, which fails an assertion, is an
-- argument.
use fiberproxy.Prelude.{
  Bool, true, false, List, [], ◌∷◌, Option, none, some, Bytes, codes, bytes_eq, is_empty, not,
  if◌then◌else◌,
}
use fiberproxy.Http.{Header, find_header}
use fiberproxy.Json.{Json}

pub record Watch : Type 0 where
  pub cur_cluster_name : Bytes
  pub indexid : Bytes

unfoldable pub change_cluster : Bytes → Watch → Watch
change_cluster name w = if is_empty name then w else record w { cur_cluster_name = name }

module _ {J : Type 0} (json : Json J) where
  open json use {parse, is_object, members, get_string}

  -- the first member "Name", or else the text of the whole answer
  unfoldable pub read_name : Bytes → List (Bytes × J) → Bytes
  read_name d [] = d
  read_name d ((key, v) ∷ ms) = if bytes_eq key (codes "Name") then get_string v else read_name d ms

  abbrev pub next_index : List Header → Bytes
  next_index headers =
      let i = find_header headers (codes "X-Consul-Index") in if is_empty i then codes "0" else i

  -- One round, with the answer if there is one; the flag is false when the fiber waits ten seconds.
  unfoldable pub cluster_round : Option (Bytes × List Header) → Watch → Bool × Watch
  unfolding read_name change_cluster
  cluster_round none w = (false, w)
  cluster_round (some (rsp, headers)) w = elim (parse rsp) [
    | none ↦ (false, w)
    | some doc ↦
        if not (is_object doc)
        then (false, w)
        else (let name = read_name (get_string doc) (members doc) in
            let w' = record w { indexid = next_index headers } in
            (true, if not (bytes_eq name w.cur_cluster_name) then change_cluster name w' else w'))
  ]
