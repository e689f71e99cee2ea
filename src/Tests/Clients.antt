-- ===== src/Tests/Clients.antt =====
-- A thread that takes a client and gives it back.
use fiberproxy.Prelude.{◌+◌, ◌≤◌, [], some, Bytes, codes, ◌≡◌, refl, lookup, insert, bytes_key}
use fiberproxy.ClientMgr.{ClientMgr, take_client, put_back}
use fiberproxy.ClientMgr.Pool.{here, next, take, give, new_mgr, count, pooled, Reach-once}

abbrev web : Bytes
web = codes "h:80"

abbrev one_taken : ClientMgr
one_taken = (take_client new_mgr web).0

took : take_client new_mgr web ≡ (one_taken, some 0)
unfolding take_client lookup insert
took = refl

Reach-once_example : (pooled 0 (put_back web 0 one_taken).http_client_pool_list + count 0 [] ≤ 1)
Reach-once_example =
    Reach-once (next (next here (take web 0 took)) (give web 0 [] [] refl refl refl)) 0
