-- ===== src/Tests/Threads.antt =====
-- Two threads of a manager of objects, and the connections of a server with three services.
use fiberproxy.Prelude.{ℕ, true, false, [], ◌∷◌, ◌+◌, ◌*◌, ◌≡◌, arith, some}
use fiberproxy.ThreadObjects.{ThreadObjects, new_objects, init, get_all}
use fiberproxy.ThreadObjects.Own.{Owned, get_thread_obj-Owned}
use fiberproxy.Servers as Server
use fiberproxy.Servers.{service, new_server, run_accepts}
use fiberproxy.Servers.Robin.{run_accepts-started}

abbrev test_hash : ℕ → ℕ
test_hash thread = thread * 53 + 7

get_thread_obj-Owned_example :
    (s : ThreadObjects) × (get_all test_hash (1 ∷ 2 ∷ []) (init 4 new_objects) ≡ some s)
    × Owned test_hash 2 3 (1 ∷ 3 ∷ []) s
get_thread_obj-Owned_example =
    get_thread_obj-Owned test_hash 4 (1 ∷ 2 ∷ []) (1 ∷ 3 ∷ []) 2 3 (omega arith) (omega arith)

run_accepts-started_example :
    (run_accepts (false ∷ false ∷ false ∷ true ∷ false ∷ []) (Server.init (new_server 3))).started
    ≡ service 1 ∷ service 2 ∷ service 0 ∷ []
run_accepts-started_example =
    run_accepts-started 3 (false ∷ false ∷ false ∷ true ∷ false ∷ []) (omega arith) (omega arith)
