-- ===== src/Servers/Robin.antt =====
-- Connections go round the services, until an accept fails; then none is accepted any more.
use fiberproxy.Prelude.{
  ℕ, zero, suc, ◌+◌, ◌%◌, ◌^◌, ◌<◌, Bool, true, false, List, [], ◌∷◌, ◌++◌, if◌then◌else◌, ◌==◌,
  leb, ◌≡◌, refl, ap, sym, ◌∙◌, arith, append-nil, append_assoc,
}
use fiberproxy.Servers.{
  Service, service, new_pool, get_io_service, AsyncServer, new_server, async_accept, init, on_error,
  on_accept, run_accepts,
}

-- The accepts before the first that fails.
abbrev pub accepted : List Bool → ℕ
accepted [] = 0
accepted (true ∷ es) = 0
accepted (false ∷ es) = suc (accepted es)

-- `n` services from behind `from` on, of `k`
abbrev pub robin : ℕ → ℕ → ℕ → List Service
robin k from zero = []
robin k from (suc n) = service ((from + 1) % k) ∷ robin k (from + 1) n

-- A server whose accept goes to the service behind `n` others.
abbrev waiting_server : ℕ → ℕ → List Service → AsyncServer
waiting_server k n done = record {
  service_pool = record { io_services = k; next_io_service = n + 1 };
  new_connection = service ((n + 1) % k);
  accepting = true;
  started = done;
  errors = 0;
}

stopped :
    (es : List Bool) (s : AsyncServer)
    → s.accepting ≡ false
    → (run_accepts es s).started ≡ s.started
unfolding run_accepts
stopped [] s h = refl
stopped (e ∷ es) s h =
    ap (λ b. (run_accepts es (if b then on_accept e s else s)).started) h ∙ stopped es s h

next-eq : (n : ℕ) → n + 2 < 2 ^ 64 → (n + 1 + 1) % 2 ^ 64 ≡ n + 1 + 1
next-eq n h = omega arith

on_accept-waiting_server :
    (k n : ℕ) (done : List Service)
    → (k == 0) ≡ false
    → n + 2 < 2 ^ 64
    → on_accept false (waiting_server k n done)
      ≡ waiting_server k (n + 1) (done ++ (service ((n + 1) % k) ∷ []))
unfolding on_accept async_accept get_io_service
on_accept-waiting_server k n done k0 h = rw (k0, next-eq n h) refl

run_accepts-robin :
    (es : List Bool) (k n : ℕ) (done : List Service)
    → (k == 0) ≡ false
    → n + accepted es + 2 < 2 ^ 64
    → (run_accepts es (waiting_server k n done)).started ≡ done ++ robin k n (accepted es)
unfolding run_accepts on_accept on_error
run_accepts-robin [] k n done k0 h = sym (append-nil done)
run_accepts-robin (true ∷ es) k n done k0 h =
    stopped es (on_accept true (waiting_server k n done)) refl ∙ sym (append-nil done)
run_accepts-robin (false ∷ es) k n done k0 h =
    ap (λ s. (run_accepts es s).started) (on_accept-waiting_server k n done k0 (omega arith))
    ∙ run_accepts-robin es k (n + 1) _ k0 (omega arith)
    ∙ append_assoc done _ _

init-waiting_server :
    (pool_size : ℕ) → 1 < pool_size → init (new_server pool_size) ≡ waiting_server pool_size 0 []
unfolding init async_accept get_io_service new_pool
init-waiting_server pool_size many =
    let large : leb pool_size 1 ≡ false = ground arith in
    let nonzero : (pool_size == 0) ≡ false = ground arith in rw (large, nonzero) refl

-- With two services or more, and fewer accepts than 64 bits count, the connections that are started
-- are those accepted before the first accept that fails, and they go round the services in turn.
pub run_accepts-started :
    (pool_size : ℕ) (es : List Bool)
    → 1 < pool_size
    → accepted es + 2 < 2 ^ 64
    → (run_accepts es (init (new_server pool_size))).started ≡ robin pool_size 0 (accepted es)
run_accepts-started pool_size es many h =
    ap (λ s. (run_accepts es s).started) (init-waiting_server pool_size many)
    ∙ run_accepts-robin es pool_size 0 [] (ground (arith, many)) (omega arith)
