-- ===== src/Tests/Pools.antt =====
-- A task comes to an empty pool and is started.
use fiberproxy.Prelude.{◌≤◌, [], ◌∷◌, ◌++◌, some, ◌≡◌, refl}
use fiberproxy.FiberPool.{FiberPool, new_pool, schedule_task_from_fiber, take_task, take_front}
use fiberproxy.FiberPool.Order.{here, next, schedule, take, Reach-order}

abbrev scheduled : FiberPool
scheduled = schedule_task_from_fiber 7 new_pool

abbrev started : FiberPool
started = (take_task scheduled).0

taken : take_task scheduled ≡ (started, some 7)
unfolding schedule_task_from_fiber take_task take_front
taken = refl

Reach-order_example : (7 ∷ [] ≡ 7 ∷ [] ++ started.fiber_task_list) × (started.fiber_num ≤ 30000)
Reach-order_example = Reach-order (next (next here (schedule 7 refl refl)) (take 7 taken refl))
