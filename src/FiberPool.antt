-- ===== src/FiberPool.antt =====
-- source/core/fiber-server/FiberPool.hpp: the fibers of a thread and the tasks that wait for them. A
-- task is a number. A fiber that waits is woken by a condition variable; which one is, is left to
-- the order of the steps.
pub mod Manager
pub mod Order
use fiberproxy.Prelude.{
  ℕ, ◌+◌, ◌-◌, ◌*◌, Bool, true, false, List, [], ◌∷◌, ◌++◌, Option, none, some, if◌then◌else◌, ltb,
  leb, ◌==◌,
}

-- `fiber_num` is the size of fiber_pool_.
pub record FiberPool : Type 0 where
  pub fiber_num : ℕ
  pub fiber_task_list : List ℕ
  pub thread_task_list : List ℕ
  pub need_stop : Bool
  pub running_fiber_num : ℕ

abbrev pub grow_size : ℕ
grow_size = 10

abbrev pub max_grow_size : ℕ
max_grow_size = 15000

abbrev pub new_pool : FiberPool
new_pool = record {
  fiber_num = 0;
  fiber_task_list = [];
  thread_task_list = [];
  need_stop = false;
  running_fiber_num = 0;
}

-- the fibers of the pool, and the one that moves tasks between the lists
unfoldable pub init : ℕ → FiberPool → FiberPool
init pool_size p = record p { fiber_num = p.fiber_num + pool_size + 1 }

unfoldable pub stop : FiberPool → FiberPool
stop p = record p { need_stop = true }

-- from any thread
unfoldable pub schedule_task : ℕ → FiberPool → FiberPool
schedule_task task p = record p { thread_task_list = p.thread_task_list ++ task ∷ [] }

-- The size of the pool behind a task of a fiber: the first task makes the pool, and it doubles when
-- all fibers but one are running, while it is small enough.
unfoldable pub grown : ℕ → ℕ → ℕ
grown size running =
    if size == 0
    then grow_size
    else if leb (size - 1) running
    then size + (if ltb max_grow_size size then 0 else size)
    else size

unfoldable pub schedule_task_from_fiber : ℕ → FiberPool → FiberPool
unfolding grown
schedule_task_from_fiber task p = record p {
  fiber_task_list = p.fiber_task_list ++ task ∷ [];
  fiber_num = grown p.fiber_num p.running_fiber_num;
}

-- One task of tmp_list in check_task_fiber_fun: with no other fiber it gets a fiber of its own, and
-- it is queued otherwise.
unfoldable pub hand_over : ℕ → FiberPool × List ℕ → FiberPool × List ℕ
hand_over task (p, detached) =
    if p.fiber_num == 1
    then (p, detached ++ task ∷ [])
    else (record p { fiber_task_list = p.fiber_task_list ++ task ∷ [] }, detached)

-- tmp_list.swap(thread_task_list_), the start of a round of check_task_fiber_fun
unfoldable pub swap_tasks : FiberPool → FiberPool × List ℕ
swap_tasks p = (record p { thread_task_list = [] }, p.thread_task_list)

-- run_fiber up to the task: the front of the list, unless the pool stops or no task waits
unfoldable pub take_front : FiberPool → List ℕ → FiberPool × Option ℕ
take_front p [] = (p, none)
take_front p (task ∷ rest) = if p.need_stop then (p, none) else (
  record p { fiber_task_list = rest; running_fiber_num = p.running_fiber_num + 1 },
  some task,
)

unfoldable pub take_task : FiberPool → FiberPool × Option ℕ
take_task p = take_front p p.fiber_task_list

-- run_fiber behind the task
unfoldable pub finish_task : FiberPool → FiberPool
finish_task p = record p { running_fiber_num = p.running_fiber_num - 1 }
