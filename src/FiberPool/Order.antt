-- ===== src/FiberPool/Order.antt =====
-- Tasks are started in the order in which they come, and the pool stays bounded.
use fiberproxy.Prelude.{
  ℕ, ◌+◌, ◌≤◌, false, List, [], ◌∷◌, ◌++◌, none, some, ◌≡◌, refl, sym, ap, ◌∙◌, subst, arith,
  if◌then◌else◌, ◌==◌, Bool-cases, inl, inr, append_assoc,
}
use fiberproxy.FiberPool.{
  FiberPool, new_pool, schedule_task_from_fiber, grown, take_front, take_task, finish_task,
  hand_over,
}

-- What the fibers of a thread do with the list of tasks; `came` are the tasks that have come to it
-- and `started` those that a fiber has taken, both in order.
pub data Step (p : FiberPool) (came started : List ℕ) : FiberPool → List ℕ → List ℕ → Type 0 where
  schedule :
      (task : ℕ) {q : FiberPool} {now : List ℕ}
      → q ≡ schedule_task_from_fiber task p
      → now ≡ came ++ task ∷ []
      → Step p came started q now started
  hand :
      (task : ℕ) {q : FiberPool} {now : List ℕ}
      → (p.fiber_num == 1) ≡ false
      → q ≡ (hand_over task (p, [])).0
      → now ≡ came ++ task ∷ []
      → Step p came started q now started
  take :
      (task : ℕ) {q : FiberPool} {done : List ℕ}
      → take_task p ≡ (q, some task)
      → done ≡ started ++ task ∷ []
      → Step p came started q came done
  finish : {q : FiberPool} → q ≡ finish_task p → Step p came started q came started

pub data Reach (p : FiberPool) (came started : List ℕ) : FiberPool → List ℕ → List ℕ → Type 0 where
  here : Reach p came started p came started
  next :
      {q r : FiberPool} {now later done after : List ℕ}
      → Reach p came started q now done
      → Step q now done r later after
      → Reach p came started r later after

-- The tasks that came are those that were started and, behind them, those that wait; the pool has
-- not grown above twice the size up to which it doubles.
pub record Inv (p : FiberPool) (came started : List ℕ) : Type 0 where
  pub order : came ≡ started ++ p.fiber_task_list
  pub bounded : p.fiber_num ≤ 30000

grown-le : (size running : ℕ) → size ≤ 30000 → grown size running ≤ 30000
unfolding grown
grown-le size running h = ground arith

pushed :
    (came started waiting : List ℕ) (task : ℕ)
    → came ≡ started ++ waiting
    → came ++ task ∷ [] ≡ started ++ (waiting ++ task ∷ [])
pushed came started waiting task e =
    ap (λ l. l ++ task ∷ []) e ∙ append_assoc started waiting (task ∷ [])

take_front-Inv :
    (p q : FiberPool) (came started : List ℕ) (task : ℕ) (waiting : List ℕ)
    → p.fiber_task_list ≡ waiting
    → take_front p waiting ≡ (q, some task)
    → Inv p came started
    → Inv q came (started ++ task ∷ [])
unfolding take_front
take_front-Inv p q came started task [] e t v =
    absurd (let n : none ≡ some task = ap (λ r. r.1) t in cc)
take_front-Inv p q came started task (x ∷ rest) e t v = elim (Bool-cases p.need_stop) [
  | inl stopped ↦
      let s : (p, none) ≡ (q, some task) =
        ap (λ b. if b then (p, none) else (taken, some x)) (sym stopped) ∙ t in
      absurd (let n : none ≡ some task = ap (λ r. r.1) s in cc)
  | inr runs ↦
      let s : (taken, some x) ≡ (q, some task) =
        ap (λ b. if b then (p, none) else (taken, some x)) (sym runs) ∙ t in
      subst (λ r. Inv r came (started ++ task ∷ [])) (ap (λ r. r.0) s)
        (record {
          order =
              v.order
              ∙ ap (λ l. started ++ l) e
              ∙ sym (append_assoc started (x ∷ []) rest)
              ∙ ap (λ y. started ++ (y ∷ []) ++ rest) (same (ap (λ r. r.1) s));
          bounded = v.bounded;
        })
]
  where
    taken : FiberPool
    taken = record p { fiber_task_list = rest; running_fiber_num = p.running_fiber_num + 1 }

    same : some x ≡ some task → x ≡ task
    same s = ground arith

Step-Inv :
    {p : FiberPool} {came started : List ℕ} {q : FiberPool} {now done : List ℕ}
    → Step p came started q now done
    → Inv p came started
    → Inv q now done
unfolding schedule_task_from_fiber hand_over finish_task take_task
Step-Inv {p = p} {came = came} {started = started} (schedule task e f) v =
    rw (e, f)
      (record {
        order = pushed came started p.fiber_task_list task v.order;
        bounded = grown-le p.fiber_num p.running_fiber_num v.bounded;
      })
Step-Inv {p = p} {came = came} {started = started} (hand task more e f) v =
    rw (e, f)
      (rw more (record {
        order = pushed came started p.fiber_task_list task v.order;
        bounded = v.bounded;
      }))
Step-Inv {p = p} {came = came} {started = started} {q = q} (take task e f) v =
    rw f (take_front-Inv p q came started task p.fiber_task_list refl e v)
Step-Inv (finish e) v = rw e (record { order = v.order; bounded = v.bounded })

Reach-Inv :
    {p : FiberPool} {came started : List ℕ} {q : FiberPool} {now done : List ℕ}
    → Inv p came started
    → Reach p came started q now done
    → Inv q now done
Reach-Inv v here = v
Reach-Inv v (next r s) = Step-Inv s (Reach-Inv v r)

-- Whatever the fibers of a new pool do: the tasks that have come to its list are those that were
-- started, in the order in which they came, and behind them those that wait; and a pool that only
-- its tasks make grow never has more than 30000 fibers.
pub Reach-order :
    {q : FiberPool} {now done : List ℕ}
    → Reach new_pool [] [] q now done
    → (now ≡ done ++ q.fiber_task_list) × (q.fiber_num ≤ 30000)
Reach-order r =
    let v = Reach-Inv (record { order = refl; bounded = omega arith }) r in (v.order, v.bounded)
