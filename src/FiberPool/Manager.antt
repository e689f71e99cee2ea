-- ===== src/FiberPool/Manager.antt =====
-- FiberPoolMgr of source/core/fiber-server/FiberPool.hpp: the pools of the threads, in the order in
-- which the map is walked, and the pool that a thread gets.
use native.Mathlib.Nat.{mod-eq_of_lt}
use fiberproxy.Prelude.{
  ℕ, ◌-◌, ◌%◌, List, [], ◌∷◌, Option, none, some, if◌then◌else◌, ◌==◌, leb, lookup, nat_key, length,
  ◌≡◌, arith,
}

-- The static index, which nothing changes.
abbrev pub static_index : ℕ
static_index = 0

module _ {P : Type 0} where
  -- The walk: --round comes to 0 or below at the first step when round is 1 or below.
  unfoldable pub walk : ℕ → List (ℕ × P) → Option P
  walk round [] = none
  walk round ((thread, pool) ∷ pools) =
      let rest = walk (round - 1) pools in if leb round 1 then some pool else rest

  abbrev pub or_begin : Option P → List (ℕ × P) → Option P
  or_begin (some pool) pools = some pool
  or_begin none [] = none
  or_begin none ((thread, pool) ∷ pools) = some pool

  abbrev pub own_or_walk : Option P → List (ℕ × P) → Option P
  own_or_walk (some pool) pools = some pool
  own_or_walk none pools =
      if length pools == 0 then none else or_begin (walk (static_index % length pools) pools) pools

  -- getFiberPool; `none` is a division by the number of the pools when there is none
  unfoldable pub get_fiber_pool : ℕ → List (ℕ × P) → Option P
  get_fiber_pool thread pools = own_or_walk (lookup thread pools) pools

  -- A thread without a pool of its own gets the first, whichever thread it is.
  get_fiber_pool-first :
      (thread owner : ℕ) (pool : P) (pools : List (ℕ × P))
      → lookup thread ((owner, pool) ∷ pools) ≡ none
      → get_fiber_pool thread ((owner, pool) ∷ pools) ≡ some pool
  unfolding get_fiber_pool walk
  get_fiber_pool-first thread owner pool pools h =
      let round : static_index % length ((owner, pool) ∷ pools) ≡ 0 = mod-eq_of_lt (omega arith) in
      rw h (ground (arith, round))
