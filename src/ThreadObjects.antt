-- ===== src/ThreadObjects.antt =====
-- source/core/common/MultiThreadObjMgr.hpp: an object for each thread, in buckets. An object is its
-- number; threads take the lock of a bucket, so that their calls come one after another. The hash of
-- izenelib over the text of a thread id is a parameter.
pub mod Own
use fiberproxy.Prelude.{
  ℕ, suc, ◌+◌, ◌*◌, ◌%◌, ◌^◌, Bool, List, [], ◌∷◌, ◌++◌, Option, none, some, if◌then◌else◌, ◌==◌,
  ltb, leb, ◌&&◌, length, get_or, set, replicate, lookup, nat_key,
}

abbrev pub prime_list : List ℕ
prime_list =
    53 ∷ 97 ∷ 193 ∷ 389 ∷ 769 ∷ 1543 ∷ 3079 ∷ 6151 ∷ 12289 ∷ 24593 ∷ 49157 ∷ 98317 ∷ 196613 ∷ 393241
    ∷ 786433 ∷ 1572869 ∷ 3145739 ∷ 6291469 ∷ 12582917 ∷ 25165843 ∷ 50331653 ∷ 100663319 ∷ 201326611
    ∷ 402653189 ∷ 805306457 ∷ 1610612741 ∷ 3221225473 ∷ 4294967291 ∷ []

-- std::lower_bound, and the last one where there is none
unfoldable pub lower_bound_or_last : List ℕ → ℕ → ℕ
lower_bound_or_last [] n = n
lower_bound_or_last (p ∷ []) n = p
lower_bound_or_last (p ∷ q ∷ ps) n =
    let rest = lower_bound_or_last (q ∷ ps) n in if leb n p then p else rest

-- The argument is an int64_t, given as its pattern.
unfoldable pub cal_next_prime : ℕ → ℕ
cal_next_prime n = if ltb 0 n && ltb n (2 ^ 63) then lower_bound_or_last prime_list n else n

pub record ThreadObjects : Type 0 where
  pub obj_list : List (List (ℕ × ℕ))
  -- the number of the next object
  pub next : ℕ

abbrev pub new_objects : ThreadObjects
new_objects = record { obj_list = []; next = 0 }

unfoldable pub init : ℕ → ThreadObjects → ThreadObjects
init num s = record s { obj_list = replicate (cal_next_prime (num * 2 % 2 ^ 64)) [] }

unfoldable pub clear : ThreadObjects → ThreadObjects
clear s = record s { obj_list = [] }

module _ (hash : ℕ → ℕ) where
  abbrev pub bucket_index : ℕ → ℕ → ℕ
  bucket_index thread total = hash thread % total

  abbrev pub bucket : ℕ → ThreadObjects → List (ℕ × ℕ)
  bucket i s = get_or s.obj_list i []

  -- the end of the search in the bucket
  abbrev pub found_or_new : ℕ → ℕ → Option ℕ → ThreadObjects → ℕ × ThreadObjects
  found_or_new thread i (some o) s = (o, s)
  found_or_new thread i none s = (
    s.next,
    record {
      obj_list = set s.obj_list i (bucket i s ++ ((thread, s.next) ∷ []));
      next = s.next + 1;
    },
  )

  unfoldable pub in_bucket : ℕ → ℕ → ThreadObjects → ℕ × ThreadObjects
  in_bucket thread i s = found_or_new thread i (lookup thread (bucket i s)) s

  -- getThreadObj; `none` is the division by the number of buckets before init
  unfoldable pub get_thread_obj : ℕ → ThreadObjects → Option (ℕ × ThreadObjects)
  get_thread_obj thread s =
      let total = length s.obj_list in
      if total == 0 then none else some (in_bucket thread (bucket_index thread total) s)

  abbrev pub then_get :
      Option (ℕ × ThreadObjects) → (ThreadObjects → Option ThreadObjects) → Option ThreadObjects
  then_get none k = none
  then_get (some (o, s)) k = k s

  -- calls of threads, one after another
  unfoldable pub get_all : List ℕ → ThreadObjects → Option ThreadObjects
  get_all [] s = some s
  get_all (thread ∷ threads) s = then_get (get_thread_obj thread s) (get_all threads)
