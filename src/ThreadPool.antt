-- ===== src/ThreadPool.antt =====
-- EventLoopThreadPool.h and EventLoopThreadPool.cc: the loops of a server and their rotation. A loop
-- is any type `L`; `start_loop` is what starting the thread of a number gives back.
pub mod RoundRobin
pub mod Usable
mod Tests
use mynuduo.Base.{
  ℕ, zero, suc, ◌+◌, ◌≤◌, Bool, true, false, ◌&&◌, Option, none, some, List, [], ◌∷◌, ◌++◌, length,
  get_elem?, leb, ◌==◌, if◌then◌else◌,
}

module _ (L : Type 0) where
  pub record ThreadPool : Type 0 where
    pub base_loop : L
    pub started : Bool
    pub num_threads : ℕ
    pub next : ℕ
    pub loops : List L

  unfoldable pub new : L → ThreadPool
  new base = record { base_loop = base; started = false; num_threads = 0; next = 0; loops = [] }

  pub set_thread_num : ℕ → ThreadPool → ThreadPool
  set_thread_num n p = record p { num_threads = n }

  -- The rounds of `for (int i = 0; i < numThreads_; ++i)` from `i` on.
  start_loops : (ℕ → L) → ℕ → ℕ → List L → List L
  start_loops start_loop zero i loops = loops
  start_loops start_loop (suc n) i loops =
      start_loops start_loop n (i + 1) (loops ++ start_loop i ∷ [])

  -- Beside the pool, the loops on which `start` itself calls the callback: the new threads call it
  -- on their own loops.
  pub start : (ℕ → L) → Bool → ThreadPool → List L × ThreadPool
  unfolding start_loops
  start start_loop has_callback p = (
    if p.num_threads == 0 && has_callback then p.base_loop ∷ [] else [],
    record p { started = true; loops = start_loops start_loop p.num_threads 0 p.loops },
  )

  -- `loops_[next_]`; `none` is a read out of range.
  unfoldable pub get_next_loop : ThreadPool → Option L × ThreadPool
  get_next_loop p = elim p.loops [
    | [] ↦ (some p.base_loop, p)
    | x ∷ xs ↦ (
      get_elem? p.loops p.next,
      record p { next = if leb (length p.loops) (p.next + 1) then 0 else p.next + 1 },
    )
  ]

  pub get_all_loops : ThreadPool → List L
  get_all_loops p = elim p.loops [ [] ↦ p.base_loop ∷ [] | x ∷ xs ↦ p.loops ]
