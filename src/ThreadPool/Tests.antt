-- ===== src/ThreadPool/Tests.antt =====
-- The theorems about the pool at concrete inputs.
use mynuduo.Base.{ℕ, ◌<◌, ◌≡◌, true, some, [], ◌∷◌, arith}
use mynuduo.ThreadPool.{ThreadPool, get_next_loop}
use mynuduo.ThreadPool.RoundRobin.{calls, get_next_loop-round_robin}

abbrev three_loops : ThreadPool ℕ
three_loops = record {
  base_loop = 7;
  started = true;
  num_threads = 3;
  next = 2;
  loops = 10 ∷ 20 ∷ 30 ∷ [];
}

get_next_loop-round_robin_example :
    ((get_next_loop ℕ (calls ℕ 2 three_loops)).0 ≡ some 20) × ((calls ℕ 2 three_loops).next < 3)
get_next_loop-round_robin_example = get_next_loop-round_robin ℕ 2 three_loops (omega arith)
