-- ===== src/Buffer/Tests.antt =====
-- The theorems about the buffer at concrete inputs.
use mynuduo.Base.{◌≡◌, refl, List, [], ◌∷◌, arith}
use mynuduo.Buffer.{Buffer, IsValid, append, received, retrieve, reteieve_as_string, readable_bytes}
use mynuduo.Buffer.Append.{extra-read_limit}
use mynuduo.Buffer.Run.{
  Op, reads, takes, skips, asks, takes_all, clears, run, run_queue, AllFit, run-run_queue,
}

-- Two bytes, 5 and 6, unread in a small vector that is full.
abbrev sample : Buffer
sample = record { bytes = 0 ∷ 0 ∷ 0 ∷ 0 ∷ 0 ∷ 0 ∷ 0 ∷ 0 ∷ 4 ∷ 5 ∷ 6 ∷ []; reader = 9; writer = 11 }

sample-IsValid : IsValid sample
sample-IsValid = omega arith

-- One byte fits by moving the others down.
append_moves : (append sample (7 ∷ [])).reader ≡ 8
unfolding append
append_moves = refl

-- One byte is taken, three come by `readFd`, of which one has no place in the vector, and one is skipped.
abbrev some_calls : List Op
some_calls = takes 1 ∷ reads (received (1 ∷ 2 ∷ 3 ∷ [])) ∷ skips 1 ∷ asks ∷ takes_all ∷ clears ∷ []

some_calls-AllFit : AllFit some_calls sample
unfolding retrieve reteieve_as_string readable_bytes
some_calls-AllFit = (
  omega arith,
  ((omega (arith, extra-read_limit (retrieve sample 1)), omega arith), (tt, (tt, (tt, (tt, tt))))),
)

run-run_queue_example : run sample some_calls ≡ run_queue (5 ∷ 6 ∷ []) some_calls
run-run_queue_example = run-run_queue some_calls sample-IsValid some_calls-AllFit
