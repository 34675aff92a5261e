-- ===== src/EventLoopThread.antt =====
-- EventLoopThread.h and EventLoopThread.cc: how `startLoop` gets the loop that the new thread makes,
-- and how the destructor ends that thread, as a step relation of the two threads. What stands under
-- `mutex_` is one step; `cond_.wait` gives the mutex up and sleeps in the same step as its test, and
-- may wake for no reason. The loop is known by its address. The destructor runs after `startLoop` has
-- returned; it reads `loop_` for its test and again for its call of `quit`, without the mutex.
pub mod Handshake
pub mod Destroy
mod Tests
use mynuduo.Base.{ℕ, ◌≡◌, Bool, true, false, Option, none, some}

-- `threadFunc`: before the callback, after it, with `loop_` set, in the rounds of `loop.loop()`, and at
-- its end.
pub data Worker : Type 0 where
  starting ready published running ended : Worker

-- `startLoop`: about to test `loop_`, in `cond_.wait`, or returned; then the destructor: past its test,
-- in `thread_.join()`, over, or ended by a call on a null pointer.
pub data Waiter : Type 0 where
  checking sleeping : Waiter
  returned : ℕ → Waiter
  quitting_loop joining destroyed crashed : Waiter

abbrev pub notify_one : Waiter → Waiter
notify_one sleeping = checking
notify_one w = w

-- `initialised` says whether the call of `callback_`, if there is one, is over, and `quitting` is the
-- loop's `quit_`.
pub record EventLoopThread : Type 0 where
  pub worker : Worker
  pub loop : Option ℕ
  pub exiting : Bool
  pub quitting : Bool
  pub waiter : Waiter
  pub initialised : Bool

abbrev pub new : EventLoopThread
new = record {
  worker = starting;
  loop = none;
  exiting = false;
  quitting = false;
  waiter = checking;
  initialised = false;
}

-- One step of a thread; `a` is the address of the loop that `threadFunc` makes.
pub data Step (a : ℕ) (s : EventLoopThread) : EventLoopThread → Type 0 where
  call_back : s.worker ≡ starting → Step a s (record s { worker = ready; initialised = true })
  publish :
      s.worker ≡ ready
      → Step a s (record s { worker = published; loop = some a; waiter = notify_one s.waiter })
  loop_begins : s.worker ≡ published → Step a s (record s { worker = running; quitting = false })
  -- Anyone else calls `quit` of the loop.
  user_quits : (l : ℕ) → s.loop ≡ some l → Step a s (record s { quitting = true })
  loop_ends :
      s.worker ≡ running → s.quitting ≡ true → Step a s (record s { worker = ended; loop = none })
  finds_null : s.waiter ≡ checking → s.loop ≡ none → Step a s (record s { waiter = sleeping })
  finds_loop :
      (l : ℕ) → s.waiter ≡ checking → s.loop ≡ some l → Step a s (record s { waiter = returned l })
  wakes_up : s.waiter ≡ sleeping → Step a s (record s { waiter = checking })
  destroys_ended :
      (l : ℕ)
      → s.waiter ≡ returned l
      → s.loop ≡ none
      → Step a s (record s { waiter = destroyed; exiting = true })
  sees_loop :
      (l m : ℕ)
      → s.waiter ≡ returned l
      → s.loop ≡ some m
      → Step a s (record s { waiter = quitting_loop; exiting = true })
  quits :
      (m : ℕ)
      → s.waiter ≡ quitting_loop
      → s.loop ≡ some m
      → Step a s (record s { waiter = joining; quitting = true })
  quits_null : s.waiter ≡ quitting_loop → s.loop ≡ none → Step a s (record s { waiter = crashed })
  joins : s.waiter ≡ joining → s.worker ≡ ended → Step a s (record s { waiter = destroyed })

pub data Reach (a : ℕ) : EventLoopThread → Type 0 where
  here : Reach a new
  next : {s t : EventLoopThread} → Reach a s → Step a s t → Reach a t
