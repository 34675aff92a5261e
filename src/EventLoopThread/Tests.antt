-- ===== src/EventLoopThread/Tests.antt =====
-- The theorems about the hand-over of the loop at concrete inputs.
use mynuduo.Base.{ℕ, ◌≡◌, refl, true, false, some, none}
use mynuduo.EventLoopThread.{
  EventLoopThread, published, ended, checking, returned, destroyed, loop_begins, sees_loop, quits,
  loop_ends, joins, Step, Reach, here, next, call_back, publish, finds_null, finds_loop,
}
use mynuduo.EventLoopThread.Handshake.{start_loop-returned, start_loop-awake}
use mynuduo.EventLoopThread.Destroy.{destroyed-ended}

-- `startLoop` has slept and been woken.
abbrev woken : EventLoopThread
woken = record {
  worker = published;
  loop = some 9;
  exiting = false;
  quitting = false;
  waiter = checking;
  initialised = true;
}

woken-Reach : Reach 9 woken
woken-Reach = next (next (next here (finds_null refl refl)) (call_back refl)) (publish refl)

start_loop-awake_example : Step 9 woken (record woken { waiter = returned 9 })
start_loop-awake_example = start_loop-awake 9 woken-Reach refl refl

-- `startLoop` has returned.
abbrev made : EventLoopThread
made = record woken { waiter = returned 9 }

made-Reach : Reach 9 made
made-Reach = next woken-Reach (finds_loop 9 refl refl)

start_loop-returned_example : ◌≡◌ {A = ℕ} 9 9 × (made.initialised ≡ true)
start_loop-returned_example = start_loop-returned 9 9 made-Reach refl

-- The loop begins, the destructor has it quit, and it ends.
abbrev over : EventLoopThread
over = record made {
  worker = ended;
  loop = none;
  exiting = true;
  quitting = true;
  waiter = destroyed;
}

over-Reach : Reach 9 over
over-Reach =
    let r1 = next made-Reach (loop_begins refl) in
    let r2 = next r1 (sees_loop 9 9 refl refl) in
    let r3 = next r2 (quits 9 refl refl) in
    let r4 = next r3 (loop_ends refl refl) in next r4 (joins refl refl)

destroyed-ended_example : (over.worker ≡ ended) × (over.loop ≡ none)
destroyed-ended_example = destroyed-ended 9 over-Reach refl
