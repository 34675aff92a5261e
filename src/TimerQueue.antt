-- ===== src/TimerQueue.antt =====
-- Timestamp.h, Timer.h, Timer.cc, TimerId.h, TimerQueue.h and TimerQueue.cc: the timers of a loop.
-- A timestamp is its `microSecondsSinceEpoch_`, a number; delays are not negative. The `double` of an
-- interval is the parameter `Seconds`. The address that `new` gives is an argument.
pub mod Order
pub mod Store
pub mod Running
pub mod Steps
pub mod Expire
pub mod Armed
pub mod Round
pub mod Restart
pub mod Delay
pub mod Life
pub mod RunAt
mod Tests
use mynuduo.Base.{
  ℕ, ◌+◌, ◌-◌, ◌*◌, ◌/◌, ◌%◌, Bool, true, false, not, ◌&&◌, ◌||◌, Option, none, some, List, [], ◌∷◌,
  ltb, ◌==◌, if◌then◌else◌,
}
use mynuduo.EventLoop.{EventLoop, queue_in_loop}

-- `double` seconds: `> 0.0`, and the cast of the product with a million to `int64_t`.
pub record Seconds : Type 1 where
  pub Double : Type 0
  pub is_positive : Double → Bool
  pub micros : Double → ℕ

abbrev pub micros_per_second : ℕ
micros_per_second = 1000000

-- `Timestamp::invalid()`
abbrev pub invalid : ℕ
invalid = 0

abbrev pub is_valid_time : ℕ → Bool
is_valid_time t = ltb 0 t

pub add_time : (s : Seconds) → ℕ → s.Double → ℕ
add_time s t seconds = t + s.micros seconds

-- `when - now`, at least 100 microseconds, as seconds and nanoseconds.
pub how_much_time_from_now : ℕ → ℕ → ℕ × ℕ
how_much_time_from_now now when =
    let d = when - now in
    let micros = if ltb d 100 then 100 else d in
    (micros / micros_per_second, micros % micros_per_second * 1000)

-- `TimerList`'s elements: `pair<Timestamp, Timer*>` with the order of pairs.
pub record Entry : Type 0 where
  pub when : ℕ
  pub addr : ℕ

abbrev pub entry_lt : Entry → Entry → Bool
entry_lt a b = ltb a.when b.when || (not (ltb b.when a.when) && ltb a.addr b.addr)

-- `std::set::insert` and `erase` on the sequence of the elements in order.
pub insert_entry : Entry → List Entry → List Entry
insert_entry e [] = e ∷ []
insert_entry e (x ∷ xs) =
    let rest = x ∷ insert_entry e xs in
    if entry_lt e x then e ∷ x ∷ xs else if entry_lt x e then rest else x ∷ xs

abbrev pub same_entry : Entry → Entry → Bool
same_entry a b = a.when == b.when && a.addr == b.addr

pub erase_entry : Entry → List Entry → List Entry
erase_entry e [] = []
erase_entry e (x ∷ xs) = let rest = erase_entry e xs in if same_entry x e then xs else x ∷ rest

-- `lower_bound(sentry)`: what stands before it, and the rest.
pub split_before : Entry → List Entry → List Entry × List Entry
split_before s [] = ([], [])
split_before s (x ∷ xs) =
    let (before, rest) = split_before s xs in
    if entry_lt x s then (x ∷ before, rest) else ([], x ∷ xs)

-- UINTPTR_MAX
abbrev pub addr_max : ℕ
addr_max = 18446744073709551615

abbrev pub sentry : ℕ → Entry
sentry now = record { when = now; addr = addr_max }

-- `ActiveTimer` and `TimerId`: an address and a sequence number.
pub record TimerId : Type 0 where
  pub addr : ℕ
  pub sequence : ℕ

-- The functors that another thread hands to the loop.
pub data Task : Type 0 where
  add_task : ℕ → Task
  cancel_task : TimerId → Task

abbrev pub same_id : TimerId → TimerId → Bool
same_id a b = a.addr == b.addr && a.sequence == b.sequence

pub has_id : TimerId → List TimerId → Bool
has_id i [] = false
has_id i (x ∷ xs) = same_id x i || has_id i xs

-- `std::set<ActiveTimer>`: its order is never used.
pub insert_id : TimerId → List TimerId → List TimerId
unfolding has_id
insert_id i xs = if has_id i xs then xs else i ∷ xs

pub erase_id : TimerId → List TimerId → List TimerId
erase_id i [] = []
erase_id i (x ∷ xs) = let rest = erase_id i xs in if same_id x i then rest else x ∷ rest

-- Whether `timer` becomes the first to expire.
abbrev pub is_earliest : ℕ → List Entry → Bool
is_earliest when [] = true
is_earliest when (x ∷ xs) = ltb when x.when

pub remove_addr : ℕ → List ℕ → List ℕ
remove_addr a [] = []
remove_addr a (x ∷ xs) = let rest = remove_addr a xs in if x == a then rest else x ∷ rest

-- What `timerfd_settime` was told, and when.
pub record Alarm : Type 0 where
  pub at : ℕ
  pub seconds : ℕ
  pub nanoseconds : ℕ

module _ (s : Seconds) where
  -- A `Timer`; its callback is known by its address.
  pub record Timer : Type 0 where
    pub expiration : ℕ
    pub interval : s.Double
    pub repeat : Bool
    pub sequence : ℕ

  -- `memory` is what stands at an address, `live` the addresses of timers not deleted, `created`
  -- the count `s_numCreated_`, and `armed` what the timerfd is set to, if it has not fired.
  pub record TimerQueue : Type 0 where
    pub memory : ℕ → Timer
    pub live : List ℕ
    pub timers : List Entry
    pub active : List TimerId
    pub calling : Bool
    pub canceling : List TimerId
    pub created : ℕ
    pub armed : Option Alarm

  abbrev pub update : (ℕ → Timer) → ℕ → Timer → ℕ → Timer
  update m a t j = if a == j then t else m j

  pub restart : ℕ → Timer → Timer
  unfolding add_time
  restart now t = record t { expiration = if t.repeat then add_time s now t.interval else invalid }

  abbrev pub id_of : TimerQueue → ℕ → TimerId
  id_of q a = record { addr = a; sequence = (q.memory a).sequence }

  pub insert : ℕ → TimerQueue → Bool × TimerQueue
  unfolding insert_entry insert_id
  insert a q =
      let when = (q.memory a).expiration in
      (
        is_earliest when q.timers,
        record q {
          timers = insert_entry (record { when = when; addr = a }) q.timers;
          active = insert_id (id_of q a) q.active;
        },
      )

  pub delete : ℕ → TimerQueue → TimerQueue
  unfolding remove_addr
  delete a q = record q { live = remove_addr a q.live }

  -- `resetTimerfd` at the time `clock`.
  pub arm : ℕ → ℕ → TimerQueue → TimerQueue
  unfolding how_much_time_from_now
  arm clock when q =
      let (seconds, nanoseconds) = how_much_time_from_now clock when in
      record q {
        armed = some (record { at = clock; seconds = seconds; nanoseconds = nanoseconds });
      }

  -- `clock` is what `Timestamp::now()` gives in `resetTimerfd`.
  pub add_timer_in_loop : ℕ → ℕ → TimerQueue → TimerQueue
  unfolding insert arm
  add_timer_in_loop clock a q =
      let (earliest_changed, q') = insert a q in
      if earliest_changed then arm clock (q'.memory a).expiration q' else q'

  -- `new Timer` at the address `a`.
  pub new_timer : ℕ → ℕ → s.Double → TimerQueue → TimerQueue
  new_timer a when interval q =
      let timer : Timer = record {
        expiration = when;
        interval = interval;
        repeat = s.is_positive interval;
        sequence = q.created + 1;
      } in
      record q { memory = update q.memory a timer; live = a ∷ q.live; created = q.created + 1 }

  -- `addTimer` on the loop's thread.
  pub add_timer : ℕ → ℕ → ℕ → s.Double → TimerQueue → TimerId × TimerQueue
  unfolding new_timer add_timer_in_loop
  add_timer clock a when interval q =
      let q' = new_timer a when interval q in (id_of q' a, add_timer_in_loop clock a q')

  pub cancel_in_loop : TimerId → TimerQueue → TimerQueue
  unfolding erase_entry erase_id insert_id has_id delete
  cancel_in_loop i q =
      if has_id i q.active
      then delete i.addr (record q {
        timers =
            erase_entry (record { when = (q.memory i.addr).expiration; addr = i.addr }) q.timers;
        active = erase_id i q.active;
      })
      else if q.calling
      then record q { canceling = insert_id i q.canceling }
      else q

  pub erase_expired : List Entry → TimerQueue → TimerQueue
  unfolding erase_id
  erase_expired [] q = q
  erase_expired (e ∷ es) q =
      erase_expired es (record q { active = erase_id (id_of q e.addr) q.active })

  pub get_expired : ℕ → TimerQueue → List Entry × TimerQueue
  unfolding split_before erase_expired
  get_expired now q =
      let (expired, rest) = split_before (sentry now) q.timers in
      (expired, erase_expired expired (record q { timers = rest }))

  pub reset_one : ℕ → Entry → TimerQueue → TimerQueue
  unfolding restart insert delete has_id
  reset_one now e q =
      if (q.memory e.addr).repeat && not (has_id (id_of q e.addr) q.canceling)
      then (insert e.addr
          (record q { memory = update q.memory e.addr (restart now (q.memory e.addr)) })).1
      else delete e.addr q

  pub reset_all : ℕ → List Entry → TimerQueue → TimerQueue
  unfolding reset_one
  reset_all now [] q = q
  reset_all now (e ∷ es) q = reset_all now es (reset_one now e q)

  pub next_expire : TimerQueue → ℕ
  next_expire q = elim q.timers [ [] ↦ invalid | e ∷ es ↦ (q.memory e.addr).expiration ]

  -- `clock` is the time when `resetTimerfd` is called.
  pub reset : List Entry → ℕ → ℕ → TimerQueue → TimerQueue
  unfolding reset_all next_expire arm
  reset expired now clock q =
      let q' = reset_all now expired q in
      if is_valid_time (next_expire q') then arm clock (next_expire q') q' else q'

  -- The callbacks, in order; each may call `addTimer` and `cancel`.
  pub run_all : (ℕ → TimerQueue → TimerQueue) → List Entry → TimerQueue → TimerQueue
  run_all callback [] q = q
  run_all callback (e ∷ es) q = run_all callback es (callback e.addr q)

  -- `readTimerfd`: the timerfd has fired, and is not set any more.
  pub read_timerfd : TimerQueue → TimerQueue
  read_timerfd q = record q { armed = none }

  -- `Timestamp::now()` is the argument `now`, and `clock` when the timerfd is set again.
  pub handle_read : ℕ → ℕ → (ℕ → TimerQueue → TimerQueue) → TimerQueue → TimerQueue
  unfolding get_expired run_all reset read_timerfd
  handle_read now clock callback q =
      let (expired, q1) = get_expired now (read_timerfd q) in
      let q2 = run_all callback expired (record q1 { calling = true; canceling = [] }) in
      reset expired now clock (record q2 { calling = false })

  -- A queue on its own loop; `memory` is what stands in memory before.
  abbrev pub new : (ℕ → Timer) → TimerQueue
  new memory = record {
    memory = memory;
    live = [];
    timers = [];
    active = [];
    calling = false;
    canceling = [];
    created = 0;
    armed = none;
  }

  delete_all : List Entry → TimerQueue → TimerQueue
  unfolding delete
  delete_all [] q = q
  delete_all (e ∷ es) q = delete_all es (delete e.addr q)

  -- The destructor deletes the timers of `timers_`.
  pub destruct : TimerQueue → TimerQueue
  unfolding delete_all
  destruct q = delete_all q.timers q

  -- `addTimer` from another thread: the timer is made there, and the loop is to add it.
  pub add_timer_elsewhere :
      ℕ → ℕ → s.Double → EventLoop Task → TimerQueue → TimerId × EventLoop Task × TimerQueue
  unfolding new_timer
  add_timer_elsewhere a when interval l q =
      let q' = new_timer a when interval q in (id_of q' a, queue_in_loop false (add_task a) l, q')

  -- `cancel` from another thread.
  pub cancel_elsewhere : TimerId → EventLoop Task → EventLoop Task
  cancel_elsewhere i l = queue_in_loop false (cancel_task i) l

  -- What the loop does when it calls such a functor.
  pub run_task : ℕ → Task → TimerQueue → TimerQueue
  unfolding add_timer_in_loop cancel_in_loop
  run_task clock (add_task a) q = add_timer_in_loop clock a q
  run_task clock (cancel_task i) q = cancel_in_loop i q
