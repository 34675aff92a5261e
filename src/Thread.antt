-- ===== src/Thread.antt =====
-- Thread.h, Thread.cc, CurrentThread.h and CurrentThread.cc: how `start` waits for the thread id,
-- `join` and the destructor, as a step relation of the owner and the new thread. The name takes no part
-- in it; `set_default_name` is the end of the constructor.
-- The semaphore of `start` is a count. What `std::thread` is of it: whether it is joinable.
pub mod Known
use mynuduo.Base.{
  ℕ, zero, suc, ◌+◌, ◌≡◌, Bool, true, false, not, ◌&&◌, List, [], ◌∷◌, ◌++◌, ◌==◌, take,
  if◌then◌else◌,
}
use mynuduo.TcpServer.{Printf}

-- `CurrentThread::tid`: `cached` is `t_cachedTid`, and `gettid` what the kernel answers.
pub tid : ℕ → ℕ → ℕ
tid gettid cached = if cached == 0 then gettid else cached

-- `setDefaultName`: the name and the new `numCreated_`; the characters are those of `Thread`.
pub set_default_name : Printf → List ℕ → ℕ → List ℕ × ℕ
set_default_name f [] created =
    (take 31 (84 ∷ 104 ∷ 114 ∷ 101 ∷ 97 ∷ 100 ∷ f.digits (created + 1)), created + 1)
set_default_name f (c ∷ name) created = (c ∷ name, created + 1)

-- The new thread: not there, before its first statement, with `tid_` set, past `sem_post`, in `func_`,
-- and at its end.
pub data Child : Type 0 where
  unborn born identified posted calling ended : Child

-- The owner: before `start`, in `sem_wait`, past `start`, in `thread_->join()`, past it, past the
-- destructor, or ended by a destructor of `std::thread` that finds it joinable.
pub data Owner : Type 0 where
  fresh waiting up joining done destroyed terminated : Owner

-- No call of the object is in progress.
abbrev pub is_idle : Owner → Bool
is_idle fresh = true
is_idle up = true
is_idle done = true
is_idle _ = false

pub record Thread : Type 0 where
  pub started : Bool
  pub joined : Bool
  pub tid : ℕ
  pub joinable : Bool
  pub sem : ℕ
  pub owner : Owner
  pub child : Child

abbrev pub new : Thread
new = record {
  started = false;
  joined = false;
  tid = 0;
  joinable = false;
  sem = 0;
  owner = fresh;
  child = unborn;
}

-- The destructor, and then that of `thread_`.
pub destruct : Thread → Thread
destruct t =
    let t1 = if t.started && not t.joined then record t { joinable = false } else t in
    record t1 { owner = if t1.joinable then terminated else destroyed }

-- One step of the owner or of the new thread, which the kernel calls `gettid`.
pub data Step (gettid : ℕ) (t : Thread) : Thread → Type 0 where
  starts :
      t.owner ≡ fresh
      → Step gettid t
          (record t { started = true; joinable = true; sem = 0; owner = waiting; child = born })
  identifies : t.child ≡ born → Step gettid t (record t { tid = tid gettid 0; child = identified })
  posts : t.child ≡ identified → Step gettid t (record t { sem = suc t.sem; child = posted })
  calls : t.child ≡ posted → Step gettid t (record t { child = calling })
  ends : t.child ≡ calling → Step gettid t (record t { child = ended })
  wakes :
      (n : ℕ) → t.owner ≡ waiting → t.sem ≡ suc n → Step gettid t (record t { sem = n; owner = up })
  begins_join : t.owner ≡ up → Step gettid t (record t { joined = true; owner = joining })
  ends_join :
      t.owner ≡ joining
      → t.child ≡ ended
      → Step gettid t (record t { joinable = false; owner = done })
  destroys : is_idle t.owner ≡ true → Step gettid t (destruct t)

pub data Reach (gettid : ℕ) : Thread → Type 0 where
  here : Reach gettid new
  next : {s t : Thread} → Reach gettid s → Step gettid s t → Reach gettid t
