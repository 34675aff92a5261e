-- ===== src/Channel.antt =====
-- Channel.h and Channel.cc: a descriptor with the events it waits for and its four callbacks.
-- An epoll event mask is modelled by the flags that the program names; `|=` and `&= ~` act on each.
pub mod Dispatch
use mynuduo.Base.{ℕ, Bool, true, false, not, ◌&&◌, ◌||◌, Option, none, some, if◌then◌else◌, ◌>>=◌}

pub record Mask : Type 0 where
  pub pollin : Bool
  pub pri : Bool
  pub out : Bool
  pub err : Bool
  pub hup : Bool

abbrev pub none_event : Mask
none_event = record { pollin = false; pri = false; out = false; err = false; hup = false }

-- EPOLLIN | EPOLLPRI
abbrev pub read_event : Mask
read_event = record { pollin = true; pri = true; out = false; err = false; hup = false }

-- EPOLLOUT
abbrev pub write_event : Mask
write_event = record { pollin = false; pri = false; out = true; err = false; hup = false }

abbrev pub set_flags : Mask → Mask → Mask
set_flags a b = record {
  pollin = a.pollin || b.pollin;
  pri = a.pri || b.pri;
  out = a.out || b.out;
  err = a.err || b.err;
  hup = a.hup || b.hup;
}

abbrev pub clear_flags : Mask → Mask → Mask
clear_flags a b = record {
  pollin = a.pollin && not b.pollin;
  pri = a.pri && not b.pri;
  out = a.out && not b.out;
  err = a.err && not b.err;
  hup = a.hup && not b.hup;
}

-- The mask is not 0.
abbrev pub any_flag : Mask → Bool
any_flag a = a.pollin || a.pri || a.out || a.err || a.hup

-- The values of `index_`: KNew, KAdded, KDelete.
pub data Index : Type 0 where
  fresh added deleted : Index

-- `self` is the address of the channel. `owner` is what `tie_` points to.
pub record Channel : Type 0 where
  pub self : ℕ
  pub fd : ℕ
  pub events : Mask
  pub revents : Mask
  pub index : Index
  pub owner : Option ℕ
  pub tied : Bool

unfoldable pub new : ℕ → ℕ → Channel
new self fd = record {
  self = self;
  fd = fd;
  events = none_event;
  revents = none_event;
  index = fresh;
  owner = none;
  tied = false;
}

unfoldable pub tie : ℕ → Channel → Channel
tie obj c = record c { owner = some obj; tied = true }

abbrev pub set_revents : Mask → Channel → Channel
set_revents m c = record c { revents = m }

abbrev pub set_index : Index → Channel → Channel
set_index i c = record c { index = i }

abbrev pub is_none_event : Channel → Bool
is_none_event c = not (any_flag c.events)

abbrev pub is_writing : Channel → Bool
is_writing c = c.events.out

abbrev pub is_reading : Channel → Bool
is_reading c = c.events.pollin || c.events.pri

-- What `enableReading` and its like make of `events_`, before they call `update`.
abbrev pub reading_on : Mask → Mask
reading_on m = set_flags m read_event

abbrev pub reading_off : Mask → Mask
reading_off m = clear_flags m read_event

abbrev pub writing_on : Mask → Mask
writing_on m = set_flags m write_event

abbrev pub writing_off : Mask → Mask
writing_off m = clear_flags m write_event

-- The `std::function` members; `none` is an empty one. A callback acts on the program's state `S`
-- and may end the process.
pub record Callbacks (S : Type 0) : Type 0 where
  pub on_read : Option (S → Option S)
  pub on_write : Option (S → Option S)
  pub on_close : Option (S → Option S)
  pub on_error : Option (S → Option S)

module _ {S : Type 0} where
  -- `if (test) { if (callback) callback(); }`
  abbrev pub fire : Bool → Option (S → Option S) → S → Option S
  fire true (some f) s = f s
  fire true none s = some s
  fire false callback s = some s

  unfoldable pub handle_event_with_guard : Mask → Callbacks S → S → Option S
  handle_event_with_guard revents cb s = do
    s1 ← fire (revents.hup && not revents.pollin) cb.on_close s
    s2 ← fire revents.err cb.on_error s1
    s3 ← fire revents.pollin cb.on_read s2
    fire revents.out cb.on_write s3

  -- `alive` says which objects `tie_.lock()` still finds.
  unfoldable pub handle_event : (ℕ → Bool) → Channel → Callbacks S → S → Option S
  unfolding handle_event_with_guard
  handle_event alive c cb s =
      if c.tied
      then elim c.owner [
        | none ↦ some s
        | some obj ↦ if alive obj then handle_event_with_guard c.revents cb s else some s
      ]
      else handle_event_with_guard c.revents cb s
