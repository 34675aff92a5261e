-- ===== src/Poller/Tests.antt =====
-- The theorems about the poller at concrete inputs.
use mynuduo.Base.{ℕ, ◌≡◌, refl, List, [], ◌∷◌, false, none, some, if◌then◌else◌, ◌==◌}
use mynuduo.Channel.{Channel, read_event, set_index, fresh, added, none_event}
use mynuduo.Poller.{Poller, change_events, remove_channel, Watch}
use mynuduo.Poller.Table.{table}
use mynuduo.Poller.Sync.{IsSynced, Changed, changed, change_events-Changed, remove_channel-Changed}
use mynuduo.Poller.Poll.{fill_active_channels, fill_active_channels_lem, with_revents, reported}

abbrev empty_poller : Poller table
empty_poller = record { epoll = λ j. none; channels = []; capacity = 1 }

-- The channel object at address 100 for descriptor 5.
abbrev channel5 : Channel
channel5 = record {
  self = 100;
  fd = 5;
  events = none_event;
  revents = none_event;
  index = fresh;
  owner = none;
  tied = false;
}

channel5-IsSynced : IsSynced table empty_poller channel5
channel5-IsSynced = record { in_kernel = refl; in_map = refl }

change_events-Changed_example :
    Changed table empty_poller 5
      (changed read_event channel5)
      (change_events table read_event channel5 empty_poller)
change_events-Changed_example = change_events-Changed table read_event channel5-IsSynced

abbrev added_poller : Poller table
added_poller = record {
  epoll = λ j. if 5 == j then some (record { mask = read_event; ptr = 100 }) else none;
  channels = (5, 100) ∷ [];
  capacity = 1;
}

abbrev reading5 : Channel
reading5 = record channel5 { events = read_event; index = added }

remove_channel-Changed_example :
    Changed table added_poller 5
      (set_index fresh reading5)
      (remove_channel table reading5 added_poller)
remove_channel-Changed_example =
    remove_channel-Changed table (record { in_kernel = refl; in_map = refl })

abbrev reports : List Watch
reports = record { mask = read_event; ptr = 100 } ∷ []

fill_active_channels_lem_example :
    ((fill_active_channels reports (λ j. channel5)).0 ≡ 100 ∷ [])
    × ((j : ℕ)
        → (fill_active_channels reports (λ j. channel5)).1 j
          ≡ with_revents (reported j reports) channel5)
fill_active_channels_lem_example = fill_active_channels_lem reports (λ j. channel5)
