-- ===== src/Tests/Events.antt =====
-- The timers, epoll and the dispatch of events.
use crawler.Base.{
  ℕ, ◌+◌, ◌<◌, ◌≤◌, ◌≡◌, refl, true, false, none, some, [], ◌∷◌, arith, inl, inr, ◌⊎◌, ◌≢◌,
  Bool-cases, if◌then◌else◌, ◌==◌,
}
use crawler.Base.Word.{sub32}
use crawler.Net.{Handler, EvId, read_of, World, null, zero_conn, zero_event, put_ev, same_ev}
use crawler.Tree.{InWindow}
use crawler.Timer.{
  event_del_timer, set_timer, event_add_timer, event_find_timer, event_expire_timers,
}
use crawler.Timer.Sync.{InSync, event_add_timer-InSync}
use crawler.Timer.Wait.{
  left, event_add_timer_sets, event_add_timer_deadline, event_find_timer_least,
}
use crawler.Timer.Expire.{IsQuiet, Settled, event_expire_timers-Settled}
use crawler.Epoll.{no_bits, read_event, clear_event, done, event_add, event_del}
use crawler.Epoll.Watch.{Watched, event_add-Watched, event_del-Watched}
use crawler.Epoll.Dispatch.{events, event_process, event_process-keeps}
use crawler.Samples.TimerList.{timer_list, timer_list-IsTimerTree, count-insert}
use crawler.Samples.EpollTable.{epoll_table, epoll_table-IsEpoll}

abbrev State : Type 0
State = World timer_list.Tree epoll_table.Set

-- Connection 0 is open, and nothing is registered.
abbrev pub opened : State
opened = record {
  conns = λ i. record zero_conn { fd = some 7 };
  evs = λ e. zero_event;
  free_connections = null;
  free_connection_n = 0;
  timers = timer_list.empty;
  epoll = λ fd. none;
}

opened-InSync : InSync timer_list timer_list-IsTimerTree opened
opened-InSync e = refl

-- A timer of 5000 ms from time 100.
abbrev timed : State
timed = event_add_timer timer_list (read_of 0) 5000 100 opened

timed-InSync : InSync timer_list timer_list-IsTimerTree timed
timed-InSync =
    event_add_timer-InSync timer_list timer_list-IsTimerTree (read_of 0) 5000 100 opened
      opened-InSync

timed_apart :
    (timed.evs (read_of 0)).timer_set ≡ true
    → sub32 (4000 + 5000) (timed.evs (read_of 0)).key ≢ 2147483648
unfolding event_add_timer set_timer
timed_apart set = ground arith

-- The timer is set again, and moved.
event_add_timer_deadline_example :
    let w' = event_add_timer timer_list (read_of 0) 5000 4000 timed in
    let key = (w'.evs (read_of 0)).key in
    ((w'.evs (read_of 0)).timer_set ≡ true)
    × (timer_list.find w'.timers (read_of 0) ≡ some key)
    × ((sub32 (4000 + 5000) key < 300) ⊎ (sub32 key (4000 + 5000) < 300))
event_add_timer_deadline_example =
    event_add_timer_deadline timer_list timer_list-IsTimerTree (read_of 0) 5000 4000 timed
      timed-InSync timed_apart

timed_set : (timed.evs (read_of 0)).timer_set ≡ true
timed_set = event_add_timer_sets timer_list (read_of 0) 5000 100 opened

abbrev untimed : State
untimed = event_del_timer timer_list (read_of 0) timed

timed_window : (e : EvId) → (timed.evs e).timer_set ≡ true → InWindow 0 (timed.evs e).key
unfolding event_add_timer set_timer
timed_window e h = elim (Bool-cases (same_ev (read_of 0) e)) [
  | inl same ↦ rw same (omega arith)
  | inr other ↦ rw other (omega arith)
]

timed_count : timer_list.count timed.timers < 9
unfolding event_add_timer set_timer
timed_count = omega (arith, count-insert timer_list.empty (read_of 0) 5100)

event_find_timer_least_example :
    (event_find_timer timer_list 4100 timed
      ≤ left timer_list timer_list-IsTimerTree 0 4100 timed timed-InSync timed_window
          (omega arith)
          (read_of 0))
    × ((e : EvId) × ((timed.evs e).timer_set ≡ true)
        × (event_find_timer timer_list 4100 timed
            ≡ left timer_list timer_list-IsTimerTree 0 4100 timed timed-InSync timed_window
                (omega arith)
                e))
event_find_timer_least_example =
    event_find_timer_least timer_list timer_list-IsTimerTree 0 4100 timed timed-InSync timed_window
      (omega arith) (read_of 0) timed_set

-- A handler that does nothing.
abbrev pub idle_handler : Handler → EvId → State → State
idle_handler h e w = w

idle_handler-IsQuiet : IsQuiet timer_list timer_list-IsTimerTree idle_handler
idle_handler-IsQuiet = record { keeps = λ h e w s. s; count_le = λ h e w. omega arith }

abbrev late : ℕ → ℕ
late n = 6000

event_expire_timers-Settled_example :
    Settled timer_list timer_list-IsTimerTree idle_handler idle_handler-IsQuiet late 0 timed
      (event_expire_timers timer_list idle_handler late 9 0 timed)
event_expire_timers-Settled_example =
    event_expire_timers-Settled timer_list timer_list-IsTimerTree idle_handler idle_handler-IsQuiet
      late 9 0 timed timed-InSync timed_count

opened-Watched : Watched epoll_table epoll_table-IsEpoll 0 7 opened
opened-Watched = record { is_open = refl; bits = refl }

-- With the read event, and then with the write event too.
abbrev with_read : State
with_read = record (put_ev opened (read_of 0) (record zero_event { active = true })) {
  epoll = λ fd. if 7 == fd then some (record read_event { et = true }) else none;
}

added_read : event_add epoll_table (read_of 0) 0 read_event clear_event opened ≡ done with_read
unfolding event_add
added_read = refl

event_add-Watched_example :
    Watched epoll_table epoll_table-IsEpoll 0 7 with_read
    × ((with_read.evs (read_of 0)).active ≡ true)
event_add-Watched_example =
    event_add-Watched epoll_table epoll_table-IsEpoll true true 0 7 opened with_read opened-Watched
      added_read

abbrev without : State
without = record (put_ev with_read (read_of 0) (record zero_event { active = false })) {
  epoll = λ fd. if 7 == fd then none else with_read.epoll fd;
}

removed_read : event_del epoll_table (read_of 0) 0 read_event clear_event with_read ≡ done without
unfolding event_del
removed_read = refl

event_del-Watched_example :
    Watched epoll_table epoll_table-IsEpoll 0 7 without × ((without.evs (read_of 0)).active ≡ false)
event_del-Watched_example =
    event_del-Watched epoll_table epoll_table-IsEpoll true true 0 7 with_read without
      (record { is_open = refl; bits = refl }) removed_read

event_process-keeps_example :
    (event_process idle_handler false
      (events ((0, read_event) ∷ (0, no_bits) ∷ []))
      with_read).1.free_connection_n
    ≡ 0
event_process-keeps_example =
    event_process-keeps idle_handler (λ w. w.free_connection_n ≡ 0) (λ e eof w p. p)
      (λ e i w p m. p) false (events ((0, read_event) ∷ (0, no_bits) ∷ [])) with_read refl
