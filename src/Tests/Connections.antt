-- ===== src/Tests/Connections.antt =====
-- The pool of connections.
use crawler.Base.{ℕ, ◌≡◌, refl, none, [], ◌∷◌, if◌then◌else◌, ◌==◌}
use crawler.Net.{World, null, zero_conn, zero_event}
use crawler.Timer.Sync.{InSync}
use crawler.Pool.{link, with_free, get_connection, close_connection}
use crawler.Pool.Open.{
  IsPool, Got, with_free-IsPool, with_free-InSync, get_connection-Got, get_connection-InSync,
}
use crawler.Pool.Close.{close_connection-IsPool}
use crawler.Samples.TimerList.{timer_list, timer_list-IsTimerTree}
use crawler.Samples.EpollTable.{epoll_table}

abbrev State : Type 0
State = World timer_list.Tree epoll_table.Set

abbrev pub blank : State
blank = record {
  conns = λ i. zero_conn;
  evs = λ e. zero_event;
  free_connections = null;
  free_connection_n = 0;
  timers = timer_list.empty;
  epoll = λ fd. none;
}

abbrev pub fresh : State
fresh = with_free blank 2 (link 2 null (λ j. zero_conn))

pub fresh-IsPool : IsPool 2 (0 ∷ 1 ∷ []) fresh
fresh-IsPool = with_free-IsPool 1 blank

pub fresh-InSync : InSync timer_list timer_list-IsTimerTree fresh
fresh-InSync e =
    with_free-InSync timer_list timer_list-IsTimerTree 2 (link 2 null (λ j. zero_conn)) blank refl
      (λ q. refl) e

abbrev got : State
got = (get_connection 7 fresh).1

get_connection-Got_example : Got 7 2 (0 ∷ 1 ∷ []) fresh (get_connection 7 fresh)
get_connection-Got_example = get_connection-Got 7 2 (0 ∷ 1 ∷ []) fresh fresh-IsPool

fresh-Got : Got 7 2 (0 ∷ 1 ∷ []) fresh (get_connection 7 fresh)
fresh-Got = get_connection-Got 7 2 (0 ∷ 1 ∷ []) fresh fresh-IsPool

got-InSync : InSync timer_list timer_list-IsTimerTree got
got-InSync =
    get_connection-InSync timer_list timer_list-IsTimerTree 7 2 (0 ∷ 1 ∷ []) fresh fresh-IsPool
      fresh-InSync

-- The descriptor is taken out of the table.
abbrev pub forget : ℕ → epoll_table.Set → epoll_table.Set
forget fd s g = if fd == g then none else s g

abbrev closed : State
closed = close_connection timer_list epoll_table forget 0 got

close_connection-IsPool_example :
    IsPool 2 (0 ∷ 1 ∷ []) closed
    × InSync timer_list timer_list-IsTimerTree closed
    × ((closed.conns 0).fd ≡ none)
    × (close_connection timer_list epoll_table forget 0 closed ≡ closed)
close_connection-IsPool_example =
    close_connection-IsPool timer_list timer_list-IsTimerTree epoll_table forget 2 (1 ∷ []) 0 7 got
      fresh-Got.1 got-InSync refl fresh-Got.3
