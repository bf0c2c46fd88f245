-- ===== src/Pool.antt =====
-- connection.c: the array of connections with its free list; `get_connection_n` is the field
-- `free_connection_n`. `shut` stands for `close`, which takes a descriptor out of the epoll set.
pub mod Chain
pub mod Open
pub mod Close
use crawler.Base.{
  ℕ, zero, suc, ◌-◌, Bool, true, false, not, ◌&&◌, Option, none, some, ◌==◌, if◌then◌else◌,
}
use crawler.Net.{
  EvId, read_of, write_of, query_of, Event, Ptr, null, to_conn, to_client, Conn, World, zero_event,
  zero_conn, put_conn, put_ev,
}
use crawler.Tree.{TimerTree}
use crawler.Timer.{event_del_timer}
use crawler.Epoll.{Mask, read_event, close_event, Epoll, Rc, done, failed, event_del}

-- `get_free_connection_n`.
abbrev pub get_free_connection_n : {Tree Set : Type 0} → World Tree Set → ℕ
get_free_connection_n w = w.free_connection_n

-- The loop of `connection_init`, from i down to 0: `next` and the array that `calloc` zeroed.
unfoldable pub link : ℕ → Ptr → (ℕ → Conn) → Ptr × (ℕ → Conn)
link zero next c = (next, c)
link (suc i) next c =
    link i (to_conn i) (λ j. if i == j then record zero_conn { data_ptr = next } else c j)

-- The two arrays of events that `calloc` zeroed; the events of queries are elsewhere.
abbrev pub zeroed : (EvId → Event) → EvId → Event
zeroed evs (read_of i) = zero_event
zeroed evs (write_of i) = zero_event
zeroed evs (query_of q) = evs (query_of q)

module _ {Tree Set : Type 0} where
  abbrev pub with_free : World Tree Set → ℕ → Ptr × (ℕ → Conn) → World Tree Set
  with_free w n (p, c) = record w {
    conns = c;
    evs = λ e. zeroed w.evs e;
    free_connections = p;
    free_connection_n = n;
  }

  -- `connection_init(n)`, where `calloc_ok` says of each of the three calls whether `calloc` gives
  -- memory. `none` is -1, or an n of 0, for which the loop runs below the array.
  unfoldable pub connection_init : (ℕ → Bool) → ℕ → World Tree Set → Option (World Tree Set)
  connection_init calloc_ok zero w = none
  connection_init calloc_ok (suc n) w =
      if calloc_ok 0 && calloc_ok 1 && calloc_ok 2
      then some (with_free w (suc n) (link (suc n) null (λ j. zero_conn)))
      else none

  -- `get_connection(s)`; the three `memset`s, then the fields that are set again.
  abbrev pub taken : ℕ → World Tree Set → Ptr → Option ℕ × World Tree Set
  taken s w (to_conn i) = (
    some i,
    put_ev
        (put_ev
          (put_conn
            (record w {
              free_connections = (w.conns i).data_ptr;
              free_connection_n = w.free_connection_n - 1;
            })
            i (record zero_conn { fd = some s }))
          (read_of i) zero_event)
        (write_of i) zero_event,
  )
  taken s w _ = (none, w)

  unfoldable pub get_connection : ℕ → World Tree Set → Option ℕ × World Tree Set
  get_connection s w = taken s w w.free_connections

  unfoldable pub free_connection : ℕ → World Tree Set → World Tree Set
  free_connection i w =
      record (put_conn w i (record (w.conns i) { data_ptr = w.free_connections })) {
        free_connections = to_conn i;
        free_connection_n = suc w.free_connection_n;
      }

module _ (t : TimerTree) (ep : Epoll) where
  -- The result of `event_del` is not looked at.
  abbrev pub after_del : World t.Tree ep.Set → Rc (World t.Tree ep.Set) → World t.Tree ep.Set
  after_del w failed = w
  after_del w (done w') = w'

  unfoldable pub drop_event : EvId → ℕ → World t.Tree ep.Set → World t.Tree ep.Set
  drop_event e i w =
      if (w.evs e).active then after_del w (event_del ep e i read_event close_event w) else w

  unfoldable pub drop_timer : EvId → World t.Tree ep.Set → World t.Tree ep.Set
  unfolding event_del_timer
  drop_timer e w = if (w.evs e).timer_set then event_del_timer t e w else w

  module _ (shut : ℕ → ep.Set → ep.Set) where
    -- The rest of `close_connection` for an open connection with descriptor s.
    unfoldable pub close_open : ℕ → ℕ → World t.Tree ep.Set → World t.Tree ep.Set
    close_open i s w =
        let w' = free_connection i (
          drop_timer (write_of i)
            (drop_timer (read_of i) (drop_event (write_of i) i (drop_event (read_of i) i w)))) in
        put_conn (record w' { epoll = shut s w'.epoll }) i (record (w'.conns i) { fd = none })

    abbrev pub close_fd : ℕ → World t.Tree ep.Set → Option ℕ → World t.Tree ep.Set
    close_fd i w none = w
    close_fd i w (some s) = close_open i s w

    unfoldable pub close_connection : ℕ → World t.Tree ep.Set → World t.Tree ep.Set
    close_connection i w = close_fd i w (w.conns i).fd
