-- ===== src/Connect/Runs.antt =====
-- The operations on connections and timers, one after the other: those of connection.c, event.c and
-- event_timer.h, and `http_conn` of http_client.c.
use crawler.Base.{
  ℕ, ◌≡◌, refl, sym, ap, ◌∙◌, inl, inr, Bool, true, false, ◌&&◌, some, List, ltb, Bool-cases, arith,
}
use crawler.Net.{EvId, read_of, write_of, query_of, Conn, World, same_ev}
use crawler.Tree.{TimerTree, IsTimerTree}
use crawler.Timer.{expired, event_del_timer, event_add_timer}
use crawler.Timer.Sync.{InSync}
use crawler.Epoll.{Mask, Epoll, done, event_add, event_del}
use crawler.Epoll.Dispatch.{is_open}
use crawler.Pool.{connection_init, get_connection, close_connection}
use crawler.Pool.Chain.{mem}
use crawler.Pool.Open.{IsPool}
use crawler.Pool.Close.{OnlyEvent}
use crawler.Connect.{SocketCalls, http_conn}
use crawler.Connect.Kept.{not_here}

-- The read or the write event of a connection.
abbrev pub event_of : Bool → ℕ → EvId
event_of true i = read_of i
event_of false i = write_of i

module _ (t : TimerTree) (ep : Epoll) (shut : ℕ → ep.Set → ep.Set) (n : ℕ) where
  -- One operation. Events are watched and no longer watched, and timers are set, taken out, and
  -- taken out because they are due, for the events of open connections; timers also for queries.
  pub data Operation (w : World t.Tree ep.Set) : World t.Tree ep.Set → Type 0 where
    get : (s : ℕ) → Operation w (get_connection s w).1
    close :
        (i s : ℕ)
        → ltb i n ≡ true
        → (w.conns i).fd ≡ some s
        → Operation w (close_connection t ep shut i w)
    conn :
        (k : SocketCalls) (ssl : Bool) (client : ℕ)
        → Operation w (http_conn t ep shut k ssl client w).1
    watch :
        (reads : Bool) (i s : ℕ) (event flags : Mask) (w' : World t.Tree ep.Set)
        → (w.conns i).fd ≡ some s
        → event_add ep (event_of reads i) i event flags w ≡ done w'
        → Operation w w'
    unwatch :
        (reads : Bool) (i s : ℕ) (event flags : Mask) (w' : World t.Tree ep.Set)
        → (w.conns i).fd ≡ some s
        → event_del ep (event_of reads i) i event flags w ≡ done w'
        → Operation w w'
    arm :
        (reads : Bool) (i s timer now : ℕ)
        → (w.conns i).fd ≡ some s
        → Operation w (event_add_timer t (event_of reads i) timer now w)
    disarm :
        (reads : Bool) (i s : ℕ)
        → (w.conns i).fd ≡ some s
        → (w.evs (event_of reads i)).timer_set ≡ true
        → Operation w (event_del_timer t (event_of reads i) w)
    expire :
        (reads : Bool) (i s : ℕ)
        → (w.conns i).fd ≡ some s
        → (w.evs (event_of reads i)).timer_set ≡ true
        → Operation w (expired t (event_of reads i) w)
    arm_query : (q timer now : ℕ) → Operation w (event_add_timer t (query_of q) timer now w)
    disarm_query :
        (q : ℕ)
        → (w.evs (query_of q)).timer_set ≡ true
        → Operation w (event_del_timer t (query_of q) w)
    expire_query :
        (q : ℕ) → (w.evs (query_of q)).timer_set ≡ true → Operation w (expired t (query_of q) w)

  -- What can be reached from `connection_init(n)`, with no timer in the tree and none of a query.
  pub data Reach : World t.Tree ep.Set → Type 0 where
    start :
        (calloc_ok : ℕ → Bool) (w w0 : World t.Tree ep.Set)
        → calloc_ok 0 && calloc_ok 1 && calloc_ok 2 ≡ true
        → w.timers ≡ t.empty
        → ((q : ℕ) → (w.evs (query_of q)).timer_set ≡ false)
        → connection_init calloc_ok n w ≡ some w0
        → Reach w0
    next : {w w' : World t.Tree ep.Set} → Reach w → Operation w w' → Reach w'

  module _ (law : IsTimerTree t) where
    -- The pool is a pool, for some free list, and the tree agrees with the events.
    abbrev pub InOrder : World t.Tree ep.Set → Type 0
    InOrder w = (free : List ℕ) × IsPool n free w × InSync t law w

    open_unlisted :
        (i s : ℕ) (l : List ℕ) (w : World t.Tree ep.Set)
        → IsPool n l w
        → (w.conns i).fd ≡ some s
        → mem i l ≡ false
    open_unlisted i s l w p o = elim (Bool-cases (mem i l)) [
      | inr out ↦ out
      | inl m ↦ ground (arith, p.shut i m, o)
    ]

    pub OnlyEvent-IsPool :
        (e : EvId) (l : List ℕ) (w w' : World t.Tree ep.Set)
        → IsPool n l w
        → OnlyEvent t law ep e w w'
        → ((j : ℕ)
            → mem j l ≡ true
            → (same_ev e (read_of j) ≡ false) × (same_ev e (write_of j) ≡ false))
        → IsPool n l w'
    OnlyEvent-IsPool e l w w' p o apart = record {
      chain = rw (o.same_conns, o.same_free) p.chain;
      once = p.once;
      count = o.same_n ∙ p.count;
      below = p.below;
      shut = λ j m. rw o.same_conns (p.shut j m);
      listed =
          λ j b c. p.listed j b (sym (ap (λ (x : ℕ → Conn). is_open (x j).fd) o.same_conns) ∙ c);
      idle = λ j m.
          let (r, v) = apart j m in
          rw (o.others (read_of j) r, o.others (write_of j) v) (p.idle j m);
      all = rw o.same_conns p.all;
    }

    pub event_apart :
        (reads : Bool) (i s : ℕ) (l : List ℕ) (w : World t.Tree ep.Set)
        → IsPool n l w
        → (w.conns i).fd ≡ some s
        → (j : ℕ) → mem j l ≡ true
        → (same_ev (event_of reads i) (read_of j) ≡ false)
          × (same_ev (event_of reads i) (write_of j) ≡ false)
    event_apart true i s l w p o j m = (not_here t law ep i j l (open_unlisted i s l w p o) m, refl)
    event_apart false i s l w p o j m =
        (refl, not_here t law ep i j l (open_unlisted i s l w p o) m)
