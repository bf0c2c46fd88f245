-- ===== src/Worker/Start/Ready.antt =====
-- `work_process_cycle` of process_cycle.c: what a worker starts with.
use crawler.Dns.Resolver.{Resolver}
use crawler.Base.{
  ℕ, suc, ◌≡◌, refl, ap, ◌∙◌, inl, inr, Bool, true, ◌&&◌, Option, some, List, [], ◌∷◌, arith,
  Option-cases, ◌==◌, false,
}
use crawler.Net.{
  Handler, read_of, write_of, query_of, Event, World, zero_event, put_ev, null, zero_conn,
}
use crawler.Tree.{TimerTree, IsTimerTree}
use crawler.Timer.{event_timer_init}
use crawler.Timer.Sync.{InSync, same_ev_refl}
use crawler.Epoll.{Epoll, IsEpoll, ctl_add, read_event, clear_event, ◌or_bits◌, event_add}
use crawler.Pool.{get_free_connection_n, link, with_free, connection_init, get_connection}
use crawler.Pool.Open.{
  IsPool, upto, with_free-IsPool, with_free-InSync, get_connection-Got, get_connection-InSync,
}
use crawler.Pool.Close.{OnlyEvent}
use crawler.Connect.Kept.{put_ev-InSync}
use crawler.Connect.Runs.{OnlyEvent-IsPool, event_apart}
use crawler.Connect.Pooled.{pair_eq}
use crawler.Redis.{Redis, IsRedis}
use crawler.Redis.Lists.{good_context, redis_init}
use crawler.Bloom.{unseen, bloom_init, bloom_check}
use crawler.Bloom.Member.{Answers, bloom_check-bloom_init}
use crawler.Worker.Start.{
  StartCalls, Started, started, on_bloom, on_dns, on_pool, start_with, work_process_start,
}
use crawler.Epoll.Init.{EventState, event_init}
use crawler.Dns.Init.{
  name_server, read_resolv_conf, dns_ready, on_connection, dns_init, open_dns, no_queues,
  in_resolver,
}

own_number : (n : ℕ) → (n == n) ≡ true
own_number n = ground arith

event_init_succeeds : (epfd : ℕ) (es : EventState) → (event_init (some epfd) true es).0 ≡ true
unfolding event_init
event_init_succeeds epfd es = elim (Option-cases es.ep) [
  | inl none_yet ↦ rw none_yet refl
  | inr (fd, there) ↦ rw there refl
]

module _ (t : TimerTree) (law : IsTimerTree t) (ep : Epoll) (epoll_law : IsEpoll ep)
    (shut : ℕ → ep.Set → ep.Set) where
  -- The connection to the name server is open and watched, and the rest is in order.
  pub record Watching (n i fd : ℕ) (l : List ℕ) (w : World t.Tree ep.Set) : Type 0 where
    pub descriptor : (w.conns i).fd ≡ some fd
    pub handler : (w.evs (read_of i)).handler ≡ Handler.dns_process_event
    pub active : (w.evs (read_of i)).active ≡ true
    pub interest : ep.interest w.epoll fd ≡ some (read_event or_bits clear_event)
    pub pool : IsPool n l w
    pub sync : InSync t law w

  on_connection-Watching :
      (n i fd : ℕ) (l : List ℕ) (v : World t.Tree ep.Set) (s : ep.Set)
      → IsPool n l v
      → InSync t law v
      → (v.conns i).fd ≡ some fd
      → v.evs (write_of i) ≡ zero_event
      → ep.ctl v.epoll ctl_add fd (read_event or_bits clear_event) ≡ some s
      → (w : World t.Tree ep.Set) × (on_connection t ep shut fd (some i, v) ≡ dns_ready i w)
        × Watching n i fd l w
  unfolding event_add
  on_connection-Watching n i fd l v s p sync opened idle added =
      let v1 : World t.Tree ep.Set =
        put_ev v (read_of i) (record (v.evs (read_of i)) { handler = Handler.dns_process_event }) in
      let w : World t.Tree ep.Set =
        put_ev (record v1 { epoll = s }) (read_of i)
          (record (v1.evs (read_of i)) { active = true }) in
      let only : OnlyEvent t law ep (read_of i) v w = record {
        same_conns = refl;
        same_free = refl;
        same_n = refl;
        others = λ d o. rw o refl;
      } in
      let same = same_ev_refl (read_of i) in
      let sync1 : InSync t law v1 = put_ev-InSync t law ep (read_of i) _ v refl sync in
      (
        w,
        rw (ap (λ (x : Event). x.active) idle, opened, added) refl,
        record {
          descriptor = opened;
          handler = rw same refl;
          active = rw same refl;
          interest =
              epoll_law.interest-ctl v.epoll s ctl_add fd fd (read_event or_bits clear_event) added
              ∙ rw (own_number fd) refl;
          pool =
              OnlyEvent-IsPool t ep shut n law (read_of i) l v w p only
                (event_apart t ep shut n law true i fd l v p opened);
          sync = put_ev-InSync t law ep (read_of i) _ (record v1 { epoll = s }) refl sync1;
        },
      )

  get_connection-epoll :
      (n i fd : ℕ) (l : List ℕ) (w : World t.Tree ep.Set)
      → IsPool n (i ∷ l) w
      → (get_connection fd w).1.epoll ≡ w.epoll
  unfolding get_connection
  get_connection-epoll n i fd l w p = rw p.chain.0 refl

  -- `dns_init` from `fopen` on, on a pool with a free connection, where every call succeeds.
  open_dns-Watching :
      (n i fd addr : ℕ) (l : List ℕ) (lines : List (Option ℕ)) (w : World t.Tree ep.Set)
      (s : ep.Set)
      → IsPool n (i ∷ l) w
      → InSync t law w
      → read_resolv_conf lines ≡ name_server addr
      → ep.ctl w.epoll ctl_add fd (read_event or_bits clear_event) ≡ some s
      → (v : World t.Tree ep.Set) × (open_dns t ep shut (some lines) (some fd) true w
          ≡ dns_ready i v)
        × Watching n i fd l v
  unfolding open_dns
  open_dns-Watching n i fd addr l lines w s p sync found added =
      let (got, p', _, opened, _, idle) = get_connection-Got fd n (i ∷ l) w p in
      let v = (get_connection fd w).1 in
      let pair = pair_eq (get_connection fd w) (some i) v got refl in
      let (x, made, watching) =
        on_connection-Watching n i fd l v s p' (get_connection-InSync t law fd n (i ∷ l) w p sync)
          opened idle
          (ap (λ e. ep.ctl e ctl_add fd (read_event or_bits clear_event))
              (get_connection-epoll n i fd l w p)
            ∙ added) in
      (x, rw found (ap (λ q. on_connection t ep shut fd q) pair ∙ made), watching)

  module _ (r : Redis) (redis_law : IsRedis r) (answers : Answers r) (hash : List ℕ → ℕ → ℕ) where
    -- The loop is reached with the connection to the name server, which is open and watched; n
    -- connections are free; and the filter finds no text.
    pub record Ready (n fd : ℕ) (o : Started (Resolver t.Tree ep.Set) r.Db) : Type 0 where
      pub dns_conn : ℕ
      pub resolver : Resolver t.Tree ep.Set
      pub db : r.Db
      pub free : List ℕ
      pub starts : o ≡ started dns_conn resolver db
      pub watching : Watching (suc n) dns_conn fd free resolver.world
      pub count : get_free_connection_n resolver.world ≡ n
      pub no_query : resolver.query_queue ≡ []
      pub no_entry : resolver.cache.cache_queue ≡ []
      pub none_seen : (str : List ℕ) → bloom_check r hash str db ≡ (unseen, db)

    -- Every call succeeds.
    abbrev pub given : ℕ → (ℕ → Bool) → List (Option ℕ) → ℕ → StartCalls
    given epfd calloc_ok lines fd = record {
      sigaction = true;
      epoll_create = some epfd;
      events_ok = true;
      calloc_ok = calloc_ok;
      resolv_conf = some lines;
      socket = some fd;
      connected = true;
      redis = good_context;
    }

    on_pool-Ready :
        (n epfd fd addr : ℕ) (calloc_ok : ℕ → Bool) (lines : List (Option ℕ)) (l : List ℕ)
        (x : Resolver t.Tree ep.Set) (w : World t.Tree ep.Set) (s : ep.Set) (db : r.Db)
        → IsPool (suc n) l w
        → get_free_connection_n w ≡ suc n
        → InSync t law w
        → read_resolv_conf lines ≡ name_server addr
        → ep.ctl w.epoll ctl_add fd (read_event or_bits clear_event) ≡ some s
        → Ready n fd (on_pool t ep shut r (given epfd calloc_ok lines fd) x db (some w))
    unfolding redis_init dns_init
    on_pool-Ready n epfd fd addr calloc_ok lines [] x w s db p size sync found added =
        absurd (omega (arith, p.count, size))
    on_pool-Ready n epfd fd addr calloc_ok lines (i ∷ l) x w s db p size sync found added =
        let (v, made, watching) =
          open_dns-Watching (suc n) i fd addr l lines w s p sync found added in
        let b = bloom_init r db in
        let set =
          pair_eq b true b.1 (bloom_check-bloom_init r redis_law answers hash [] db).0 refl in
        record {
          dns_conn = i;
          resolver = record (no_queues t ep shut x) { world = v };
          db = (bloom_init r db).1;
          free = l;
          starts =
              ap
                (λ q.
                  on_dns t ep shut r (given epfd calloc_ok lines fd) db
                    (in_resolver t ep shut (no_queues t ep shut x) q))
                made
              ∙ ap
                  (λ q.
                    on_bloom t ep shut r (given epfd calloc_ok lines fd) i
                      (record (no_queues t ep shut x) { world = v }) q)
                  set;
          watching = watching;
          count = omega (arith, watching.pool.count, p.count, size);
          no_query = refl;
          no_entry = refl;
          none_seen = λ str. (bloom_check-bloom_init r redis_law answers hash str db).1;
        }

    start_with-Ready :
        (n epfd fd addr : ℕ) (calloc_ok : ℕ → Bool) (lines : List (Option ℕ)) (es : EventState)
        (x : Resolver t.Tree ep.Set) (s : ep.Set) (db : r.Db)
        → ((q : ℕ) → (x.world.evs (query_of q)).timer_set ≡ false)
        → calloc_ok 0 && calloc_ok 1 && calloc_ok 2 ≡ true
        → read_resolv_conf lines ≡ name_server addr
        → ep.ctl x.world.epoll ctl_add fd (read_event or_bits clear_event) ≡ some s
        → Ready n fd (start_with t ep shut r (given epfd calloc_ok lines fd) (suc n) es x db)
    unfolding start_with event_init event_timer_init connection_init
    start_with-Ready n epfd fd addr calloc_ok lines es x s db unset memory found added =
        let init =
          pair_eq (event_init (some epfd) true es) true _ (event_init_succeeds epfd es) refl in
        let empty : World t.Tree ep.Set = event_timer_init t x.world in
        let first = with_free empty (suc n) (link (suc n) null (λ j. zero_conn)) in
        rw (init, memory)
          (on_pool-Ready n epfd fd addr calloc_ok lines (upto (suc n) []) x first s db
            (with_free-IsPool n empty) refl
            (with_free-InSync t law (suc n) (link (suc n) null (λ j. zero_conn)) empty refl unset)
            found added)

    -- Where the calls of the system and of hiredis succeed, there is memory, the file names a name
    -- server, and no query has a timer: whatever the state was besides, a worker reaches its loop
    -- with its connection to the name server open and registered with epoll for reading, the 1023
    -- other connections free, the pool and the timers in order, no query and no address in the
    -- queues, and a filter in which no text is found.
    pub work_process_start-Ready :
        (epfd fd addr : ℕ) (calloc_ok : ℕ → Bool) (lines : List (Option ℕ)) (es : EventState)
        (x : Resolver t.Tree ep.Set) (s : ep.Set) (db : r.Db)
        → ((q : ℕ) → (x.world.evs (query_of q)).timer_set ≡ false)
        → calloc_ok 0 && calloc_ok 1 && calloc_ok 2 ≡ true
        → read_resolv_conf lines ≡ name_server addr
        → ep.ctl x.world.epoll ctl_add fd (read_event or_bits clear_event) ≡ some s
        → Ready 1023 fd (work_process_start t ep shut r (given epfd calloc_ok lines fd) es x db)
    unfolding work_process_start
    work_process_start-Ready epfd fd addr calloc_ok lines es x s db unset memory found added =
        start_with-Ready 1023 epfd fd addr calloc_ok lines es x s db unset memory found added
