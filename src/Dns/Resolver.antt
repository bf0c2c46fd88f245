-- ===== src/Dns/Resolver.antt =====
-- async_dns.c: the queue of queries. `dns_conn` is the connection to the name server; `handler` is
-- the callback of every query, which works on the shared state. A query is told from others by its
-- number, in the order of `calloc`: the 16 bits of `id` can return.
pub mod Tries
pub mod Hosts
pub mod Asks
use crawler.Base.{
  ℕ, suc, ◌+◌, ◌-◌, ◌*◌, ◌%◌, Bool, true, false, Option, none, some, List, [], ◌∷◌, ◌++◌, ◌==◌, ltb,
  leb, if◌then◌else◌, length, get_elem?, take,
}
use crawler.Head.Fields.{◌>>=◌}
use crawler.Net.{Handler, write_of, query_of, Event, Conn, World, zero_event, put_conn, put_ev}
use crawler.Tree.{TimerTree}
use crawler.Timer.{event_del_timer, event_add_timer}
use crawler.Socket.Send.{Room, SendRet, sent, not_ready, send_failed, unix_send}
use crawler.Dns.{DnsCache, CacheQueue, find_cache, set_cache, pack_udp, dns_udp_size}
use crawler.Dns.Response.{
  word_at, ReadAnswers, to_failed, done_with, done_without, stray, endless, read_answers,
}

pub record HttpUrl : Type 0 where
  pub port : ℕ
  pub schema : List ℕ
  pub host : List ℕ
  pub path : List ℕ

-- `dns_query_s`; its event is `query_of number`.
pub record Query : Type 0 where
  pub number : ℕ
  pub url : HttpUrl
  pub id : ℕ
  pub pkt : List ℕ
  pub len : ℕ
  pub trytimes : ℕ

-- `made` counts the queries; `kernel` is what `send` is to find on the socket of `dns_conn`.
pub record Resolver (Tree Set : Type 0) : Type 0 where
  pub world : World Tree Set
  pub id : ℕ
  pub query_queue : List Query
  pub cache : CacheQueue
  pub kernel : List Room
  pub made : ℕ

abbrev pub dns_try_limit : ℕ
dns_try_limit = 1

unfoldable pub find_query : List Query → ℕ → Option Query
find_query [] id = none
find_query (q ∷ qs) id = if q.id == id then some q else find_query qs id

-- `queue_remove(&query->queue)`.
unfoldable pub remove_query : ℕ → List Query → List Query
remove_query n [] = []
remove_query n (q ∷ qs) = if q.number == n then remove_query n qs else q ∷ remove_query n qs

-- `query->trytimes++`.
unfoldable pub count_try : ℕ → List Query → List Query
count_try n [] = []
count_try n (q ∷ qs) =
    (if q.number == n then record q { trytimes = suc q.trytimes } else q) ∷ count_try n qs

module _ (t : TimerTree) {Set : Type 0} (dns_conn : ℕ) where
  -- `unix_send(dns_conn, pkt, len)`.
  unfoldable pub send_on : ℕ → Resolver t.Tree Set → SendRet × Resolver t.Tree Set
  send_on len s =
      let w = s.world in
      let r = unix_send len s.kernel (w.evs (write_of dns_conn)) (w.conns dns_conn).sent in
      let w' = put_conn w dns_conn (record (w.conns dns_conn) { sent = r.total }) in
      (r.ret, record s { world = put_ev w' (write_of dns_conn) r.wev; kernel = r.kernel })

  -- The timer of 5 seconds, unless `rc < 0`.
  abbrev pub arm : ℕ → ℕ → SendRet × Resolver t.Tree Set → Resolver t.Tree Set
  arm now n (sent k, s) = record s { world = event_add_timer t (query_of n) 5000 now s.world }
  arm now n (_, s) = s

  -- Try again, or give up; `del` says whether the timer is taken out.
  unfoldable pub try_again : ℕ → Bool → Query → Resolver t.Tree Set → Resolver t.Tree Set
  try_again now del q s =
      if ltb dns_try_limit q.trytimes
      then record s {
        query_queue = remove_query q.number s.query_queue;
        world = if del then event_del_timer t (query_of q.number) s.world else s.world;
      }
      else arm now q.number
          (send_on q.len (record s { query_queue = count_try q.number s.query_queue }))

  -- `dns_timeout_handler(&q->ev)`.
  unfoldable pub dns_timeout_handler : ℕ → Query → Resolver t.Tree Set → Resolver t.Tree Set
  dns_timeout_handler now q s =
      if (s.world.evs (query_of q.number)).timedout then try_again now false q s else s

  module _ (handler : HttpUrl → ℕ → World t.Tree Set → World t.Tree Set) where
    abbrev pub leave_queue : Query → Resolver t.Tree Set → Resolver t.Tree Set
    leave_queue q s = record s {
      query_queue = remove_query q.number s.query_queue;
      world = event_del_timer t (query_of q.number) s.world;
    }

    -- `set_cache`, then the callback.
    abbrev pub answered : Bool → Query → ℕ → Resolver t.Tree Set → Resolver t.Tree Set
    answered calloc_ok q addr s = record s {
      cache = set_cache calloc_ok q.url.host addr s.cache;
      world = handler q.url addr s.world;
    }

    abbrev pub on_answers :
        ℕ → Bool → Query → Resolver t.Tree Set → ReadAnswers → Option (Resolver t.Tree Set)
    on_answers now calloc_ok q s to_failed = some (try_again now true q s)
    on_answers now calloc_ok q s (done_with addr) =
        some (leave_queue q (answered calloc_ok q addr s))
    on_answers now calloc_ok q s done_without = some (leave_queue q s)
    on_answers now calloc_ok q s stray = none
    on_answers now calloc_ok q s endless = none

    abbrev pub on_query :
        ℕ → Bool → List ℕ → ℕ → Resolver t.Tree Set → Option Query → Option (Resolver t.Tree Set)
    on_query now calloc_ok pkt ancount s none = some s
    on_query now calloc_ok pkt ancount s (some q) =
        on_answers now calloc_ok q s (if ancount == 0 then to_failed else read_answers pkt)

    abbrev pub from_header :
        ℕ → Bool → List ℕ → ℕ → ℕ → ℕ → Resolver t.Tree Set → Option (Resolver t.Tree Set)
    from_header now calloc_ok pkt qdcount id ancount s =
        if qdcount == 1
        then on_query now calloc_ok pkt ancount s (find_query s.query_queue id)
        else none

    -- `parse_udp` of the bytes of a datagram, at least a header. `none` is what C leaves open: a
    -- read behind the bytes, or of `query` before it is set. The id stands with its low byte first.
    unfoldable pub parse_udp :
        ℕ → Bool → List ℕ → Resolver t.Tree Set → Option (Resolver t.Tree Set)
    parse_udp now calloc_ok pkt s = do
      qdcount ← word_at pkt 4
      id_low ← get_elem? pkt 0
      id_high ← get_elem? pkt 1
      ancount ← word_at pkt 6
      from_header now calloc_ok pkt qdcount (id_low + 256 * id_high) ancount s

    -- A new query that could be sent.
    abbrev pub enter :
        ℕ → HttpUrl → List ℕ × ℕ → SendRet × Resolver t.Tree Set → Bool × Resolver t.Tree Set
    enter now url (pkt, len) (sent k, s) = (
      true,
      record s {
        world = event_add_timer t (query_of s.made) 5000 now (
            put_ev s.world (query_of s.made)
              (record (s.world.evs (query_of s.made)) { handler = Handler.dns_timeout_handler }));
        query_queue =
            s.query_queue
            ++ (record {
              number = s.made;
              url = url;
              id = s.id;
              pkt = take len pkt;
              len = len;
              trytimes = 0;
            }
                ∷ []);
        made = suc s.made;
      },
    )
    enter now url packed (_, s) = (false, s)

    abbrev pub ask : ℕ → HttpUrl → Resolver t.Tree Set → Bool × Resolver t.Tree Set
    ask now url s =
        let id' = suc s.id % 65536 in
        let packed = pack_udp id' url.host in
        let fresh = put_ev s.world (query_of s.made) zero_event in
        enter now url packed (send_on packed.1 (record s { id = id'; world = fresh }))

    abbrev pub on_cache :
        ℕ → Bool → HttpUrl → Resolver t.Tree Set → Option DnsCache → Bool × Resolver t.Tree Set
    on_cache now calloc_ok url s (some c) =
        (true, record s { world = handler url c.sin_addr s.world })
    on_cache now calloc_ok url s none = if calloc_ok then ask now url s else (false, s)

    -- `dns_query`: whether it returns 0. `sizeof(dns_header_t)` is 14.
    unfoldable pub dns_query : ℕ → Bool → HttpUrl → Resolver t.Tree Set → Bool × Resolver t.Tree Set
    dns_query now calloc_ok url s =
        if leb (dns_udp_size - 14) (length url.host)
        then (false, s)
        else on_cache now calloc_ok url s (find_cache s.cache.cache_queue url.host)
