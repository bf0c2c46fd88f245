-- ===== src/Dns/Resolver/Hosts.antt =====
-- async_dns.c: from the response of the name server to the next query for its host.
use mathlib.Core.Path.{subst}
use crawler.Base.{
  ℕ, ◌+◌, ◌-◌, ◌*◌, ◌≡◌, refl, sym, Bool, true, false, none, some, List, ◌∷◌, ◌++◌, ◌==◌, leb,
  length, arith,
}
use crawler.Net.{query_of, World}
use crawler.Timer.{event_del_timer}
use crawler.Dns.Resolver.Tries.{find_number, find_number-remove_query, find_number-other}
use crawler.Tree.{TimerTree}
use crawler.Dns.{DnsCache, find_cache, dns_udp_size}
use crawler.Dns.Cache.{IsCache, set_cache-IsCache}
use crawler.Dns.Response.{word_at, done_with, read_answers}
use crawler.Dns.Response.Answer.{
  Middle, Cname, cname_bytes, address_bytes, response, AreNonzero, read_answers-response,
}
use crawler.Dns.Resolver.{
  HttpUrl, Query, Resolver, find_query, leave_queue, answered, parse_udp, dns_query,
}

-- The header of a response to one question.
abbrev pub response_header : ℕ → ℕ → ℕ → ℕ → List ℕ → List ℕ
response_header id_low id_high an_high an_low others =
    id_low ∷ id_high ∷ 129 ∷ 128 ∷ 0 ∷ 1 ∷ an_high ∷ an_low ∷ others

module _ (t : TimerTree) {Set : Type 0} (dns_conn : ℕ)
    (handler : HttpUrl → ℕ → World t.Tree Set → World t.Tree Set) where
  parse_udp-response :
      (now id_low id_high an_high an_low addr : ℕ) (others body : List ℕ) (q : Query)
      (s : Resolver t.Tree Set)
      → let pkt = response_header id_low id_high an_high an_low (others ++ body) in
        find_query s.query_queue (id_low + 256 * id_high) ≡ some q
        → (an_high * 256 + an_low == 0) ≡ false
        → read_answers pkt ≡ done_with addr
        → parse_udp t dns_conn handler now true pkt s
          ≡ some (leave_queue t dns_conn handler q (answered t dns_conn handler true q addr s))
  unfolding parse_udp word_at
  parse_udp-response now id_low id_high an_high an_low addr others body q s found some_answer read =
      rw (found, some_answer, read) refl

  dns_query-known :
      (now : ℕ) (calloc_ok : Bool) (url : HttpUrl) (c : DnsCache) (s : Resolver t.Tree Set)
      → leb (dns_udp_size - 14) (length url.host) ≡ false
      → find_cache s.cache.cache_queue url.host ≡ some c
      → dns_query t dns_conn handler now calloc_ok url s
        ≡ (true, record s { world = handler url c.sin_addr s.world })
  unfolding dns_query
  dns_query-known now calloc_ok url c s short known = rw (short, known) refl

  -- What the answer to query q with this address leaves: the callback has got the URL of the query
  -- and the address, then the timer is taken out; the query is out of the queue, and every other one
  -- is in it as it was.
  pub record Answered (q : Query) (addr : ℕ) (s s' : Resolver t.Tree Set) : Type 0 where
    pub called : s'.world ≡ event_del_timer t (query_of q.number) (handler q.url addr s.world)
    pub gone : find_number q.number s'.query_queue ≡ none
    pub others :
        (m : ℕ)
        → (m == q.number) ≡ false
        → find_number m s'.query_queue ≡ find_number m s.query_queue

  -- The response to a query that waits, with an address behind any number of CNAME records, goes to
  -- the callback and takes the query, and no other, out of the queue, with its timer; a query for
  -- the same host is then answered with the same address at once, and nothing is sent. The names of
  -- the records are pointers, and the cache is in order and has memory.
  pub dns_query-parse_udp :
      (now later id_low id_high an_high an_low : ℕ) (calloc_ok : Bool) (others qname : List ℕ)
      (high low pointer : ℕ) (m : Middle) (a b c d : ℕ) (rest : List ℕ) (cs : List Cname)
      (q : Query) (url : HttpUrl) (s : Resolver t.Tree Set)
      → let header = response_header id_low id_high an_high an_low others in
        let pkt =
          response header qname high low (cname_bytes cs (address_bytes pointer m a b c d rest)) in
        let addr = a + 256 * b + 65536 * c + 16777216 * d in
        find_query s.query_queue (id_low + 256 * id_high) ≡ some q
        → (an_high * 256 + an_low == 0) ≡ false
        → length others ≡ 4
        → AreNonzero qname
        → IsCache s.cache
        → url.host ≡ q.url.host
        → leb (dns_udp_size - 14) (length url.host) ≡ false
        → (s' : Resolver t.Tree Set) × (parse_udp t dns_conn handler now true pkt s ≡ some s')
          × Answered q addr s s'
          × (dns_query t dns_conn handler later calloc_ok url s'
              ≡ (true, record s' { world = handler url addr s'.world }))
  dns_query-parse_udp now later id_low id_high an_high an_low calloc_ok others qname high low
        pointer m a b c d rest cs q url s found some_answer size name cache host short =
      let addr = a + 256 * b + 65536 * c + 16777216 * d in
      let header = response_header id_low id_high an_high an_low others in
      let s' = leave_queue t dns_conn handler q (answered t dns_conn handler true q addr s) in
      let read =
        read_answers-response pointer m a b c d rest high low cs header qname (omega (arith, size))
          name in
      let (_, stored, _) = set_cache-IsCache q.url.host addr s.cache cache in
      let entry : DnsCache = record { host = q.url.host; sin_addr = addr } in
      let known = subst (λ h. find_cache s'.cache.cache_queue h ≡ some entry) (sym host) stored in
      (
        s',
        parse_udp-response now id_low id_high an_high an_low addr others _ q s found some_answer
            read,
        record {
          called = refl;
          gone = find_number-remove_query q.number s.query_queue;
          others = λ k differs. find_number-other k q.number s.query_queue differs;
        },
        dns_query-known later calloc_ok url entry s' short known,
      )
