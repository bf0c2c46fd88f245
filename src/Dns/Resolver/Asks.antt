-- ===== src/Dns/Resolver/Asks.antt =====
-- `dns_query` of async_dns.c: where the answer to a query comes from.
use crawler.Base.{
  ℕ, suc, ◌-◌, ◌%◌, ◌≡◌, refl, sym, ap, ◌∙◌, inl, inr, true, false, Option, none, some, List, [],
  ◌∷◌, ◌++◌, leb, length, take, Option-cases,
}
use crawler.Net.{query_of, World, put_ev, zero_event}
use crawler.Tree.{TimerTree}
use crawler.Timer.Wait.{event_add_timer_sets}
use crawler.Socket.Send.{Room, room_for, SendRet, sent, not_ready, send_failed}
use crawler.Dns.{DnsCache, find_cache, pack_udp, dns_udp_size}
use crawler.Dns.Resolver.{HttpUrl, Query, Resolver, send_on, enter, dns_query}
use crawler.Dns.Resolver.Tries.{SentOne, send_on-SentOne}

module _ (t : TimerTree) {Set : Type 0} (dns_conn : ℕ)
    (handler : HttpUrl → ℕ → World t.Tree Set → World t.Tree Set) where
  -- A query for the host of the URL stands at the end of the queue, with its packet, untried and
  -- under a timer, and `send` was called once.
  pub record NewQuery (url : HttpUrl) (ks : List Room) (s s' : Resolver t.Tree Set) : Type 0 where
    pub query : Query
    pub queue : s'.query_queue ≡ s.query_queue ++ (query ∷ [])
    pub for_url : query.url ≡ url
    pub untried : query.trytimes ≡ 0
    pub len : query.len ≡ (pack_udp query.id url.host).1
    pub pkt : query.pkt ≡ take query.len (pack_udp query.id url.host).0
    pub set : (s'.world.evs (query_of query.number)).timer_set ≡ true
    pub kernel : s'.kernel ≡ ks

  -- With the address in the cache, the callback gets it and no query is made; else one is made.
  abbrev pub Asked :
      HttpUrl → List Room → Resolver t.Tree Set → Option DnsCache → Resolver t.Tree Set → Type 0
  Asked url ks s (some c) s' =
      (s'.world ≡ handler url c.sin_addr s.world) × (s'.query_queue ≡ s.query_queue)
  Asked url ks s none s' = NewQuery url ks s s'

  enter-NewQuery :
      (now : ℕ) (url : HttpUrl) (ks : List Room) (s s1 : Resolver t.Tree Set)
      (p : SendRet × Resolver t.Tree Set)
      → s1.query_queue ≡ s.query_queue
      → p.1.id ≡ s1.id
      → SentOne t dns_conn ks s1 p
      → NewQuery url ks s (enter t dns_conn handler now url (pack_udp s1.id url.host) p).1
  enter-NewQuery now url ks s s1 (not_ready, s') same id one = absurd (cc (one.ret))
  enter-NewQuery now url ks s s1 (send_failed, s') same id one = absurd (cc (one.ret))
  enter-NewQuery now url ks s s1 (sent k, s') same id one =
      let packed = λ (n : ℕ). pack_udp n url.host in
      let new : Query = record {
        number = s'.made;
        url = url;
        id = s'.id;
        pkt = take (packed s1.id).1 (packed s1.id).0;
        len = (packed s1.id).1;
        trytimes = 0;
      } in
      record {
        query = new;
        queue = ap (λ l. l ++ (new ∷ [])) (one.queue ∙ same);
        for_url = refl;
        untried = refl;
        len = ap (λ n. (packed n).1) (sym id);
        pkt = ap (λ n. take (packed s1.id).1 (packed n).0) (sym id);
        set = event_add_timer_sets t (query_of s'.made) 5000 now _;
        kernel = one.kernel;
      }

  send_on-id : (len : ℕ) (s : Resolver t.Tree Set) → (send_on t dns_conn len s).1.id ≡ s.id
  unfolding send_on
  send_on-id len s = refl

  -- For a host that fits the packet, with memory and with room on the socket: the callback gets the
  -- address that the cache has, and no query is made; or a query for the host, with its packet, comes
  -- to the end of the queue under a timer, and is sent.
  pub dns_query-Asked :
      (now a : ℕ) (url : HttpUrl) (ks : List Room) (s : Resolver t.Tree Set)
      → leb (dns_udp_size - 14) (length url.host) ≡ false
      → s.kernel ≡ room_for a ∷ ks
      → Asked url ks s
          (find_cache s.cache.cache_queue url.host)
          (dns_query t dns_conn handler now true url s).1
  unfolding dns_query
  dns_query-Asked now a url ks s short room =
      elim (Option-cases (find_cache s.cache.cache_queue url.host)) [
        | inr (c, known) ↦ rw (short, known) (refl, refl)
        | inl unknown ↦
            let id' = suc s.id % 65536 in
            let s1 : Resolver t.Tree Set = record s {
              id = id';
              world = put_ev s.world (query_of s.made) zero_event;
            } in
            let p = send_on t dns_conn (pack_udp id' url.host).1 s1 in
            rw (short, unknown)
              (enter-NewQuery now url ks s s1 p refl (send_on-id (pack_udp id' url.host).1 s1)
                (send_on-SentOne t dns_conn (pack_udp id' url.host).1 a ks s1 room))
      ]
