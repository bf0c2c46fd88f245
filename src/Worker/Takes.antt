-- ===== src/Worker/Takes.antt =====
-- The start of a round of `work_process_cycle` in process_cycle.c, on the queues of the server.
use crawler.Base.{
  ℕ, suc, ◌^◌, ◌<◌, ◌≡◌, ◌≢◌, refl, sym, ap, ◌∙◌, inl, inr, Bool, true, false, ◌-◌, leb, Option,
  some, List, ◌∷◌, ltb, length, Bool-cases, arith,
}
use crawler.Base.Word.{u32}
use crawler.Head.Fields.{cstr, equal}
use crawler.Head.Equal.{equal-eq, equal_refl}
use crawler.Redis.Lists.{ListCommand, ListReply, redis_list_length, redis_list_lpop}
use crawler.Redis.Lists.Fifo.{Queues, put_queue, IsListServer}
use crawler.Net.{World}
use crawler.Tree.{TimerTree}
use crawler.Pool.{get_free_connection_n}
use crawler.Parser.Links.{list_key}
use crawler.Dns.Resolver.{HttpUrl, Resolver, dns_query}
use crawler.Dns.Url.{ParsedUrl, new_url, create_http_url}
use crawler.Worker.{take_url}
use crawler.Socket.Send.{Room, room_for}
use crawler.Dns.{find_cache, dns_udp_size}
use crawler.Dns.Resolver.Asks.{Asked, dns_query-Asked}
use crawler.Worker.Keys.{list_key_inj}

other_queue :
    (m n : ℕ) (l : List (List ℕ)) (q : Queues)
    → m ≢ n
    → m < 10 ^ 10
    → n < 10 ^ 10
    → put_queue (list_key n) l q (list_key m) ≡ q (list_key m)
other_queue m n l q differs hm hn = elim (Bool-cases (equal (list_key n) (list_key m))) [
  | inr other ↦ rw other refl
  | inl same ↦
      absurd (differs (list_key_inj m n hm hn (sym (equal-eq (list_key n) (list_key m) same))))
]

own_queue : (n : ℕ) (l : List (List ℕ)) (q : Queues) → put_queue (list_key n) l q (list_key n) ≡ l
own_queue n l q = rw (equal_refl (list_key n)) refl

module _ {Db : Type 0} (list_command : ListCommand → Db → Option ListReply × Db)
    (queues : Db → Queues) (law : IsListServer list_command queues) (t : TimerTree) {Set : Type 0}
    (dns_conn : ℕ) (handler : HttpUrl → ℕ → World t.Tree Set → World t.Tree Set)
    (http_parser_parse_url : List ℕ → Option ParsedUrl) where
  -- A round that takes the text from the queue of worker n; `rest` stays there, and the queue of
  -- worker m is not touched; and it asks for the address of the host. `false` is a round that does
  -- nothing.
  abbrev pub Takes :
      ℕ
      → ℕ
      → List (List ℕ)
      → HttpUrl
      → List Room
      → Db
      → Resolver t.Tree Set
      → Bool
      → Option (Db × Resolver t.Tree Set)
      → Type 0
  Takes m n rest url ks db s false r = r ≡ some (db, s)
  Takes m n rest url ks db s true r =
      (db' : Db) × (s' : Resolver t.Tree Set) × (r ≡ some (db', s'))
      × Asked t dns_conn handler url ks s (find_cache s.cache.cache_queue url.host) s'
      × (queues db' (list_key n) ≡ rest)
      × (queues db' (list_key m) ≡ queues db (list_key m))

  -- The server carries out every command, there is memory, the socket of the resolver has room, and
  -- the first text in the queue of the worker is a URL, with a host that fits a packet. A worker
  -- with more free connections than the threshold takes that text, and what stood behind it stays,
  -- as the queue of another worker does; and it asks for the host: the callback gets the address
  -- that the cache has, or a new query with its packet waits under a timer. A worker with no more
  -- free connections than the threshold does nothing.
  pub take_url-Takes :
      (threshold now a : ℕ) (calloc_ok : ℕ → Bool) (m n : ℕ) (db : Db) (s : Resolver t.Tree Set)
      (text : List ℕ) (rest : List (List ℕ)) (url : HttpUrl) (ks : List Room)
      → queues db (list_key n) ≡ text ∷ rest
      → length rest < 2147483647
      → calloc_ok 0 ≡ true
      → calloc_ok 3 ≡ true
      → create_http_url http_parser_parse_url (calloc_ok 1) (calloc_ok 2) (cstr text) ≡ new_url url
      → leb (dns_udp_size - 14) (length url.host) ≡ false
      → s.kernel ≡ room_for a ∷ ks
      → m ≢ n
      → m < 10 ^ 10
      → n < 10 ^ 10
      → Takes m n rest url ks db s (ltb threshold (get_free_connection_n s.world)) (
          take_url list_command t dns_conn handler http_parser_parse_url threshold now calloc_ok n
            db s)
  unfolding take_url redis_list_length redis_list_lpop
  take_url-Takes threshold now a calloc_ok m n db s text rest url ks queue few copied asks made
        short room differs hm hn =
      let (db', run, after) = law.lpop_first (list_key n) text rest db queue in
      let n_left : u32 (length (text ∷ rest)) ≡ suc (length rest) = ground arith in
      let positive : ltb (suc (length rest)) 2147483648 ≡ true = ground arith in
      let some_text : ltb 0 (suc (length rest)) ≡ true = ground arith in
      elim (Bool-cases (ltb threshold (get_free_connection_n s.world))) [
        | inr few_free ↦ rw few_free refl
        | inl free ↦ rw free (
          db',
          (dns_query t dns_conn handler now true url s).1,
          rw (law.llen (list_key n) db, queue, n_left, some_text, positive, copied, run, made, asks)
              refl,
          dns_query-Asked t dns_conn handler now a url ks s short room,
          ap (λ (q : Queues). q (list_key n)) after ∙ own_queue n rest (queues db),
          ap (λ (q : Queues). q (list_key m)) after
              ∙ other_queue m n rest (queues db) differs hm hn,
        )
      ]
