-- ===== src/Dns/Init.antt =====
-- `dns_init` of async_dns.c. A line of /etc/resolv.conf is what `sscanf` makes of it: the address of
-- a name server, or nothing. The calls of the system are arguments.
use crawler.Base.{ℕ, Bool, true, false, Option, none, some, List, [], ◌∷◌}
use crawler.Net.{Handler, read_of, World, put_ev}
use crawler.Tree.{TimerTree}
use crawler.Epoll.{Epoll, read_event, clear_event, Rc, done, failed, event_add}
use crawler.Dns.Resolver.{Resolver}
use crawler.Pool.{get_connection, close_connection}

-- The first name server; -1, where the buffer has been cleared; or, for an empty file, what C leaves
-- open: `strlen` of a buffer that was never written.
pub data NameServer : Type 0 where
  name_server : ℕ → NameServer
  no_name_server unread_line : NameServer

unfoldable pub first_server : List (Option ℕ) → NameServer
first_server [] = no_name_server
first_server (some addr ∷ lines) = name_server addr
first_server (none ∷ lines) = first_server lines

unfoldable pub read_resolv_conf : List (Option ℕ) → NameServer
read_resolv_conf [] = unread_line
read_resolv_conf (line ∷ lines) = first_server (line ∷ lines)

-- 0 with `dns_conn`, -1, or what C leaves open.
pub data DnsInit (W : Type 0) : Type 0 where
  dns_ready : ℕ → W → DnsInit W
  dns_failed : W → DnsInit W
  dns_undefined : DnsInit W

module _ (t : TimerTree) (ep : Epoll) (shut : ℕ → ep.Set → ep.Set) where
  abbrev pub on_added :
      ℕ → World t.Tree ep.Set → Rc (World t.Tree ep.Set) → DnsInit (World t.Tree ep.Set)
  on_added i w (done w') = dns_ready i w'
  on_added i w failed = dns_failed (close_connection t ep shut i w)

  abbrev pub on_connection : ℕ → Option ℕ × World t.Tree ep.Set → DnsInit (World t.Tree ep.Set)
  on_connection fd (none, w) = dns_failed (record w { epoll = shut fd w.epoll })
  on_connection fd (some i, w) =
      let w' =
        put_ev w (read_of i) (record (w.evs (read_of i)) { handler = Handler.dns_process_event }) in
      on_added i w' (event_add ep (read_of i) i read_event clear_event w')

  abbrev pub on_socket : Bool → Option ℕ → World t.Tree ep.Set → DnsInit (World t.Tree ep.Set)
  on_socket connected none w = dns_failed w
  on_socket true (some fd) w = on_connection fd (get_connection fd w)
  on_socket false (some fd) w = dns_failed w

  abbrev pub on_server :
      Option ℕ → Bool → World t.Tree ep.Set → NameServer → DnsInit (World t.Tree ep.Set)
  on_server socket connected w (name_server addr) = on_socket connected socket w
  on_server socket connected w no_name_server = dns_failed w
  on_server socket connected w unread_line = dns_undefined

  -- From `fopen` on. `conf` is the file, if it can be opened; `socket` what `socket` gives;
  -- `connected` whether `connect` succeeds.
  unfoldable pub open_dns :
      Option (List (Option ℕ))
      → Option ℕ
      → Bool
      → World t.Tree ep.Set
      → DnsInit (World t.Tree ep.Set)
  open_dns none socket connected w = dns_failed w
  open_dns (some conf) socket connected w = on_server socket connected w (read_resolv_conf conf)

  -- The two calls of `queue_init`; `cache_count` is left.
  abbrev pub no_queues : Resolver t.Tree ep.Set → Resolver t.Tree ep.Set
  no_queues s = record s { query_queue = []; cache = record s.cache { cache_queue = [] } }

  abbrev pub in_resolver :
      Resolver t.Tree ep.Set → DnsInit (World t.Tree ep.Set) → DnsInit (Resolver t.Tree ep.Set)
  in_resolver s (dns_ready i w) = dns_ready i (record s { world = w })
  in_resolver s (dns_failed w) = dns_failed (record s { world = w })
  in_resolver s dns_undefined = dns_undefined

  unfoldable pub dns_init :
      Option (List (Option ℕ))
      → Option ℕ
      → Bool
      → Resolver t.Tree ep.Set
      → DnsInit (Resolver t.Tree ep.Set)
  dns_init conf socket connected s =
      in_resolver (no_queues s) (open_dns conf socket connected s.world)
