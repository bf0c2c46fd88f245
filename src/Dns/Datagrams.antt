-- ===== src/Dns/Datagrams.antt =====
-- `dns_process_event` of async_dns.c: every datagram that is on the socket is read and parsed.
pub mod Drained
use crawler.Base.{ℕ, zero, suc, Bool, Option, none, some, List, ltb, if◌then◌else◌, length}
use crawler.Net.{read_of, Event, World, put_ev}
use crawler.Tree.{TimerTree}
use crawler.Socket.Send.{Datagram, UdpRet, packet, unix_udp_recv}
use crawler.Dns.{dns_udp_size}
use crawler.Dns.Resolver.{HttpUrl, Resolver, parse_udp}

-- The handler returns with the state and what is on the socket; comes to what C leaves open; or has
-- no fuel left.
pub data Heard (S : Type 0) : Type 0 where
  heard : S → List Datagram → Heard S
  heard_undefined : Heard S
  heard_endless : Heard S

module _ (t : TimerTree) {Set : Type 0} (dns_conn : ℕ)
    (handler : HttpUrl → ℕ → World t.Tree Set → World t.Tree Set) (clock : ℕ → ℕ)
    (calloc_ok : ℕ → Bool) where
  abbrev pub put_rev : Event → Resolver t.Tree Set → Resolver t.Tree Set
  put_rev rev s = record s { world = put_ev s.world (read_of dns_conn) rev }

  abbrev pub then_read :
      (Resolver t.Tree Set → Heard (Resolver t.Tree Set))
      → Option (Resolver t.Tree Set)
      → Heard (Resolver t.Tree Set)
  then_read loop none = heard_undefined
  then_read loop (some s) = loop s

  -- `sizeof(dns_header_t)` is 14.
  abbrev pub on_received :
      ℕ
      → Resolver t.Tree Set
      → (List Datagram → Resolver t.Tree Set → Heard (Resolver t.Tree Set))
      → UdpRet
      → List Datagram
      → Heard (Resolver t.Tree Set)
  on_received n s loop (packet pkt) q =
      if ltb (length pkt) 14
      then loop q s
      else then_read (λ s'. loop q s') (parse_udp t dns_conn handler (clock n) (calloc_ok n) pkt s)
  on_received n s loop _ q = heard s q

  -- The loop, with fuel; the n-th round reads `clock n` and asks `calloc_ok n`.
  unfoldable pub dns_process_event :
      ℕ → ℕ → List Datagram → Resolver t.Tree Set → Heard (Resolver t.Tree Set)
  dns_process_event zero n q s = heard_endless
  dns_process_event (suc fuel) n q s =
      let r = unix_udp_recv dns_udp_size q (s.world.evs (read_of dns_conn)) in
      on_received n (put_rev r.rev s) (λ q' s'. dns_process_event fuel (suc n) q' s') r.ret r.queue
