-- ===== src/Dns.antt =====
-- async_dns.c: the cache of addresses and the packet of a query. The queue of the cache is the list
-- of its entries, head first; strings are lists of their bytes, without the NUL. The packet is the
-- memory of `pkt`, which `calloc` has cleared, on a machine with the low byte first.
pub mod Cache
pub mod Packet
pub mod Response
pub mod Resolver
pub mod Datagrams
pub mod Init
pub mod Url
use crawler.Base.{
  ℕ, zero, suc, ◌+◌, ◌-◌, ◌%◌, ◌/◌, Bool, true, false, ◌&&◌, Option, none, some, List, [], ◌∷◌,
  ◌++◌, ◌==◌, ltb, leb, if◌then◌else◌, set, replicate,
}
use crawler.Base.Word.{u32, add32, sub32}
use crawler.Head.Fields.{equal}

pub record DnsCache : Type 0 where
  pub host : List ℕ
  pub sin_addr : ℕ

pub record CacheQueue : Type 0 where
  pub cache_queue : List DnsCache
  pub cache_count : ℕ

unfoldable pub find_cache : List DnsCache → List ℕ → Option DnsCache
find_cache [] host = none
find_cache (c ∷ cs) host = if equal c.host host then some c else find_cache cs host

-- `queue_remove(queue_last(&cache_queue))`.
unfoldable pub remove_last : List DnsCache → List DnsCache
remove_last [] = []
remove_last (c ∷ []) = []
remove_last (c ∷ (d ∷ cs)) = c ∷ remove_last (d ∷ cs)

abbrev pub shrink : CacheQueue → CacheQueue
shrink q =
    if ltb 50 q.cache_count
    then record { cache_queue = remove_last q.cache_queue; cache_count = sub32 q.cache_count 1 }
    else q

-- `set_cache`; the argument says whether `calloc` gives memory.
unfoldable pub set_cache : Bool → List ℕ → ℕ → CacheQueue → CacheQueue
set_cache calloc_ok host addr q =
    if calloc_ok
    then shrink (record {
      cache_queue = record { host = host; sin_addr = addr } ∷ q.cache_queue;
      cache_count = add32 q.cache_count 1;
    })
    else q

abbrev pub dns_udp_size : ℕ
dns_udp_size = 4096

-- `tolower` of ASCII.
abbrev pub tolower : ℕ → ℕ
tolower c = if leb b'A' c && leb c b'Z' then c + 32 else c

-- The header of `pack_udp`: id, flags 0x0100, one question.
abbrev pub dns_header : ℕ → List ℕ
dns_header id = id % 256 ∷ id / 256 ∷ 1 ∷ 0 ∷ 0 ∷ 1 ∷ 0 ∷ 0 ∷ 0 ∷ 0 ∷ 0 ∷ 0 ∷ []

-- The memory and the pointers `chunk_len` and `p`, as offsets.
pub record Packing : Type 0 where
  pub mem : List ℕ
  pub chunk_len : ℕ
  pub p : ℕ

-- `*chunk_len = p - chunk_len - 1`, a byte.
abbrev pub close_label : List ℕ → ℕ → ℕ → List ℕ
close_label mem chunk_len p = set mem chunk_len ((p - chunk_len - 1) % 256)

-- The body of the loop of `pack_udp`, and `++p`.
unfoldable pub pack_char : ℕ → Packing → Packing
pack_char c s =
    if c == b'.'
    then record { mem = close_label s.mem s.chunk_len s.p; chunk_len = s.p; p = s.p + 1 }
    else record {
      mem =
          if c == 0
          then close_label (set s.mem s.p (tolower c)) s.chunk_len s.p
          else set s.mem s.p (tolower c);
      chunk_len = s.chunk_len;
      p = s.p + 1;
    }

unfoldable pub pack_loop : List ℕ → Packing → Packing
pack_loop [] s = s
pack_loop (c ∷ cs) s = pack_loop cs (pack_char c s)

-- The bytes of QTYPE and QCLASS, and the length that is returned.
abbrev pub pack_end : Packing → List ℕ × ℕ
pack_end s = (set (set (set (set s.mem s.p 0) (s.p + 1) 1) (s.p + 2) 0) (s.p + 3) 1, s.p + 4)

-- `pack_udp(pkt, host)` on the cleared `pkt`; the loop takes the NUL behind the host too. A write
-- behind the memory is left out.
unfoldable pub pack_udp : ℕ → List ℕ → List ℕ × ℕ
pack_udp id host = pack_end (
    pack_loop (host ++ (0 ∷ []))
      (record { mem = dns_header id ++ replicate (dns_udp_size - 12) 0; chunk_len = 12; p = 13 }))
