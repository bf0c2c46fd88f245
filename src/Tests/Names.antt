-- ===== src/Tests/Names.antt =====
-- The packet of a query and the cache of addresses.
use crawler.Base.{ℕ, ◌<◌, ◌≡◌, refl, true, false, some, List, [], ◌∷◌, ◌++◌, arith, length, take}
use crawler.Head.Fields.{codes, equal}
use crawler.Dns.{CacheQueue, find_cache, set_cache, pack_udp}
use crawler.Dns.Cache.{IsCache, set_cache-IsCache}
use crawler.Dns.Packet.{dotted, wire, question_end, query_header, pack_udp-wire}

abbrev one_entry : CacheQueue
one_entry = record { cache_queue = record { host = codes "a"; sin_addr = 1 } ∷ []; cache_count = 1 }

abbrev two_entries : CacheQueue
two_entries = set_cache true (codes "b") 2 one_entry

set_cache-IsCache_example :
    IsCache two_entries
    × (find_cache two_entries.cache_queue (codes "b")
        ≡ some (record { host = codes "b"; sin_addr = 2 }))
    × ((other : List ℕ)
        → equal (codes "b") other ≡ false
        → 1 < 50
        → find_cache two_entries.cache_queue other ≡ find_cache one_entry.cache_queue other)
set_cache-IsCache_example = set_cache-IsCache (codes "b") 2 one_entry (refl, omega arith)

abbrev labels : List (List ℕ)
labels = codes "Example" ∷ codes "com" ∷ []

pack_udp-wire_example :
    let question = query_header 258 ++ (wire (codes "www") labels ++ question_end) in
    let (pkt, len) = pack_udp 258 (dotted (codes "www") labels) in
    (len ≡ length question) × (take len pkt ≡ question)
pack_udp-wire_example =
    pack_udp-wire 258 (codes "www") labels
      (
        ((refl, (refl, (refl, tt))), omega arith, omega arith),
        (
          ((refl, (refl, (refl, (refl, (refl, (refl, (refl, tt))))))), omega arith, omega arith),
          ((refl, (refl, (refl, tt))), omega arith, omega arith),
        ),
      )
      (omega arith)
