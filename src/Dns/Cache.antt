-- ===== src/Dns/Cache.antt =====
-- The cache of async_dns.c: find_cache after set_cache, and the counter.
use crawler.Base.{
  ℕ, ◌<◌, ◌≤◌, ◌≡◌, refl, inl, inr, true, false, some, List, [], ◌∷◌, arith, length, ltb,
  Bool-cases,
}
use crawler.Base.Word.{add32}
use crawler.Head.Fields.{equal}
use crawler.Head.Equal.{equal_refl}
use crawler.Dns.{DnsCache, CacheQueue, find_cache, remove_last, set_cache}

-- The counter is the number of the entries, of which there are at most 50.
abbrev pub IsCache : CacheQueue → Type 0
IsCache q = (q.cache_count ≡ length q.cache_queue) × (q.cache_count ≤ 50)

length-remove_last : (cs : List DnsCache) (c : DnsCache) → length (remove_last (c ∷ cs)) ≡ length cs
unfolding remove_last
length-remove_last [] c = refl
length-remove_last (d ∷ cs) c = ground (arith, length-remove_last cs d)

-- The first of two entries is not the last.
find-remove_last :
    (cs : List DnsCache) (c : DnsCache) (host : List ℕ)
    → 0 < length cs
    → equal c.host host ≡ true
    → find_cache (remove_last (c ∷ cs)) host ≡ some c
unfolding remove_last find_cache
find-remove_last [] c host h e = absurd (omega arith)
find-remove_last (d ∷ cs) c host h e = rw e refl

-- `set_cache` keeps the cache in order; memory is given, and then the address that was put in is
-- the one that `find_cache` gives for the host; and what it gives for another host it gave before,
-- unless there were 50 entries and so one is dropped.
pub set_cache-IsCache :
    (host : List ℕ) (addr : ℕ) (q : CacheQueue)
    → IsCache q
    → let q' = set_cache true host addr q in
      IsCache q'
      × (find_cache q'.cache_queue host ≡ some (record { host = host; sin_addr = addr }))
      × ((other : List ℕ)
          → equal host other ≡ false
          → q.cache_count < 50
          → find_cache q'.cache_queue other ≡ find_cache q.cache_queue other)
unfolding set_cache find_cache
set_cache-IsCache host addr q (count, few) = elim (Bool-cases (ltb 50 (add32 q.cache_count 1))) [
  | inr room ↦ rw room (
    (ground arith, ground arith),
    rw (equal_refl host) refl,
    λ other differs less. rw differs refl,
  )
  | inl full ↦ rw full (
    (
      ground (arith, length-remove_last q.cache_queue (record { host = host; sin_addr = addr })),
      ground arith,
    ),
    find-remove_last q.cache_queue (record { host = host; sin_addr = addr }) host (ground arith)
        (equal_refl host),
    λ other differs less. ground arith,
  )
]
