-- ===== src/Dns/Response.antt =====
-- async_dns.c: `parse_udp` on the bytes of a datagram, up to what it makes of them. A pointer into
-- `pkt` is an offset. A read behind the `len` bytes that were received is `stray`.
pub mod Ends
pub mod Answer
use crawler.Base.{
  ℕ, zero, suc, ◌+◌, ◌-◌, ◌*◌, Bool, true, false, ◌&&◌, Option, none, some, List, [], ◌∷◌, ◌==◌,
  ltb, if◌then◌else◌, length, get_elem?, drop,
}
use crawler.Head.Fields.{◌>>=◌}

abbrev pub header_size : ℕ
header_size = 12

-- Two bytes, the high one first: `NTOHS`, or `htons` of a `uint16_t`.
unfoldable pub word_at : List ℕ → ℕ → Option ℕ
word_at pkt p = do high ← get_elem? pkt p; low ← get_elem? pkt (p + 1); some (high * 256 + low)

-- The first zero byte from p on, or the end; the argument is the packet from p on.
unfoldable pub skip_qname : List ℕ → ℕ → ℕ
skip_qname [] p = p
skip_qname (c ∷ cs) p = let rest = skip_qname cs (p + 1) in if c == 0 then p else rest

-- `while (*p && &p[12] < pkt + len) ++p`.
unfoldable pub skip_name : ℕ → List ℕ → ℕ → ℕ
skip_name len [] p = p
skip_name len (c ∷ cs) p =
    let rest = skip_name len cs (p + 1) in
    if c == 0 then p else if ltb (p + 12) len then rest else p

-- Where the record at p counts its type from.
abbrev pub record_start : List ℕ → ℕ → Option ℕ
record_start pkt p = do
  c ← get_elem? pkt p
  some (if c == 192 then p else skip_name (length pkt) (drop p pkt) p - 1)

-- How the loop over the records ends: `found` at p, not found, a read behind the packet, or never.
pub data Walk : Type 0 where
  found_at : ℕ → Walk
  not_found : Walk
  stray_walk : Walk
  endless_walk : Walk

abbrev pub on_type : List ℕ → ℕ → (ℕ → Walk) → Option ℕ → Walk
on_type pkt p loop none = stray_walk
on_type pkt p loop (some type) =
    if type == 5
    then after_cname (word_at pkt (p + 10))
    else if type == 1
    then found_at p
    else not_found
  where
    after_cname : Option ℕ → Walk
    after_cname none = stray_walk
    after_cname (some dlen) = loop (p + (12 + dlen))

abbrev pub on_record : List ℕ → (ℕ → Walk) → Option ℕ → Walk
on_record pkt loop none = stray_walk
on_record pkt loop (some p) = on_type pkt p loop (word_at pkt (p + 2))

-- The loop over the records, with fuel.
unfoldable pub walk : List ℕ → ℕ → ℕ → Walk
walk pkt zero p = endless_walk
walk pkt (suc fuel) p =
    if ltb (p + 12) (length pkt)
    then on_record pkt (λ p'. walk pkt fuel p') (record_start pkt p)
    else not_found

-- What becomes of the query: on to `failed`, done with an address, done without one, or what C
-- leaves open. The address is `s_addr`, on a machine with the low byte first.
pub data ReadAnswers : Type 0 where
  to_failed : ReadAnswers
  done_with : ℕ → ReadAnswers
  done_without : ReadAnswers
  stray : ReadAnswers
  endless : ReadAnswers

abbrev or_stray : Option ReadAnswers → ReadAnswers
or_stray none = stray
or_stray (some o) = o

-- The four bytes of the address, from p on.
unfoldable pub address_at : List ℕ → ℕ → Option ℕ
address_at pkt p = do
  a ← get_elem? pkt p
  b ← get_elem? pkt (p + 1)
  c ← get_elem? pkt (p + 2)
  d ← get_elem? pkt (p + 3)
  some (a + 256 * b + 65536 * c + 16777216 * d)

abbrev pub with_dlen : List ℕ → ℕ → Option ℕ → ReadAnswers
with_dlen pkt p none = stray
with_dlen pkt p (some dlen) =
    if dlen == 4 then with_address (address_at pkt (p + 12)) else to_failed
  where
    with_address : Option ℕ → ReadAnswers
    with_address none = stray
    with_address (some addr) = done_with addr

unfoldable pub after_walk : List ℕ → Walk → ReadAnswers
after_walk pkt (found_at p) =
    if ltb (p + 12) (length pkt) then with_dlen pkt p (word_at pkt (p + 10)) else done_without
after_walk pkt not_found = done_without
after_walk pkt stray_walk = stray
after_walk pkt endless_walk = endless

-- From the question on, of which p is the end of the name.
abbrev pub on_qtype : List ℕ → ℕ → Option ℕ → ReadAnswers
on_qtype pkt p none = stray
on_qtype pkt p (some qtype) =
    if qtype == 1 then after_walk pkt (walk pkt (length pkt) (p + 5)) else to_failed

abbrev pub from_name : List ℕ → ℕ → ReadAnswers
from_name pkt p =
    if ltb (length pkt) (p + 5) then to_failed else on_qtype pkt p (word_at pkt (p + 1))

unfoldable pub read_answers : List ℕ → ReadAnswers
read_answers pkt = from_name pkt (skip_qname (drop header_size pkt) header_size)
