-- ===== src/Dns/Response/Answer.antt =====
-- async_dns.c: `parse_udp` on the response of a name server: a question, records of type CNAME, and
-- one of type A.
use mathlib.Core.Path.{subst}
use crawler.Base.{
  ℕ, zero, suc, ◌+◌, ◌*◌, ◌/◌, ◌%◌, ◌≤◌, ◌<◌, ◌≡◌, refl, sym, ap, ◌∙◌, true, false, some, List, [],
  ◌∷◌, ◌++◌, append_assoc, ◌==◌, ltb, length, drop, get_elem?, length-append, drop-append_length,
  arith,
}
use crawler.Dns.Response.{
  header_size, word_at, skip_qname, from_name, record_start, found_at, walk, done_with, address_at,
  after_walk, read_answers,
}

-- What stands between the type of a record and the length of its data: class and time to live.
pub record Middle : Type 0 where
  pub class_high : ℕ
  pub class_low : ℕ
  pub ttl0 : ℕ
  pub ttl1 : ℕ
  pub ttl2 : ℕ
  pub ttl3 : ℕ

pub record Cname : Type 0 where
  pub pointer : ℕ
  pub middle : Middle
  pub target : List ℕ

-- A record whose name is a pointer, with its data and what follows.
abbrev record_bytes : ℕ → ℕ → Middle → ℕ → List ℕ → List ℕ
record_bytes pointer type m n rest =
    192
    ∷ pointer
    ∷ 0
    ∷ type
    ∷ m.class_high
    ∷ m.class_low
    ∷ m.ttl0
    ∷ m.ttl1
    ∷ m.ttl2
    ∷ m.ttl3
    ∷ n / 256
    ∷ n % 256
    ∷ rest

abbrev pub cname_bytes : List Cname → List ℕ → List ℕ
cname_bytes [] rest = rest
cname_bytes (c ∷ cs) rest =
    record_bytes c.pointer 5 c.middle (length c.target) (c.target ++ cname_bytes cs rest)

abbrev pub address_bytes : ℕ → Middle → ℕ → ℕ → ℕ → ℕ → List ℕ → List ℕ
address_bytes pointer m a b c d rest = record_bytes pointer 1 m 4 (a ∷ b ∷ c ∷ d ∷ rest)

get-append : (pre xs : List ℕ) (k : ℕ) → get_elem? (pre ++ xs) (length pre + k) ≡ get_elem? xs k
get-append [] xs k = let e : 0 + k ≡ k = omega arith in ap (get_elem? xs) e
get-append (x ∷ pre) xs k =
    let e : suc (length pre) + k ≡ suc (length pre + k) = omega arith in
    ap (get_elem? (x ∷ (pre ++ xs))) e ∙ get-append pre xs k

get-append_first :
    (pre : List ℕ) (x : ℕ) (xs : List ℕ) → get_elem? (pre ++ (x ∷ xs)) (length pre) ≡ some x
get-append_first [] x xs = refl
get-append_first (y ∷ pre) x xs = get-append_first pre x xs

word_at-append : (pre xs : List ℕ) (k : ℕ) → word_at (pre ++ xs) (length pre + k) ≡ word_at xs k
unfolding word_at
word_at-append pre xs k =
    let e : length pre + k + 1 ≡ length pre + (k + 1) = omega arith in
    rw (e, get-append pre xs k, get-append pre xs (k + 1)) refl

-- A packet with a record at the end of `pre`, and data or more behind it.
module _ (pre : List ℕ) (pointer type : ℕ) (m : Middle) (n : ℕ) (rest : List ℕ)
    (more : 0 < length rest) where
  abbrev at_record : List ℕ
  at_record = pre ++ record_bytes pointer type m n rest

  within : ltb (length pre + 12) (length at_record) ≡ true
  within = let e = length-append pre (record_bytes pointer type m n rest) in ground (arith, e)

  record_type : word_at at_record (length pre + 2) ≡ some type
  unfolding word_at
  record_type =
      word_at-append pre (record_bytes pointer type m n rest) 2
      ∙ (let e : 0 * 256 + type ≡ type = omega arith in ap some e)

  record_length : word_at at_record (length pre + 10) ≡ some n
  unfolding word_at
  record_length =
      word_at-append pre (record_bytes pointer type m n rest) 10
      ∙ (let e : n / 256 * 256 + n % 256 ≡ n = omega arith in ap some e)

  start_of : record_start at_record (length pre) ≡ some (length pre)
  start_of = rw (get-append_first pre 192 _) refl

walk-cname :
    (pre : List ℕ) (pointer : ℕ) (m : Middle) (n : ℕ) (rest : List ℕ) (fuel : ℕ)
    (more : 0 < length rest)
    → let pkt = at_record pre pointer 5 m n rest more in
      walk pkt (suc fuel) (length pre) ≡ walk pkt fuel (length pre + (12 + n))
unfolding walk
walk-cname pre pointer m n rest fuel more =
    rw
      (
        within pre pointer 5 m n rest more,
        start_of pre pointer 5 m n rest more,
        record_type pre pointer 5 m n rest more,
        record_length pre pointer 5 m n rest more,
      )
      refl

walk-address :
    (pre : List ℕ) (pointer : ℕ) (m : Middle) (n : ℕ) (rest : List ℕ) (fuel : ℕ)
    (more : 0 < length rest)
    → walk (at_record pre pointer 1 m n rest more) (suc fuel) (length pre) ≡ found_at (length pre)
unfolding walk
walk-address pre pointer m n rest fuel more =
    rw
      (
        within pre pointer 1 m n rest more,
        start_of pre pointer 1 m n rest more,
        record_type pre pointer 1 m n rest more,
      )
      refl

append-record :
    (pre : List ℕ) (pointer type : ℕ) (m : Middle) (n : ℕ) (bytes rest : List ℕ)
    → pre ++ record_bytes pointer type m n (bytes ++ rest)
      ≡ (pre ++ record_bytes pointer type m n bytes) ++ rest
append-record pre pointer type m n bytes rest =
    sym (append_assoc pre (record_bytes pointer type m n bytes) rest)

module _ (pointer : ℕ) (m : Middle) (a b c d : ℕ) (rest : List ℕ) where
  abbrev records : List Cname → List ℕ
  records cs = cname_bytes cs (address_bytes pointer m a b c d rest)

  records-more : (cs : List Cname) → 0 < length (records cs)
  records-more [] = omega arith
  records-more (r ∷ cs) = omega arith

  address_at-append :
      (pre : List ℕ)
      → address_at (pre ++ records []) (length pre + 12)
        ≡ some (a + 256 * b + 65536 * c + 16777216 * d)
  unfolding address_at
  address_at-append pre =
      let e1 : length pre + 12 + 1 ≡ length pre + 13 = omega arith in
      let e2 : length pre + 12 + 2 ≡ length pre + 14 = omega arith in
      let e3 : length pre + 12 + 3 ≡ length pre + 15 = omega arith in
      rw
        (
          e1,
          e2,
          e3,
          get-append pre (records []) 12,
          get-append pre (records []) 13,
          get-append pre (records []) 14,
          get-append pre (records []) 15,
        )
        refl

  walk-records :
      (cs : List Cname) (pre : List ℕ) (fuel : ℕ)
      → length cs < fuel
      → let pkt = pre ++ records cs in
        after_walk pkt (walk pkt fuel (length pre))
        ≡ done_with (a + 256 * b + 65536 * c + 16777216 * d)
  unfolding after_walk
  walk-records cs pre zero enough = absurd (omega arith)
  walk-records [] pre (suc fuel) enough =
      let tail = a ∷ b ∷ c ∷ d ∷ rest in
      let more : 0 < length tail = omega arith in
      rw
        (
          walk-address pre pointer m 4 tail fuel more,
          within pre pointer 1 m 4 tail more,
          record_length pre pointer 1 m 4 tail more,
          address_at-append pre,
        )
        refl
  walk-records (r ∷ cs) pre (suc fuel) enough =
      let tail = records cs in
      let n = length r.target in
      let pre' = pre ++ record_bytes r.pointer 5 r.middle n r.target in
      let more : 0 < length (r.target ++ tail) =
        omega (arith, records-more cs, length-append r.target tail) in
      let far : length pre + (12 + n) ≡ length pre' =
        omega (arith, length-append pre (record_bytes r.pointer 5 r.middle n r.target)) in
      rw
        (
          walk-cname pre r.pointer r.middle n (r.target ++ tail) fuel more,
          far,
          append-record pre r.pointer 5 r.middle n r.target tail,
        )
        (walk-records cs pre' fuel (omega arith))

-- A name ends at its first zero byte.
abbrev pub AreNonzero : List ℕ → Type 0
AreNonzero [] = Unit {0}
AreNonzero (c ∷ cs) = ((c == 0) ≡ false) × AreNonzero cs

skip_qname-append :
    (name rest : List ℕ) (p : ℕ)
    → AreNonzero name
    → skip_qname (name ++ (0 ∷ rest)) p ≡ p + length name
unfolding skip_qname
skip_qname-append [] rest p h = omega arith
skip_qname-append (c ∷ cs) rest p (h, hs) =
    let e : p + 1 + length cs ≡ p + suc (length cs) = omega arith in
    rw h (skip_qname-append cs rest (p + 1) hs ∙ e)

-- A datagram: a header, one question of type A, and records.
abbrev pub response : List ℕ → List ℕ → ℕ → ℕ → List ℕ → List ℕ
response header qname high low answers = header ++ (qname ++ (0 ∷ 0 ∷ 1 ∷ high ∷ low ∷ answers))

qtype_of : (h l : ℕ) (rest : List ℕ) → word_at (0 ∷ 0 ∷ 1 ∷ h ∷ l ∷ rest) 1 ≡ some 1
unfolding word_at
qtype_of h l rest = refl

records-le : (cs : List Cname) (tail : List ℕ) → length cs ≤ length (cname_bytes cs tail)
records-le [] tail = omega arith
records-le (r ∷ cs) tail =
    omega (arith, records-le cs tail, length-append r.target (cname_bytes cs tail))

module _ (pointer : ℕ) (m : Middle) (a b c d : ℕ) (rest : List ℕ) (high low : ℕ)
    (cs : List Cname) where
  abbrev answers : List ℕ
  answers = records pointer m a b c d rest cs

  abbrev address : ℕ
  address = a + 256 * b + 65536 * c + 16777216 * d

  from_name-answers :
      (pre : List ℕ)
      → let pkt = pre ++ (0 ∷ 0 ∷ 1 ∷ high ∷ low ∷ answers) in
        from_name pkt (length pre) ≡ done_with address
  from_name-answers pre =
      let tail = 0 ∷ 0 ∷ 1 ∷ high ∷ low ∷ answers in
      let pkt = pre ++ tail in
      let pre' = pre ++ (0 ∷ 0 ∷ 1 ∷ high ∷ low ∷ []) in
      let size = length-append pre tail in
      let whole : ltb (length pkt) (length pre + 5) ≡ false = ground (arith, size) in
      let far : length pre + 5 ≡ length pre' =
        omega (arith, length-append pre (0 ∷ 0 ∷ 1 ∷ high ∷ low ∷ [])) in
      let type : word_at pkt (length pre + 1) ≡ some 1 =
        word_at-append pre tail 1 ∙ qtype_of high low answers in
      let enough : length cs < length pkt =
        omega (arith, size, records-le cs (address_bytes pointer m a b c d rest)) in
      let same = append_assoc pre (0 ∷ 0 ∷ 1 ∷ high ∷ low ∷ []) answers in
      let goal =
        λ (l : List ℕ). after_walk l (walk l (length pkt) (length pre')) ≡ done_with address in
      rw (whole, type, far)
        (subst goal same (walk-records pointer m a b c d rest cs pre' (length pkt) enough))

  -- Whatever the header, a question of type A, any number of records of type CNAME and a record of
  -- type A, whose names are pointers, give the address of the last one, whatever follows it.
  pub read_answers-response :
      (header qname : List ℕ)
      → length header ≡ header_size
      → AreNonzero qname
      → read_answers (response header qname high low answers) ≡ done_with address
  unfolding read_answers
  read_answers-response header qname size name =
      let tail = 0 ∷ 1 ∷ high ∷ low ∷ answers in
      let body = qname ++ (0 ∷ tail) in
      let dropped : drop header_size (header ++ body) ≡ body =
        subst (λ n. drop n (header ++ body) ≡ body) size (drop-append_length header body) in
      let end : skip_qname body header_size ≡ length (header ++ qname) =
        skip_qname-append qname tail header_size name
        ∙ omega (arith, size, length-append header qname) in
      let joined : header ++ body ≡ (header ++ qname) ++ (0 ∷ tail) =
        sym (append_assoc header qname (0 ∷ tail)) in
      rw (dropped, end, joined) (from_name-answers (header ++ qname))
