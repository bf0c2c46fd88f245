-- ===== src/Dns/Response/Ends.antt =====
-- async_dns.c: the loop of `parse_udp` over the records of a datagram comes to an end.
use crawler.Base.{
  ℕ, zero, suc, ◌+◌, ◌-◌, ◌≤◌, ◌<◌, ◌≡◌, refl, ◌≢◌, inl, inr, Bool, true, false, Option, none, some,
  List, [], ◌∷◌, ◌==◌, ltb, if◌then◌else◌, length, drop, get_elem?, Bool-cases, Option-cases, arith,
}
use crawler.Dns.Response.{
  header_size, word_at, skip_qname, skip_name, record_start, Walk, found_at, not_found, stray_walk,
  endless_walk, on_type, on_record, walk, ReadAnswers, endless, address_at, after_walk,
  read_answers,
}

abbrev is_endless : Walk → Bool
is_endless endless_walk = true
is_endless _ = false

skip_name-le : (len : ℕ) (cs : List ℕ) (p : ℕ) → p ≤ skip_name len cs p
unfolding skip_name
skip_name-le len [] p = omega arith
skip_name-le len (c ∷ cs) p = ground (arith, skip_name-le len cs (p + 1))

skip_qname-le : (cs : List ℕ) (p : ℕ) → p ≤ skip_qname cs p
unfolding skip_qname
skip_qname-le [] p = omega arith
skip_qname-le (c ∷ cs) p = ground (arith, skip_qname-le cs (p + 1))

on_type-ends :
    (pkt : List ℕ) (q : ℕ) (loop : ℕ → Walk) (type : Option ℕ)
    → ((d : ℕ) → is_endless (loop (q + (12 + d))) ≡ false)
    → is_endless (on_type pkt q loop type) ≡ false
on_type-ends pkt q loop none h = refl
on_type-ends pkt q loop (some type) h = elim (Bool-cases (type == 5)) [
  | inr other ↦ elim (Bool-cases (type == 1)) [
    | inl a ↦ rw (other, a) refl
    | inr b ↦ rw (other, b) refl
  ]
  | inl cname ↦ elim (Option-cases (word_at pkt (q + 10))) [
    | inl bad ↦ rw (cname, bad) refl
    | inr (d, e) ↦ rw (cname, e) (h d)
  ]
]

on_record-ends :
    (pkt : List ℕ) (p : ℕ) (loop : ℕ → Walk)
    → ((q : ℕ) → p + 11 ≤ q → is_endless (loop q) ≡ false)
    → is_endless (on_record pkt loop (record_start pkt p)) ≡ false
on_record-ends pkt p loop h = elim (Option-cases (get_elem? pkt p)) [
  | inl bad ↦ rw bad refl
  | inr (c, e) ↦
      let q = if c == 192 then p else skip_name (length pkt) (drop p pkt) p - 1 in
      let far : p ≤ q + 1 = ground (arith, skip_name-le (length pkt) (drop p pkt) p) in
      rw e
        (on_type-ends pkt q loop (word_at pkt (q + 2)) (λ d. h (q + (12 + d)) (omega (arith, far))))
]

walk-ends :
    (pkt : List ℕ) (fuel p : ℕ)
    → 1 ≤ fuel
    → length pkt ≤ p + fuel
    → is_endless (walk pkt fuel p) ≡ false
unfolding walk
walk-ends pkt zero p some_fuel enough = absurd (omega arith)
walk-ends pkt (suc fuel) p some_fuel enough = elim (Bool-cases (ltb (p + 12) (length pkt))) [
  | inr behind ↦ rw behind refl
  | inl within ↦
      let more : p + 12 < length pkt = ground arith in
      rw within (
        on_record-ends pkt p (λ q. walk pkt fuel q)
          (λ q far. walk-ends pkt fuel q (omega arith) (omega arith)))
]

abbrev has_ended : ReadAnswers → Bool
has_ended endless = false
has_ended _ = true

after_walk-ends :
    (pkt : List ℕ) (w : Walk) → is_endless w ≡ false → has_ended (after_walk pkt w) ≡ true
unfolding after_walk
after_walk-ends pkt endless_walk h = ground arith
after_walk-ends pkt not_found h = refl
after_walk-ends pkt stray_walk h = refl
after_walk-ends pkt (found_at p) h = elim (Bool-cases (ltb (p + 12) (length pkt))) [
  | inr behind ↦ rw behind refl
  | inl within ↦ elim (Option-cases (word_at pkt (p + 10))) [
    | inl bad ↦ rw (within, bad) refl
    | inr (d, e) ↦ elim (Bool-cases (d == 4)) [
      | inr long ↦ rw (within, e, long) refl
      | inl four ↦ elim (Option-cases (address_at pkt (p + 12))) [
        | inl bad ↦ rw (within, e, four, bad) refl
        | inr (a, e') ↦ rw (within, e, four, e') refl
      ]
    ]
  ]
]

read_answers-has_ended : (pkt : List ℕ) → has_ended (read_answers pkt) ≡ true
unfolding read_answers
read_answers-has_ended pkt =
    let p = skip_qname (drop header_size pkt) header_size in
    elim (Bool-cases (ltb (length pkt) (p + 5))) [
      | inl short ↦ rw short refl
      | inr long ↦ elim (Option-cases (word_at pkt (p + 1))) [
        | inl bad ↦ rw (long, bad) refl
        | inr (qtype, e) ↦ elim (Bool-cases (qtype == 1)) [
          | inr other ↦ rw (long, e, other) refl
          | inl a ↦
              let some_fuel : 1 ≤ length pkt = ground arith in
              let fine = walk-ends pkt (length pkt) (p + 5) some_fuel (omega arith) in
              rw (long, e, a) (after_walk-ends pkt (walk pkt (length pkt) (p + 5)) fine)
        ]
      ]
    ]

-- For whatever datagram, the loop over its records ends.
pub read_answers_ends : (pkt : List ℕ) → read_answers pkt ≢ endless
read_answers_ends pkt e = ground (arith, read_answers-has_ended pkt, e)
