-- ===== src/Dns/Packet.antt =====
-- The packet of `pack_udp` in async_dns.c, against the wire format of a question.
use mathlib.Core.Path.{subst}
use crawler.Base.{
  ℕ, suc, ◌+◌, ◌-◌, ◌%◌, ◌/◌, ◌<◌, ◌≤◌, ◌≡◌, refl, sym, ap, ◌∙◌, true, false, not, ◌||◌, List, [],
  ◌∷◌, ◌++◌, map, append_assoc, append-nil, arith, length, take, set, replicate, ◌==◌,
  length-append, set-append_length, take-append_length,
}
use crawler.Dns.{
  dns_udp_size, tolower, dns_header, Packing, close_label, pack_char, pack_loop, pack_end, pack_udp,
}

-- A host name of labels, at least one, with a dot between two.
abbrev pub dotted : List ℕ → List (List ℕ) → List ℕ
dotted l [] = l
dotted l (m ∷ ms) = l ++ (b'.' ∷ dotted m ms)

-- Each label in lower case behind its length, and the root.
abbrev pub wire : List ℕ → List (List ℕ) → List ℕ
wire l [] = length (map tolower l) ∷ (map tolower l ++ (0 ∷ []))
wire l (m ∷ ms) = length (map tolower l) ∷ (map tolower l ++ wire m ms)

-- Neither a dot nor a NUL; a label has 1 to 63 bytes.
abbrev pub AreInLabel : List ℕ → Type 0
AreInLabel [] = Unit {0}
AreInLabel (c ∷ cs) = (not (c == b'.' || c == 0) ≡ true) × AreInLabel cs

abbrev pub AreLabels : List ℕ → List (List ℕ) → Type 0
AreLabels l [] = AreInLabel l × (0 < length l) × (length l < 64)
AreLabels l (m ∷ ms) = (AreInLabel l × (0 < length l) × (length l < 64)) × AreLabels m ms

set_behind :
    (done low ys : List ℕ) (x y v : ℕ)
    → set (done ++ (x ∷ (low ++ (y ∷ ys)))) (length done + (1 + length low)) v
      ≡ done ++ (x ∷ (low ++ (v ∷ ys)))
set_behind [] low ys x y v =
    let e : 0 + (1 + length low) ≡ suc (length low) = omega arith in
    ap (λ n. set (x ∷ (low ++ (y ∷ ys))) n v) e ∙ ap (λ l. x ∷ l) (set-append_length low y v ys)
set_behind (d ∷ done) low ys x y v =
    let e : suc (length done) + (1 + length low) ≡ suc (length done + (1 + length low)) =
      omega arith in
    ap (λ n. set (d ∷ (done ++ (x ∷ (low ++ (y ∷ ys))))) n v) e
    ∙ ap (λ l. d ∷ l) (set_behind done low ys x y v)

-- Behind `done` the label is open, with the bytes `low`; then there are k cleared bytes.
abbrev packing : List ℕ → List ℕ → ℕ → Packing
packing done low k = record {
  mem = done ++ (0 ∷ (low ++ replicate k 0));
  chunk_len = length done;
  p = length done + (1 + length low);
}

pack_char-plain :
    (c : ℕ) (done low : List ℕ) (k : ℕ)
    → not (c == b'.' || c == 0) ≡ true
    → pack_char c (packing done low (suc k)) ≡ packing done (low ++ (tolower c ∷ [])) k
unfolding pack_char
pack_char-plain c done low k h =
    let dot : (c == b'.') ≡ false = ground arith in
    let nul : (c == 0) ≡ false = ground arith in
    let e1 = set_behind done low (replicate k 0) 0 0 (tolower c) in
    let e2 = append_assoc low (tolower c ∷ []) (replicate k 0) in
    let e3 : length done + (1 + length low) + 1
        ≡ length done + (1 + length (low ++ (tolower c ∷ []))) =
      omega (arith, length-append low (tolower c ∷ [])) in
    rw (dot, nul, e1, e2, e3) refl

pack_loop-plain :
    (cs more done low : List ℕ) (k : ℕ)
    → AreInLabel cs
    → pack_loop (cs ++ more) (packing done low (length cs + k))
      ≡ pack_loop more (packing done (low ++ map tolower cs) k)
unfolding pack_loop
pack_loop-plain [] more done low k h = let e : 0 + k ≡ k = omega arith in rw (e, append-nil) refl
pack_loop-plain (c ∷ cs) more done low k (h, hs) =
    let e : suc (length cs) + k ≡ suc (length cs + k) = omega arith in
    ap (λ n. pack_loop (cs ++ more) (pack_char c (packing done low n))) e
    ∙ ap (pack_loop (cs ++ more)) (pack_char-plain c done low (length cs + k) h)
    ∙ pack_loop-plain cs more done (low ++ (tolower c ∷ [])) k hs
    ∙ ap (λ l. pack_loop more (packing done l k))
        (append_assoc low (tolower c ∷ []) (map tolower cs))

label_length :
    (done low ys : List ℕ) (y : ℕ)
    → length low < 256
    → close_label (done ++ (y ∷ ys)) (length done) (length done + (1 + length low))
      ≡ done ++ (length low ∷ ys)
label_length done low ys y h =
    let e : (length done + (1 + length low) - length done - 1) % 256 ≡ length low = omega arith in
    rw e (set-append_length done y (length low) ys)

pack_char-dot :
    (done low : List ℕ) (k : ℕ)
    → length low < 256
    → pack_char b'.' (packing done low (suc k)) ≡ packing (done ++ (length low ∷ low)) [] k
unfolding pack_char
pack_char-dot done low k h =
    let e1 = label_length done low (low ++ (0 ∷ replicate k 0)) 0 h in
    let e2 = append_assoc done (length low ∷ low) (0 ∷ replicate k 0) in
    let e3 : length done + (1 + length low) ≡ length (done ++ (length low ∷ low)) =
      omega (arith, length-append done (length low ∷ low)) in
    let e4 : length (done ++ (length low ∷ low)) + 1
        ≡ length (done ++ (length low ∷ low)) + (1 + 0) =
      omega arith in
    rw (e1, e2, e3, e4) refl

-- The packet so far is w, with k cleared bytes behind `p`.
record Packed (s : Packing) (w : List ℕ) (k : ℕ) : Type 0 where
  mem_is : s.mem ≡ w ++ replicate k 0
  p_is : s.p ≡ length w

pack_char-nul :
    (done low : List ℕ) (k : ℕ)
    → length low < 256
    → Packed (pack_char 0 (packing done low (suc k))) (done ++ (length low ∷ (low ++ (0 ∷ [])))) k
unfolding pack_char
pack_char-nul done low k h =
    let e0 = set_behind done low (replicate k 0) 0 0 0 in
    let e1 = label_length done low (low ++ (0 ∷ replicate k 0)) 0 h in
    record {
      mem_is = rw (e0, e1, append_assoc done, append_assoc low) refl;
      p_is =
          omega (
            arith,
            length-append done (length low ∷ (low ++ (0 ∷ []))),
            length-append low (0 ∷ []),
          );
    }

-- The loop over a label and what is behind it.
pack_loop-label :
    (cs more done : List ℕ) (c k : ℕ)
    → AreInLabel cs
    → pack_loop (cs ++ (c ∷ more)) (packing done [] (length cs + k))
      ≡ pack_loop more (pack_char c (packing done (map tolower cs) k))
unfolding pack_loop
pack_loop-label cs more done c k h = pack_loop-plain cs (c ∷ more) done [] k h

length-map_lower : (l : List ℕ) → length (map tolower l) ≡ length l
length-map_lower [] = refl
length-map_lower (c ∷ l) = ap suc (length-map_lower l)

pack_loop-wire :
    (ms : List (List ℕ)) (l done : List ℕ) (k : ℕ)
    → AreLabels l ms
    → Packed
        (pack_loop (dotted l ms ++ (0 ∷ [])) (packing done [] (length (dotted l ms) + suc k)))
        (done ++ wire l ms)
        k
unfolding pack_loop
pack_loop-wire [] l done k (h, some_byte, short) =
    let n = length-map_lower l in
    subst (λ s. Packed s (done ++ wire l []) k) (sym (pack_loop-label l [] done 0 (suc k) h))
      (pack_char-nul done (map tolower l) k (omega arith))
pack_loop-wire (m ∷ ms) l done k ((h, some_byte, short), hs) =
    let n = length-map_lower l in
    let e : length (l ++ (b'.' ∷ dotted m ms)) + suc k
        ≡ length l + suc (length (dotted m ms) + suc k) =
      omega (arith, length-append l (b'.' ∷ dotted m ms)) in
    let low = map tolower l in
    let k' = length (dotted m ms) + suc k in
    let rest = pack_loop-wire ms m (done ++ (length low ∷ low)) k hs in
    let whole : (done ++ (length low ∷ low)) ++ wire m ms ≡ done ++ wire l (m ∷ ms) =
      append_assoc done (length low ∷ low) (wire m ms) in
    let steps =
      ap (λ xs. pack_loop xs (packing done [] (length (dotted l (m ∷ ms)) + suc k)))
        (append_assoc l (b'.' ∷ dotted m ms) (0 ∷ []))
      ∙ ap (λ j. pack_loop (l ++ (b'.' ∷ (dotted m ms ++ (0 ∷ [])))) (packing done [] j)) e
      ∙ pack_loop-label l (dotted m ms ++ (0 ∷ [])) done b'.' (suc k') h
      ∙ ap (pack_loop (dotted m ms ++ (0 ∷ []))) (pack_char-dot done low k' (omega arith)) in
    subst
      (λ w.
        Packed
          (pack_loop (dotted l (m ∷ ms) ++ (0 ∷ []))
            (packing done [] (length (dotted l (m ∷ ms)) + suc k)))
          w k)
      whole (subst (λ s. Packed s ((done ++ (length low ∷ low)) ++ wire m ms) k) (sym steps) rest)

-- QTYPE 1 and QCLASS 1.
abbrev pub question_end : List ℕ
question_end = 0 ∷ 1 ∷ 0 ∷ 1 ∷ []

set_end :
    (w ys : List ℕ)
    → let n = length w in
      set (set (set (set (w ++ (0 ∷ 0 ∷ 0 ∷ 0 ∷ ys)) n 0) (n + 1) 1) (n + 2) 0) (n + 3) 1
      ≡ w ++ (question_end ++ ys)
set_end w ys =
    let n = length w in
    ap (λ l. set (set (set l (n + 1) 1) (n + 2) 0) (n + 3) 1)
      (set-append_length w 0 0 (0 ∷ 0 ∷ 0 ∷ ys))
    ∙ ap (λ l. set (set l (n + 2) 0) (n + 3) 1) (set_behind w [] (0 ∷ 0 ∷ ys) 0 0 1)
    ∙ ap (λ l. set l (n + 3) 1) (set_behind w (1 ∷ []) (0 ∷ ys) 0 0 0)
    ∙ set_behind w (1 ∷ 0 ∷ []) ys 0 0 1

pack_end-Packed :
    (s : Packing) (w : List ℕ) (k : ℕ)
    → Packed s w (suc (suc (suc (suc k))))
    → pack_end s ≡ (w ++ (question_end ++ replicate k 0), length w + 4)
pack_end-Packed s w k h =
    ap (λ m. (set (set (set (set m s.p 0) (s.p + 1) 1) (s.p + 2) 0) (s.p + 3) 1, s.p + 4)) h.mem_is
    ∙ ap
        (λ n. (
          set (set (set (set (w ++ (0 ∷ 0 ∷ 0 ∷ 0 ∷ replicate k 0)) n 0) (n + 1) 1) (n + 2) 0)
              (n + 3) 1,
          n + 4,
        ))
        h.p_is
    ∙ ap (λ m. (m, length w + 4)) (set_end w (replicate k 0))

length-wire : (ms : List (List ℕ)) (l : List ℕ) → length (wire l ms) ≡ length (dotted l ms) + 2
length-wire [] l = omega (arith, length-append (map tolower l) (0 ∷ []), length-map_lower l)
length-wire (m ∷ ms) l = omega (
  arith,
  length-append (map tolower l) (wire m ms),
  length-map_lower l,
  length-wire ms m,
  length-append l (b'.' ∷ dotted m ms),
)

-- The header of a query: the id with its low byte first, the flag RD, one question, and no record.
abbrev pub query_header : ℕ → List ℕ
query_header id = id % 256 ∷ id / 256 ∷ 1 ∷ 0 ∷ 0 ∷ 1 ∷ 0 ∷ 0 ∷ 0 ∷ 0 ∷ 0 ∷ 0 ∷ []

-- For a host of labels of 1 to 63 bytes, in all no longer than DNS allows, `pack_udp` gives the
-- question in the format of DNS: the header of a query, each label in lower case behind its length,
-- the root, type A and class IN; and its length.
pub pack_udp-wire :
    (id : ℕ) (l : List ℕ) (ms : List (List ℕ))
    → AreLabels l ms
    → length (dotted l ms) ≤ 253
    → let question = query_header id ++ (wire l ms ++ question_end) in
      let (pkt, len) = pack_udp id (dotted l ms) in
      (len ≡ length question) × (take len pkt ≡ question)
unfolding pack_udp
pack_udp-wire id l ms h fits =
    let k = 4078 - length (dotted l ms) in
    let e : dns_udp_size - 12 ≡ suc (length (dotted l ms) + suc (suc (suc (suc (suc k))))) =
      omega arith in
    let w = dns_header id ++ wire l ms in
    let whole : pack_udp id (dotted l ms) ≡ (w ++ (question_end ++ replicate k 0), length w + 4) =
      ap
        (λ n. pack_end (
          pack_loop (dotted l ms ++ (0 ∷ []))
            (record { mem = dns_header id ++ replicate n 0; chunk_len = 12; p = 13 })))
        e
      ∙ pack_end-Packed _ w k (pack_loop-wire ms l (dns_header id) _ h) in
    let question : List ℕ = dns_header id ++ (wire l ms ++ question_end) in
    let len : length w + 4 ≡ length question =
      omega (arith, length-append (wire l ms) question_end) in
    let taken : take (length w + 4) (w ++ (question_end ++ replicate k 0)) ≡ question =
      ap (λ n. take n (w ++ (question_end ++ replicate k 0))) len
      ∙ ap (λ m. take (length question) (dns_header id ++ m))
          (sym (append_assoc (wire l ms) question_end (replicate k 0)))
      ∙ take-append_length question (replicate k 0) in
    subst (λ (r : List ℕ × ℕ). (r.1 ≡ length question) × (take r.1 r.0 ≡ question)) (sym whole)
      (len, taken)
