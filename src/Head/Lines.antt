-- ===== src/Head/Lines.antt =====
-- The loop of `http_parse_head` on header lines and the empty line behind them.
use crawler.Base.{
  append-nil, append_assoc, suc, ℕ, ◌+◌, ◌-◌, ◌<◌, Bool, true, Option, none, List, [], ◌∷◌, ◌++◌,
  ◌≡◌, refl, ap, ◌∙◌, arith, length,
}
use crawler.Base.Word.{u32, sub32, u32_mod}
use crawler.Head.{
  vsr_stat, line_done, HeadCache, KeyValue, complete, head_half, head_done, set_value, scan,
}
use crawler.Head.Meaning.{Headers}
use crawler.Head.Print.{
  AllInert, print_line, print_lines, after_lines, after_lines-le, ArePlain, finished, kept,
  length-kept-le, entry,
}
use crawler.Head.Steps.{
  scan-AllInert, scan-step, opened, step-colon, step-space, step-return, step-newline,
  step-return_end, step-newline_end, scan-parsed,
}
use crawler.Head.Values.{value_start, value_start-kept, scan_value}

module _ (calloc_ok : ℕ → Bool) where
  set_value-snoc :
      (kvs : List KeyValue) (kv : KeyValue) (v n : ℕ)
      → set_value (kvs ++ kv ∷ []) (length kvs) v n
        ≡ kvs ++ record kv { value = v; value_len = n } ∷ []
  set_value-snoc [] kv v n = refl
  set_value-snoc (x ∷ kvs) kv v n = ap (◌∷◌ x) (set_value-snoc kvs kv v n)

  -- The cache after one more line.
  abbrev added : HeadCache → KeyValue → ℕ → HeadCache
  added hc kv p = record hc {
    status = line_done;
    kv_queue = hc.kv_queue ++ kv ∷ [];
    start = p;
    allocs = hc.allocs + 1;
  }

  scan_line_end :
      (k v rest : List ℕ) (p : ℕ) (hc : HeadCache)
      → hc.start ≡ p
      → p + length k + length v + 4 < u32_mod
      → let kv : KeyValue = record {
        key = hc.start;
        key_len = sub32 (p + length k + 1 - 1) hc.start;
        value = 0;
        value_len = 0;
      } in
        scan calloc_ok rest
          (p + length k + 1 + 1 + length v + 1 + 1)
          (record hc {
            status = line_done;
            start = u32 (p + length k + 1 + 1 + length v + 1 + 1);
            kv_queue =
                set_value
                  (hc.kv_queue ++ kv ∷ [])
                  (length hc.kv_queue)
                  (value_start (u32 (p + length k + 1 + 1)) (p + length k + 1 + 1) v)
                  (sub32
                    (p + length k + 1 + 1 + length v + 1 - 1)
                    (value_start (u32 (p + length k + 1 + 1)) (p + length k + 1 + 1) v));
            allocs = hc.allocs + 1;
          })
          none
        ≡ scan calloc_ok rest
            (p + length k + length v + 4)
            (added hc (entry p k v) (p + length k + length v + 4))
            none
  scan_line_end k v rest p hc es lt =
      let n0 : p + length k + 1 + 1 + length v + 1 + 1 ≡ p + length k + length v + 4 =
        omega arith in
      let n1 : u32 (p + length k + 1 + 1 + length v + 1 + 1) ≡ p + length k + length v + 4 =
        omega arith in
      let n2 : sub32 (p + length k + 1 - 1) hc.start ≡ length k = omega arith in
      let start = value_start (u32 (p + length k + 1 + 1)) (p + length k + 1 + 1) v in
      let n3 : start ≡ p + length k + 2 + (length v - length (kept v)) =
        omega (arith, value_start-kept v (p + length k + 1 + 1) (omega arith)) in
      let n4 : sub32 (p + length k + 1 + 1 + length v + 1 - 1) start ≡ length (kept v) =
        omega (arith, n3, length-kept-le v) in
      rw set_value-snoc (cc)

  scan_line :
      (k v rest : List ℕ) (p : ℕ) (hc : HeadCache) (kv : Option ℕ)
      → hc.status ≡ line_done
      → hc.start ≡ p
      → calloc_ok hc.allocs ≡ true
      → p + length k + length v + 4 < u32_mod
      → AllInert line_done k
      → AllInert vsr_stat v
      → scan calloc_ok (print_line k v rest) p hc kv
        ≡ scan calloc_ok rest
            (p + length k + length v + 4)
            (added hc (entry p k v) (p + length k + length v + 4))
            none
  scan_line k v rest p hc kv e es a lt ik iv =
      scan-AllInert calloc_ok line_done k _ p hc kv e ik
      ∙ scan-step calloc_ok _ _ _ _ _ _ _ (step-colon calloc_ok (p + length k + 1) hc kv e a)
      ∙ scan-step calloc_ok _ _ _ _ _ _ _
          (step-space calloc_ok _ (opened calloc_ok hc (p + length k + 1)) _ refl)
      ∙ scan_value calloc_ok v _ _ _ _ refl iv
      ∙ scan-step calloc_ok _ _ _ _ _ _ _ (step-return calloc_ok _ _ _ refl)
      ∙ scan-step calloc_ok _ _ _ _ _ _ _ (step-newline calloc_ok _ _ _ refl)
      ∙ scan_line_end k v rest p hc es lt

  added-finished :
      (hc : HeadCache) (k v : List ℕ) (hs : Headers) (p : ℕ)
      → finished
          (added hc (entry p k v) (p + length k + length v + 4))
          hs
          (p + length k + length v + 4)
        ≡ finished hc ((k, v) ∷ hs) p
  added-finished hc k v hs p =
      let n : hc.allocs + 1 + length hs ≡ hc.allocs + suc (length hs) = omega arith in
      rw append_assoc (cc)

  finished-nil :
      (p : ℕ) (hc : HeadCache)
      → hc.start ≡ p
      → complete (p + 1 + 1) (record hc { status = head_done })
        ≡ complete (p + 2) (finished hc [] p)
  finished-nil p hc es =
      let n : p + 1 + 1 ≡ p + 2 = omega arith in
      let n0 : hc.allocs + 0 ≡ hc.allocs = omega arith in rw append-nil (cc)

  pub scan-print_lines :
      (hs : Headers) (rest : List ℕ) (p : ℕ) (hc : HeadCache) (kv : Option ℕ)
      → ((n : ℕ) → calloc_ok n ≡ true)
      → hc.status ≡ line_done
      → hc.start ≡ p
      → after_lines p hs < u32_mod
      → ArePlain hs
      → scan calloc_ok (print_lines hs rest) p hc kv
        ≡ complete (after_lines p hs) (finished hc hs p)
  scan-print_lines [] rest p hc kv a e es lt h =
      scan-step calloc_ok _ _ _ _ _ _ _ (step-return_end calloc_ok (p + 1) hc kv e)
      ∙ scan-parsed calloc_ok _ _ _ _ _ _
          (step-newline_end calloc_ok (p + 1 + 1) (record hc { status = head_half }) kv refl)
      ∙ finished-nil p hc es
  scan-print_lines ((k, v) ∷ hs) rest p hc kv a e es lt h =
      scan_line k v (print_lines hs rest) p hc kv e es (a hc.allocs)
        (omega (arith, after_lines-le hs (p + length k + length v + 4))) h.0 h.1
      ∙ scan-print_lines hs rest (p + length k + length v + 4) _ none a refl refl lt h.2
      ∙ ap (complete (after_lines (p + length k + length v + 4) hs)) (added-finished hc k v hs p)
