-- ===== src/Head/Steps.antt =====
-- The loop of `http_parse_head` on one byte, for each byte that a printed head has.
use crawler.Base.{
  ℕ, ◌+◌, ◌-◌, Bool, true, Option, none, some, List, [], ◌∷◌, ◌++◌, ◌≡◌, ap, ◌∙◌, arith, length,
}
use crawler.Base.Word.{u32, sub32}
use crawler.Head.{
  HeadStatus, vsr_start, vsr_ver, vsr_stat, line_done, line_half, key_done, HeadCache, next,
  complete, parsed, head_half, head_done, proceed, set_value, step, scan,
}
use crawler.Head.Print.{inert, AllInert}

module _ (calloc_ok : ℕ → Bool) where
  pub step-inert :
      (s : HeadStatus) (c p : ℕ) (hc : HeadCache) (kv : Option ℕ)
      → hc.status ≡ s
      → inert s c ≡ true
      → step calloc_ok c p hc kv ≡ next hc kv
  unfolding inert step
  step-inert vsr_start c p hc kv e h = ground arith
  step-inert vsr_ver c p hc kv e h = ground arith
  step-inert vsr_stat c p hc kv e h = ground arith
  step-inert line_done c p hc kv e h = ground arith
  step-inert key_done c p hc kv e h = ground arith
  step-inert _ c p hc kv e h = cc

  pub scan-AllInert :
      (s : HeadStatus) (cs rest : List ℕ) (pos : ℕ) (hc : HeadCache) (kv : Option ℕ)
      → hc.status ≡ s
      → AllInert s cs
      → scan calloc_ok (cs ++ rest) pos hc kv ≡ scan calloc_ok rest (pos + length cs) hc kv
  unfolding scan
  scan-AllInert s [] rest pos hc kv e h = ap (λ n. scan calloc_ok rest n hc kv) (omega arith)
  scan-AllInert s (c ∷ cs) rest pos hc kv e h =
      ap (λ st. proceed st (pos + 1) (λ hc' kv'. scan calloc_ok (cs ++ rest) (pos + 1) hc' kv'))
        (step-inert s c (pos + 1) hc kv e h.0)
      ∙ scan-AllInert s cs rest (pos + 1) hc kv e h.1
      ∙ ap (λ n. scan calloc_ok rest n hc kv) (omega arith)

  pub scan-step :
      (c p : ℕ) (hc hc' : HeadCache) (kv kv' : Option ℕ) (cs : List ℕ)
      → step calloc_ok c (p + 1) hc kv ≡ next hc' kv'
      → scan calloc_ok (c ∷ cs) p hc kv ≡ scan calloc_ok cs (p + 1) hc' kv'
  unfolding scan
  scan-step c p hc hc' kv kv' cs e =
      ap (λ st. proceed st (p + 1) (λ hc' kv'. scan calloc_ok cs (p + 1) hc' kv')) e

  -- A new entry, before its value is known.
  abbrev pub opened : HeadCache → ℕ → HeadCache
  opened hc p = record hc {
    status = key_done;
    kv_queue =
        hc.kv_queue
        ++ (record { key = hc.start; key_len = sub32 (p - 1) hc.start; value = 0; value_len = 0 }
            ∷ []);
    start = u32 p;
    allocs = hc.allocs + 1;
  }

  pub step-colon :
      (p : ℕ) (hc : HeadCache) (kv : Option ℕ)
      → hc.status ≡ line_done
      → calloc_ok hc.allocs ≡ true
      → step calloc_ok b':' p hc kv ≡ next (opened hc p) (some (length hc.kv_queue))
  unfolding step
  step-colon p hc kv e a = ground arith

  pub step-space :
      (p : ℕ) (hc : HeadCache) (kv : Option ℕ)
      → hc.status ≡ key_done
      → step calloc_ok b' ' p hc kv ≡ next (record hc { start = u32 p }) kv
  unfolding step
  step-space p hc kv e = ground arith

  pub step-return :
      (p i : ℕ) (hc : HeadCache)
      → hc.status ≡ key_done
      → step calloc_ok b'\r' p hc (some i)
        ≡ next
            (record hc {
              status = line_half;
              kv_queue = set_value hc.kv_queue i hc.start (sub32 (p - 1) hc.start);
            })
            none
  unfolding step
  step-return p i hc e = ground arith

  pub step-newline :
      (p : ℕ) (hc : HeadCache) (kv : Option ℕ)
      → hc.status ≡ line_half
      → step calloc_ok b'\n' p hc kv ≡ next (record hc { status = line_done; start = u32 p }) kv
  unfolding step
  step-newline p hc kv e = ground arith

  pub step-return_end :
      (p : ℕ) (hc : HeadCache) (kv : Option ℕ)
      → hc.status ≡ line_done
      → step calloc_ok b'\r' p hc kv ≡ next (record hc { status = head_half }) kv
  unfolding step
  step-return_end p hc kv e = ground arith

  pub step-newline_end :
      (p : ℕ) (hc : HeadCache) (kv : Option ℕ)
      → hc.status ≡ head_half
      → step calloc_ok b'\n' p hc kv ≡ parsed (record hc { status = head_done })
  unfolding step
  step-newline_end p hc kv e = ground arith

  pub scan-parsed :
      (c p : ℕ) (hc hc' : HeadCache) (kv : Option ℕ) (cs : List ℕ)
      → step calloc_ok c (p + 1) hc kv ≡ parsed hc'
      → scan calloc_ok (c ∷ cs) p hc kv ≡ complete (p + 1) hc'
  unfolding scan
  scan-parsed c p hc hc' kv cs e =
      ap (λ st. proceed st (p + 1) (λ hc' kv'. scan calloc_ok cs (p + 1) hc' kv')) e
