-- ===== src/Head/StatusLine.antt =====
-- A whole response head: the status line, then the header lines and the empty line.
use crawler.Base.{
  ℕ, ◌+◌, ◌-◌, ◌<◌, Bool, true, Option, none, List, ◌∷◌, ◌++◌, ◌≡◌, refl, ◌∙◌, arith, length,
}
use crawler.Base.Word.{u32, sub32, u32_mod}
use crawler.Head.{
  vsr_start, vsr_ver, vsr_stat, vsr_reas, line_done, HttpVsr, HeadCache, next, complete, step, scan,
}
use crawler.Head.Meaning.{Headers}
use crawler.Head.Print.{AllInert, print_lines, after_lines, after_lines-le, ArePlain, finished}
use crawler.Head.Steps.{scan-AllInert, scan-step}
use crawler.Head.Lines.{scan-print_lines}

-- `HTTP-Version SP Status-Code SP Reason-Phrase CRLF`, then the lines.
abbrev pub print_head : List ℕ → List ℕ → List ℕ → Headers → List ℕ → List ℕ
print_head ver st reason hs rest =
    ver ++ (b' ' ∷ (st ++ (b' ' ∷ (reason ++ (b'\r' ∷ b'\n' ∷ print_lines hs rest)))))

-- Where the header lines begin.
abbrev pub first_line : List ℕ → List ℕ → List ℕ → ℕ
first_line ver st reason = length ver + length st + length reason + 4

abbrev pub vsr_of : List ℕ → List ℕ → List ℕ → HttpVsr
vsr_of ver st reason = record {
  version = 0;
  version_len = length ver;
  status = length ver + 1;
  status_len = length st;
  reason = length ver + length st + 2;
  reason_len = length reason;
}

-- No part has a line end; version and status have no space, and names no colon.
abbrev pub IsPlainHead : List ℕ → List ℕ → List ℕ → Headers → Type 0
IsPlainHead ver st reason hs =
    AllInert vsr_start ver × AllInert vsr_ver st × AllInert vsr_stat reason × ArePlain hs

-- The cache behind the status line.
abbrev pub headed : HeadCache → List ℕ → List ℕ → List ℕ → HeadCache
headed hc ver st reason = record hc {
  vsr = vsr_of ver st reason;
  status = line_done;
  start = first_line ver st reason;
}

module _ (calloc_ok : ℕ → Bool) where
  step-space_ver :
      (p : ℕ) (hc : HeadCache) (kv : Option ℕ)
      → hc.status ≡ vsr_start
      → step calloc_ok b' ' p hc kv
        ≡ next
            (record hc {
              vsr = record (hc.vsr) { version = hc.start; version_len = sub32 (p - 1) hc.start };
              status = vsr_ver;
              start = u32 p;
            })
            kv
  unfolding step
  step-space_ver p hc kv e = ground arith

  step-space_stat :
      (p : ℕ) (hc : HeadCache) (kv : Option ℕ)
      → hc.status ≡ vsr_ver
      → step calloc_ok b' ' p hc kv
        ≡ next
            (record hc {
              vsr = record (hc.vsr) { status = hc.start; status_len = sub32 (p - 1) hc.start };
              status = vsr_stat;
              start = u32 p;
            })
            kv
  unfolding step
  step-space_stat p hc kv e = ground arith

  step-return_reas :
      (p : ℕ) (hc : HeadCache) (kv : Option ℕ)
      → hc.status ≡ vsr_stat
      → step calloc_ok b'\r' p hc kv
        ≡ next
            (record hc {
              vsr = record (hc.vsr) { reason = hc.start; reason_len = sub32 (p - 1) hc.start };
              status = vsr_reas;
              start = u32 p;
            })
            kv
  unfolding step
  step-return_reas p hc kv e = ground arith

  step-newline_reas :
      (p : ℕ) (hc : HeadCache) (kv : Option ℕ)
      → hc.status ≡ vsr_reas
      → step calloc_ok b'\n' p hc kv ≡ next (record hc { status = line_done; start = u32 p }) kv
  unfolding step
  step-newline_reas p hc kv e = ground arith

  scan_status_line_end :
      (ver st reason rest : List ℕ) (hc : HeadCache) (kv : Option ℕ)
      → hc.start ≡ 0
      → first_line ver st reason < u32_mod
      → let p = 0 + length ver + 1 in
        let q = p + length st + 1 in
        let r = q + length reason + 1 in
        scan calloc_ok rest
          (r + 1)
          (record hc {
            status = line_done;
            vsr = record {
              version = hc.start;
              version_len = sub32 (p - 1) hc.start;
              status = u32 p;
              status_len = sub32 (q - 1) (u32 p);
              reason = u32 q;
              reason_len = sub32 (r - 1) (u32 q);
            };
            start = u32 (r + 1);
          })
          kv
        ≡ scan calloc_ok rest (first_line ver st reason) (headed hc ver st reason) kv
  scan_status_line_end ver st reason rest hc kv es lt =
      let p = 0 + length ver + 1 in
      let q = p + length st + 1 in
      let r = q + length reason + 1 in
      let n0 : r + 1 ≡ first_line ver st reason = omega arith in
      let n1 : u32 (r + 1) ≡ first_line ver st reason = omega arith in
      let n2 : sub32 (p - 1) hc.start ≡ length ver = omega arith in
      let n3 : u32 p ≡ length ver + 1 = omega arith in
      let n4 : sub32 (q - 1) (u32 p) ≡ length st = omega arith in
      let n5 : u32 q ≡ length ver + length st + 2 = omega arith in
      let n6 : sub32 (r - 1) (u32 q) ≡ length reason = omega arith in cc

  scan_status_line :
      (ver st reason rest : List ℕ) (hc : HeadCache) (kv : Option ℕ)
      → hc.status ≡ vsr_start
      → hc.start ≡ 0
      → first_line ver st reason < u32_mod
      → AllInert vsr_start ver
      → AllInert vsr_ver st
      → AllInert vsr_stat reason
      → scan calloc_ok (ver ++ (b' ' ∷ (st ++ (b' ' ∷ (reason ++ (b'\r' ∷ b'\n' ∷ rest)))))) 0 hc kv
        ≡ scan calloc_ok rest (first_line ver st reason) (headed hc ver st reason) kv
  scan_status_line ver st reason rest hc kv e es lt iv is ir =
      scan-AllInert calloc_ok vsr_start ver _ 0 hc kv e iv
      ∙ scan-step calloc_ok _ _ _ _ _ _ _ (step-space_ver (0 + length ver + 1) hc kv e)
      ∙ scan-AllInert calloc_ok vsr_ver st _ _ _ _ refl is
      ∙ scan-step calloc_ok _ _ _ _ _ _ _ (step-space_stat _ _ _ refl)
      ∙ scan-AllInert calloc_ok vsr_stat reason _ _ _ _ refl ir
      ∙ scan-step calloc_ok _ _ _ _ _ _ _ (step-return_reas _ _ _ refl)
      ∙ scan-step calloc_ok _ _ _ _ _ _ _ (step-newline_reas _ _ _ refl)
      ∙ scan_status_line_end ver st reason rest hc kv es lt

  -- A printed response head, shorter than 2^32, of any status, and memory for each header. No part
  -- of the head holds a line end, names hold no colon, and version and status no space. Of a value
  -- the code keeps what follows its last space. Then the byte loop, started on a new cache, reads
  -- the head to its end, and has every part, of a value what is kept, at its offset and with its
  -- length.
  pub scan-print_head :
      (ver st reason : List ℕ) (hs : Headers) (rest : List ℕ) (hc : HeadCache)
      → ((n : ℕ) → calloc_ok n ≡ true)
      → hc.status ≡ vsr_start
      → hc.start ≡ 0
      → after_lines (first_line ver st reason) hs < u32_mod
      → IsPlainHead ver st reason hs
      → scan calloc_ok (print_head ver st reason hs rest) 0 hc none
        ≡ complete
            (after_lines (first_line ver st reason) hs)
            (finished (headed hc ver st reason) hs (first_line ver st reason))
  scan-print_head ver st reason hs rest hc a e es lt h =
      scan_status_line ver st reason (print_lines hs rest) hc none e es
        (omega (arith, after_lines-le hs (first_line ver st reason))) h.0 h.1 h.2
      ∙ scan-print_lines calloc_ok hs rest (first_line ver st reason) (headed hc ver st reason) none
          a refl refl lt h.3
