-- ===== src/Client/Pieces.antt =====
-- `http_parse_head` over a response that arrives in pieces.
use crawler.Base.{
  ℕ, ◌+◌, Bool, true, Option, none, some, List, [], ◌∷◌, ◌++◌, ◌≡◌, refl, sym, ap, ◌∙◌, arith,
  length, take, drop, drop-drop, drop-append_length,
}
use crawler.Buffer.{HttpBuf}
use crawler.Head.{
  HeadCache, Step, next, failed, parsed, Scan, more, refused, complete, proceed, step, scan,
}
use crawler.Head.Fields.{Verdict, accepted, rejected, overrun, finish_head}
use crawler.Head.Resume.{scan-append, resume}
use crawler.Client.{
  HttpClient, http_req_done, http_head_done, Site, at_entry, Outcome, ok, err, undefined, open_head,
  open_vsr, with_head, with_vsr, at_end, after_scan, http_parse_head,
}

-- A loop that waits for more stands behind all the bytes, with the pointer `vsr` still set.
abbrev MoreAt : ℕ → Scan → Type 0
MoreAt p (more q hc) = (q ≡ p) × (hc.has_vsr ≡ true)
MoreAt p _ = Unit {0}

abbrev HasVsr : Step → Type 0
HasVsr (next hc kv) = hc.has_vsr ≡ true
HasVsr _ = Unit {0}

module _ (calloc_ok : ℕ → Bool) where
  step-HasVsr :
      (c p : ℕ) (hc : HeadCache) (kv : Option ℕ)
      → hc.has_vsr ≡ true
      → HasVsr (step calloc_ok c p hc kv)
  unfolding step
  step-HasVsr c p hc kv h = ground arith

  proceed-MoreAt :
      (s : Step) (p q : ℕ) (loop : HeadCache → Option ℕ → Scan)
      → HasVsr s
      → ((hc : HeadCache) (kv : Option ℕ) → hc.has_vsr ≡ true → MoreAt q (loop hc kv))
      → MoreAt q (proceed s p loop)
  proceed-MoreAt (next hc kv) p q loop v h = h hc kv v
  proceed-MoreAt (failed hc) p q loop v h = tt
  proceed-MoreAt (parsed hc) p q loop v h = tt

  scan-MoreAt :
      (cs : List ℕ) (p q : ℕ) (hc : HeadCache) (kv : Option ℕ)
      → hc.has_vsr ≡ true
      → q ≡ p + length cs
      → MoreAt q (scan calloc_ok cs p hc kv)
  unfolding scan
  scan-MoreAt [] p q hc kv v e = (omega arith, v)
  scan-MoreAt (c ∷ cs) p q hc kv v e =
      proceed-MoreAt _ (p + 1) q _ (step-HasVsr c (p + 1) hc kv v)
        (λ hc' kv' v'. scan-MoreAt cs (p + 1) q hc' kv' v' (omega arith))

module _ (calloc_ok : Site → ℕ → Bool) where
  at_end-status :
      (mem : List ℕ) (c c1 : HttpClient) (v : Verdict)
      → at_end calloc_ok mem c v ≡ ok c1
      → c1.status ≡ c.status
  at_end-status mem c c1 (accepted hc) e = cc
  at_end-status mem c c1 (rejected hc) e = cc
  at_end-status mem c c1 overrun e = cc

  -- What the call before left in the fields `head` and `recv` is written over.
  after_scan-again :
      (c : HttpClient) (b : HttpBuf) (h : Option HeadCache) (r : Option HttpBuf) (pos : ℕ)
      (s : Scan)
      → after_scan calloc_ok (record c { head = h; recv = r }) (record b { pos = pos }) s
        ≡ after_scan calloc_ok c b s
  after_scan-again c b h r pos (more p hc) = refl
  after_scan-again c b h r pos (refused p hc) = refl
  after_scan-again c b h r pos (complete p hc) = refl

  -- The next call on the client that a scan leaves behind.
  continued :
      (c : HttpClient) (b b' : HttpBuf) (xs ys : List ℕ) (s : Scan) (c1 : HttpClient)
      → MoreAt (b.pos + length xs) s
      → drop (b.pos + length xs) (take b'.last b'.mem) ≡ ys
      → after_scan calloc_ok c b s ≡ ok c1
      → c1.status ≡ http_req_done
      → http_parse_head calloc_ok c1 (record b' { pos = b.pos + length xs })
        ≡ after_scan calloc_ok c b' (resume (calloc_ok at_entry) s ys)
  unfolding http_parse_head
  continued c b b' xs ys (refused pos hc) c1 m at e st1 = cc
  continued c b b' xs ys (complete pos hc) c1 m at e st1 =
      let done = record c {
        status = http_head_done;
        head = some hc;
        recv = some (record b { pos = pos });
      } in
      let h : c1.status ≡ http_head_done = at_end-status b.mem done c1 (finish_head b.mem hc) e in
      cc
  continued c b b' xs ys (more pos hc) c1 m at e st1 =
      let left = record c { head = some hc; recv = some (record b { pos = pos }) } in
      let same : left ≡ c1 = cc in
      rw (← same, m.1, at, m.0)
        (after_scan-again c b' (some hc) (some (record b { pos = b.pos + length xs }))
          (b.pos + length xs) _)

  abbrev PointerSet : Outcome HeadCache → Type 0
  PointerSet (ok hc) = hc.has_vsr ≡ true
  PointerSet _ = Unit {0}

  open_vsr-PointerSet : (hc : HeadCache) → PointerSet (open_vsr calloc_ok hc)
  open_vsr-PointerSet hc = ground arith

  module _ (c c1 : HttpClient) (b b' : HttpBuf) (xs ys : List ℕ)
      (at : drop b.pos (take b.last b.mem) ≡ xs) (at' : drop b.pos (take b'.last b'.mem) ≡ xs ++ ys)
      (st : c1.status ≡ http_req_done) where
    with_vsr_pieces :
        (o : Outcome HeadCache)
        → PointerSet o
        → with_vsr calloc_ok c b o ≡ ok c1
        → http_parse_head calloc_ok c1 (record b' { pos = b.pos + length xs })
          ≡ with_vsr calloc_ok c (record b' { pos = b.pos }) o
    with_vsr_pieces (err hc) v e = cc
    with_vsr_pieces undefined v e = cc
    with_vsr_pieces (ok hc) v e =
        let later : drop (b.pos + length xs) (take b'.last b'.mem) ≡ ys =
          drop-drop b.pos (length xs) _ ∙ ap (drop (length xs)) at' ∙ drop-append_length xs ys in
        continued c b b' xs ys (scan (calloc_ok at_entry) xs b.pos hc none) c1
          (scan-MoreAt (calloc_ok at_entry) xs b.pos _ hc none v refl) later (rw at at e) st
        ∙ ap (after_scan calloc_ok c b')
            (sym (scan-append (calloc_ok at_entry) xs ys b.pos hc none (λ _. refl)))
        ∙ ap (λ l. after_scan calloc_ok c b' (scan (calloc_ok at_entry) l b.pos hc none)) (sym at')
        ∙ sym (after_scan-again c b' c.head c.recv b.pos _)

    with_head_pieces :
        (h : Option HeadCache)
        → with_head calloc_ok c b h ≡ ok c1
        → http_parse_head calloc_ok c1 (record b' { pos = b.pos + length xs })
          ≡ with_head calloc_ok c (record b' { pos = b.pos }) h
    with_head_pieces none e = cc
    with_head_pieces (some hc) e =
        with_vsr_pieces (open_vsr calloc_ok hc) (open_vsr-PointerSet hc) e

  -- Two calls of `http_parse_head`, the second after more bytes have come behind the first ones, do
  -- what one call does on all the bytes, if the first one neither failed nor was the last.
  pub http_parse_head_pieces :
      (c c1 : HttpClient) (b b' : HttpBuf) (xs ys : List ℕ)
      → drop b.pos (take b.last b.mem) ≡ xs
      → drop b.pos (take b'.last b'.mem) ≡ xs ++ ys
      → c1.status ≡ http_req_done
      → http_parse_head calloc_ok c b ≡ ok c1
      → http_parse_head calloc_ok c1 (record b' { pos = b.pos + length xs })
        ≡ http_parse_head calloc_ok c (record b' { pos = b.pos })
  unfolding http_parse_head
  http_parse_head_pieces c c1 b b' xs ys at at' st e =
      with_head_pieces c c1 b b' xs ys at at' st (open_head calloc_ok c.head) e
