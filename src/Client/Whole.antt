-- ===== src/Client/Whole.antt =====
-- A whole response in the receive buffer.
use crawler.Base.{
  ℕ, ◌+◌, ◌<◌, ◌≡◌, refl, ap, ◌∙◌, Bool, true, none, some, List, ◌++◌, arith, length, drop,
  take-append_length,
}
use crawler.Base.Word.{u32_mod}
use crawler.Buffer.{HttpBuf}
use crawler.Head.{HeadCache}
use crawler.Head.Fields.{codes, accepted, finish_head, equal}
use crawler.Head.Meaning.{Headers, summary, read_headers-texts}
use crawler.Head.Print.{kept_values, print_lines, after_lines, finished}
use crawler.Head.StatusLine.{print_head, first_line, IsPlainHead, headed, scan-print_head}
use crawler.Head.Texts.{
  AreTexts, field-IsText, texts-layout, print_head-append, drop-status, drop-first_line,
}
use crawler.Client.{
  HttpClient, http_head_done, Site, at_entry, at_head, at_vsr, ok, new_head, new_vsr,
  http_parse_head,
}

-- The bytes of `vis`, all visible, with spare memory behind.
abbrev pub holding : List ℕ → List ℕ → HttpBuf
holding vis spare = record { mem = vis ++ spare; pos = 0; last = length vis }

abbrev pub fresh_head : HeadCache
fresh_head = record new_head { has_vsr = true; vsr = new_vsr }

module _ (ver reason : List ℕ) (hs : Headers) where
  abbrev pub head_200 : List ℕ → List ℕ
  head_200 rest = print_head ver (codes "200") reason hs rest

  abbrev pub end_200 : ℕ
  end_200 = after_lines (first_line ver (codes "200") reason) hs

module _ (calloc_ok : Site → ℕ → Bool) (all_ok : (s : Site) (n : ℕ) → calloc_ok s n ≡ true)
    (ver reason : List ℕ) (hs : Headers) (rest spare : List ℕ)
    (small : end_200 ver reason hs < u32_mod) (plain : IsPlainHead ver (codes "200") reason hs)
    (fit : AreTexts (kept_values hs)) where
  -- The cache behind the head, with the flags that the headers set.
  abbrev pub cache_200 : HeadCache
  cache_200 =
      summary
        (finished (headed fresh_head ver (codes "200") reason) hs
          (first_line ver (codes "200") reason))
        (kept_values hs)

  finish_head_200 :
      finish_head (head_200 ver reason hs rest ++ spare) (
        finished
          (headed fresh_head ver (codes "200") reason)
          hs
          (first_line ver (codes "200") reason))
      ≡ accepted cache_200
  unfolding finish_head equal
  finish_head_200 =
      let mem = head_200 ver reason hs rest ++ spare in
      let same : mem ≡ head_200 ver reason hs (rest ++ spare) =
        print_head-append ver (codes "200") reason hs rest spare in
      let status =
        field-IsText mem (length ver + 1) (codes "200") _
          (ap (drop (length ver + 1)) same
            ∙ drop-status ver (codes "200") reason hs (rest ++ spare))
          (omega arith) in
      let lines : drop (first_line ver (codes "200") reason) mem ≡ print_lines hs (rest ++ spare) =
        ap (drop (first_line ver (codes "200") reason)) same
        ∙ drop-first_line ver (codes "200") reason hs (rest ++ spare) in
      rw (
        status,
        read_headers-texts mem,
        texts-layout mem hs (first_line ver (codes "200") reason) (rest ++ spare) lines fit,
      )

  -- A client that waits for a response, with no part of a head yet, has a head of status 200 in its
  -- buffer, whatever stands behind it. No part of the head holds a line end, names hold no colon,
  -- and version and status no space. Of a value the code keeps what follows its last space. Names
  -- and what is kept of values hold no NUL and are shorter than 1024 bytes, the size of the arrays
  -- they are copied into, and the head is shorter than 2^32. All memory is given. Then
  -- `http_parse_head` goes on to the body, at its first byte, with the flags that the headers, as
  -- kept, set.
  pub http_parse_head-print_head :
      (c : HttpClient)
      → c.head ≡ none
      → http_parse_head calloc_ok c (holding (head_200 ver reason hs rest) spare)
        ≡ ok (record c {
          status = http_head_done;
          head = some cache_200;
          recv = some (record {
            mem = head_200 ver reason hs rest ++ spare;
            pos = end_200 ver reason hs;
            last = length (head_200 ver reason hs rest);
          });
        })
  unfolding http_parse_head
  http_parse_head-print_head c e =
      let scanned =
        scan-print_head (calloc_ok at_entry) ver (codes "200") reason hs rest fresh_head
          (all_ok at_entry) refl refl small plain in
      rw (e, all_ok at_head 0, all_ok at_vsr 0, take-append_length, scanned, finish_head_200)
