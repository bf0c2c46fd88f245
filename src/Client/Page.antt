-- ===== src/Client/Page.antt =====
-- `http_process_response` on a whole response, head and chunked body.
use crawler.Head.Print.{kept_values}
use mathlib.Core.Path.{subst}
use crawler.Base.{
  inl, inr, ℕ, suc, ◌+◌, ◌-◌, ◌<◌, ◌≤◌, ◌≡◌, refl, sym, ap, ◌∙◌, Bool, true, false, Option, none,
  some, List, [], ◌∷◌, ◌++◌, arith, length, take, drop, replicate, append-nil, take-append_length,
  length-append, leb, length-replicate,
}
use crawler.Base.Word.{u32_mod}
use crawler.Buffer.{HttpBuf, create_temp_buf}
use crawler.Head.{HeadCache}
use crawler.Head.Fields.{codes}
use crawler.Head.Meaning.{Headers, summary, has}
use crawler.Head.StatusLine.{first_line, IsPlainHead}
use crawler.Head.Texts.{AreTexts, drop-after_lines, drop-first_line}
use crawler.Html.{HtmlCache, fine, joined}
use crawler.Html.Chunks.{Chunk, print_chunks, content, AreChunks, drop-lt, crlf, print_chunks-cons}
use crawler.Html.Body.{filled, Ends, chunk_loop-print_chunks}
use crawler.Gzip.{Zlib}
use crawler.Client.{
  HttpClient, http_req_done, http_head_done, http_html_done, Site, at_chunk, at_html, at_page,
  Outcome, ok, new_html, open_html, read_body, after_body, with_html, http_parse_html, then_html,
  head_stage, http_process_response,
}
use crawler.Client.Whole.{holding, head_200, end_200, cache_200, http_parse_head-print_head}

take-length : (xs : List ℕ) → take (length xs) xs ≡ xs
take-length xs = ap (take (length xs)) (sym (append-nil xs)) ∙ take-append_length xs []

-- The bytes of the chunks are among those of the body.
length-content-le :
    (cs : List Chunk) (rest : List ℕ) → length (content cs) ≤ length (print_chunks cs rest)
length-content-le [] rest = omega arith
length-content-le ((ds, bytes) ∷ cs) rest = omega (
  arith,
  length-append bytes (content cs),
  length-append ds (crlf (bytes ++ crlf (print_chunks cs rest))),
  length-append bytes (crlf (print_chunks cs rest)),
  length-content-le cs rest,
)

-- The client has the page with these bytes.
pub record HasPage (o : Outcome HttpClient) (bytes : List ℕ) : Type 0 where
  pub client : HttpClient
  pub cache : HtmlCache
  pub page : HttpBuf
  pub returns : o ≡ ok client
  pub done : client.status ≡ http_html_done
  pub cached : client.html ≡ some cache
  pub paged : cache.html ≡ some page
  pub holds : take page.last page.mem ≡ bytes

module _ (calloc_ok : Site → ℕ → Bool) (all_ok : (s : Site) (n : ℕ) → calloc_ok s n ≡ true)
    (z : Zlib) (realloc : List ℕ → ℕ → Option (List ℕ)) (fuel : ℕ) where
  after_body-HasPage :
      (c : HttpClient) (hc : HeadCache) (b : HttpBuf) (pos : ℕ) (mc : HtmlCache) (bytes : List ℕ)
      → hc.gzip_flag ≡ false
      → mc.chunks ≡ some (filled bytes)
      → mc.chunk_sum ≡ length bytes
      → HasPage (after_body calloc_ok z realloc fuel c hc b (fine pos mc)) bytes
  unfolding create_temp_buf
  after_body-HasPage c hc b pos mc bytes g e s =
      let page : HttpBuf = record {
        mem = bytes ++ drop (0 + length bytes) (replicate (length bytes) 0);
        pos = 0;
        last = length bytes;
      } in
      let cache : HtmlCache = record mc { html = some page } in
      record {
        client = record c {
          recv = some (record b { pos = pos });
          html = some cache;
          status = http_html_done;
        };
        cache = cache;
        page = page;
        returns =
            let fits : leb (length bytes) (length bytes) ≡ true = ground arith in
            let same : length (replicate (length bytes) 0) ≡ length bytes =
              length-replicate {A = ℕ} (length bytes) 0 in
            rw (e, g, all_ok at_page 0, all_ok at_page 1, s, same, fits, take-length bytes);
        done = refl;
        cached = refl;
        paged = refl;
        holds = take-append_length bytes _;
      }

  -- The status, and the flags of the cache, after a head that says chunked and not gzip.
  module _ (ver reason : List ℕ) (hs : Headers) (cs : List Chunk) (rest spare : List ℕ)
      (plain : IsPlainHead ver (codes "200") reason hs) (fit : AreTexts (kept_values hs))
      (chunks : AreChunks cs)
      (small : length (head_200 ver reason hs (print_chunks cs rest)) < u32_mod)
      (chunked : has (codes "Transfer-Encoding") (codes "chunked") (kept_values hs) ≡ true)
      (no_gzip : has (codes "Content-Encoding") (codes "gzip") (kept_values hs) ≡ false) where
    abbrev whole : List ℕ
    whole = head_200 ver reason hs (print_chunks cs rest)

    -- The buffer and the client behind the head.
    abbrev buffer_200 : HttpBuf
    buffer_200 = record { mem = whole ++ spare; pos = end_200 ver reason hs; last = length whole }

    body_stands : drop (end_200 ver reason hs) whole ≡ print_chunks cs rest
    body_stands =
        drop-after_lines whole hs (first_line ver (codes "200") reason) (print_chunks cs rest)
          (drop-first_line ver (codes "200") reason hs (print_chunks cs rest))

    body_length : length whole ≡ end_200 ver reason hs + length (print_chunks cs rest)
    body_length = elim (drop-lt (end_200 ver reason hs) whole _ body_stands) [
      | inl len ↦ len
      | inr nil ↦ absurd (omega (arith, print_chunks-cons cs rest chunks, ap length nil))
    ]

    head_small : end_200 ver reason hs < u32_mod
    head_small = omega (arith, body_length)

    abbrev cache : HeadCache
    cache =
        cache_200 calloc_ok all_ok ver reason hs (print_chunks cs rest) spare head_small plain fit

    abbrev client_200 : HttpClient → HttpClient
    client_200 c = record c { status = http_head_done; head = some cache; recv = some buffer_200 }

    at_body :
        (c : HttpClient)
        → c.status ≡ http_req_done
        → c.head ≡ none
        → http_process_response calloc_ok z realloc fuel c (holding whole spare)
          ≡ http_parse_html calloc_ok z realloc fuel (client_200 c) cache buffer_200
    unfolding http_process_response
    at_body c st eh =
        ap
          (λ s.
            then_html calloc_ok z realloc fuel
              (head_stage calloc_ok z realloc fuel c s (holding whole spare)))
          st
        ∙ ap (then_html calloc_ok z realloc fuel) (
            http_parse_head-print_head calloc_ok all_ok ver reason hs (print_chunks cs rest) spare
              head_small plain fit c eh)

    chunk_loop-Ends :
        Ends
          (calloc_ok at_chunk)
          (all_ok at_chunk)
          whole
          spare
          (suc (length whole - end_200 ver reason hs))
          (end_200 ver reason hs)
          (new_html (end_200 ver reason hs))
          (content cs)
    unfolding joined
    chunk_loop-Ends =
        chunk_loop-print_chunks (calloc_ok at_chunk) (all_ok at_chunk) whole spare cs rest [] _ _ _
          refl refl refl small (omega (arith, body_length, length-content-le cs rest)) chunks
          body_stands (omega (arith, body_length))

    -- A complete response of status 200 with a chunked body, not compressed, is taken in one call of
    -- `http_process_response`: the page is the bytes of the chunks, joined.
    pub http_process_response-chunked :
        (c : HttpClient)
        → c.status ≡ http_req_done
        → c.head ≡ none
        → c.html ≡ none
        → HasPage
            (http_process_response calloc_ok z realloc fuel c (holding whole spare))
            (content cs)
    unfolding http_parse_html read_body summary
    http_process_response-chunked c st eh em =
        let (p, m, ran, got, sum) = chunk_loop-Ends in
        let pos = end_200 ver reason hs in
        let body : read_body calloc_ok cache buffer_200 (new_html pos) ≡ fine p m =
          rw chunked ran in
        let html : http_parse_html calloc_ok z realloc fuel (client_200 c) cache buffer_200
            ≡ after_body calloc_ok z realloc fuel (client_200 c) cache buffer_200 (fine p m) =
          ap
            (λ h.
              with_html calloc_ok z realloc fuel (client_200 c) cache buffer_200
                (open_html calloc_ok h pos))
            em
          ∙ rw (all_ok at_html 0)
              (ap (after_body calloc_ok z realloc fuel (client_200 c) cache buffer_200) body) in
        subst (λ o. HasPage o (content cs)) (sym (at_body c st eh ∙ html))
          (after_body-HasPage (client_200 c) cache buffer_200 p m (content cs) no_gzip got sum)
