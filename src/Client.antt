-- ===== src/Client.antt =====
-- `http_client_t` and the handlers of http_client.c that read a response: `http_parse_head`,
-- `http_parse_html`, `http_process_response` and the loop of `http_read_event_process`.
-- Allocation is an argument: `calloc_ok s n` says whether the n-th allocation at site `s` gives
-- memory. Pointers that may be NULL are options.
pub mod Pieces
pub mod Whole
pub mod Page
pub mod Read
pub mod Delivered
use crawler.Base.{
  ℕ, suc, ◌-◌, Bool, true, false, Option, none, some, List, [], ◌==◌, leb, if◌then◌else◌, length,
  take, drop, ◌&&◌,
}
use crawler.Base.Word.{u32}
use crawler.Buffer.{HttpBuf, base_range, create_temp_buf}
use crawler.Head.{vsr_start, HttpVsr, HeadCache, Scan, more, refused, complete, scan}
use crawler.Head.Fields.{Verdict, accepted, rejected, overrun, finish_head}
use crawler.Html.{HtmlCache, len_done, Parsed, fine, returned, wrong, chunk_loop}
use crawler.Gzip.{Zlib, Inflation, inflated, broken, overran, endless, write_at, inflate_gzip}

pub data ClientStatus : Type 0 where
  http_conn_done http_req_done http_head_done http_html_done http_parse_done : ClientStatus

pub record HttpClient : Type 0 where
  pub status : ClientStatus
  pub req : Option HttpBuf
  pub recv : Option HttpBuf
  pub head : Option HeadCache
  pub html : Option HtmlCache
  pub ssl_flag : Bool

-- Where the code allocates.
pub data Site : Type 0 where
  at_head at_vsr at_entry at_html at_chunk at_copy at_page at_recv : Site

-- 0, -1, or what C leaves open (a write past an array).
pub data Outcome {ℓ} (A : Type ℓ) : Type ℓ where
  ok : A → Outcome A
  err : A → Outcome A
  undefined : Outcome A

abbrev pub new_vsr : HttpVsr
new_vsr = record {
  version = 0;
  version_len = 0;
  status = 0;
  status_len = 0;
  reason = 0;
  reason_len = 0;
}

-- A fresh `head_cache_t`, with an empty queue.
abbrev pub new_head : HeadCache
new_head = record {
  status = vsr_start;
  has_vsr = false;
  vsr = new_vsr;
  start = 0;
  kv_queue = [];
  content_len = 0;
  gzip_flag = false;
  chunk_flag = false;
  allocs = 0;
}

abbrev pub new_html : ℕ → HtmlCache
new_html pos = record {
  status = len_done;
  html_start = u32 pos;
  start = 0;
  chunk_sum = 0;
  chunks = none;
  chunk_queue = [];
  html = none;
  allocs = 0;
}

module _ (calloc_ok : Site → ℕ → Bool) where
  -- `client->head`, allocated if NULL.
  abbrev pub open_head : Option HeadCache → Option HeadCache
  open_head (some hc) = some hc
  open_head none = if calloc_ok at_head 0 then some new_head else none

  -- `hc->vsr`, allocated if NULL; `err` keeps the cache without it.
  abbrev pub open_vsr : HeadCache → Outcome HeadCache
  open_vsr hc =
      if hc.has_vsr
      then ok hc
      else if calloc_ok at_vsr 0
      then ok (record hc { has_vsr = true; vsr = new_vsr })
      else err hc

  abbrev pub at_end : List ℕ → HttpClient → Verdict → Outcome HttpClient
  at_end mem c (accepted hc) = ok (record c { head = some hc })
  at_end mem c (rejected hc) = err (record c { head = some hc })
  at_end mem c overrun = undefined

  abbrev pub after_scan : HttpClient → HttpBuf → Scan → Outcome HttpClient
  after_scan c b (more pos hc) =
      ok (record c { head = some hc; recv = some (record b { pos = pos }) })
  after_scan c b (refused pos hc) =
      err (record c { head = some hc; recv = some (record b { pos = pos }) })
  after_scan c b (complete pos hc) =
      at_end b.mem
        (record c { status = http_head_done; head = some hc; recv = some (record b { pos = pos }) })
        (finish_head b.mem hc)

  abbrev pub with_vsr : HttpClient → HttpBuf → Outcome HeadCache → Outcome HttpClient
  with_vsr c b (ok hc) =
      after_scan c b (scan (calloc_ok at_entry) (drop b.pos (take b.last b.mem)) b.pos hc none)
  with_vsr c b (err hc) = err (record c { head = some hc })
  with_vsr c b undefined = undefined

  abbrev pub with_head : HttpClient → HttpBuf → Option HeadCache → Outcome HttpClient
  with_head c b none = err c
  with_head c b (some hc) = with_vsr c b (open_vsr hc)

  -- `http_parse_head` on the client with receive buffer `b`.
  unfoldable pub http_parse_head : HttpClient → HttpBuf → Outcome HttpClient
  http_parse_head c b = with_head c b (open_head c.head)

  -- `client->html`, allocated if NULL.
  abbrev pub open_html : Option HtmlCache → ℕ → Option HtmlCache
  open_html (some mc) pos = some mc
  open_html none pos = if calloc_ok at_html 0 then some (new_html pos) else none

  -- A body of known length: copied once it has come whole. `last` and `end` of the copy are equal.
  abbrev pub copied : List ℕ → HtmlCache → ℕ → Option HttpBuf → Parsed
  copied bytes mc pos none = wrong pos mc
  copied bytes mc pos (some copy) = fine pos (record mc {
    chunks = some (record copy { mem = bytes; last = length bytes });
    chunk_sum = length bytes;
  })

  unfoldable pub sized_body : HttpBuf → ℕ → HtmlCache → Parsed
  sized_body b content_len mc =
      if content_len == 0
      then fine b.pos mc
      else if leb content_len (b.last - b.pos)
      then copied (take content_len (drop b.pos b.mem)) mc b.pos
          (create_temp_buf (calloc_ok at_copy 0) (calloc_ok at_copy 1) content_len)
      else fine b.pos mc

  unfoldable pub read_body : HeadCache → HttpBuf → HtmlCache → Parsed
  read_body hc b mc =
      if hc.chunk_flag
      then chunk_loop (calloc_ok at_chunk) (suc (b.last - b.pos)) b.mem b.last b.pos mc
      else sized_body b hc.content_len mc

  module _ (z : Zlib) (realloc : List ℕ → ℕ → Option (List ℕ)) (fuel : ℕ) where
    abbrev pub on_inflation : HttpClient → HtmlCache → Inflation → Outcome HttpClient
    on_inflation c mc (inflated page) =
        ok (record c { html = some (record mc { html = some page }); status = http_html_done })
    on_inflation c mc (broken page) =
        err (record c { html = some (record mc { html = some page }) })
    on_inflation c mc overran = undefined
    on_inflation c mc endless = undefined

    -- The page, from the chunks.
    abbrev pub make_page :
        HttpClient → Bool → HttpBuf → HtmlCache → Option HttpBuf → Outcome HttpClient
    make_page c gzip chunks mc none = err (record c { html = some mc })
    make_page c gzip chunks mc (some dest) =
        if gzip
        then on_inflation c mc (inflate_gzip z realloc fuel chunks dest 47)
        else if leb mc.chunk_sum (length chunks.mem) && leb mc.chunk_sum (length dest.mem)
        then ok (record c {
          html = some (record mc {
            html = some (record dest {
              mem = write_at dest.mem 0 (take mc.chunk_sum chunks.mem);
              last = mc.chunk_sum;
            });
          });
          status = http_html_done;
        })
        else undefined

    abbrev pub on_chunks : HttpClient → HeadCache → HtmlCache → Option HttpBuf → Outcome HttpClient
    on_chunks c hc mc none = ok (record c { html = some mc })
    on_chunks c hc mc (some chunks) = make_page c hc.gzip_flag chunks mc (
        create_temp_buf (calloc_ok at_page 0) (calloc_ok at_page 1)
          (if hc.gzip_flag then base_range else mc.chunk_sum))

    -- What `http_parse_html` returns.
    abbrev pub after_body : HttpClient → HeadCache → HttpBuf → Parsed → Outcome HttpClient
    after_body c hc b (fine pos mc) =
        on_chunks (record c { recv = some (record b { pos = pos }) }) hc mc mc.chunks
    after_body c hc b (returned pos mc) =
        ok (record c { recv = some (record b { pos = pos }); html = some mc })
    after_body c hc b (wrong pos mc) =
        err (record c { recv = some (record b { pos = pos }); html = some mc })
    after_body c hc b Parsed.overrun = undefined
    after_body c hc b Parsed.exhausted = undefined

    abbrev pub with_html : HttpClient → HeadCache → HttpBuf → Option HtmlCache → Outcome HttpClient
    with_html c hc b none = err c
    with_html c hc b (some mc) = after_body c hc b (read_body hc b mc)

    -- `http_parse_html` on the client with header cache `hc` and receive buffer `b`.
    unfoldable pub http_parse_html : HttpClient → HeadCache → HttpBuf → Outcome HttpClient
    http_parse_html c hc b = with_html c hc b (open_html c.html b.pos)

    abbrev pub html_stage :
        HttpClient → ClientStatus → Option HeadCache → Option HttpBuf → Outcome HttpClient
    html_stage c http_head_done (some hc) (some b) = http_parse_html c hc b
    html_stage c http_head_done none _ = undefined
    html_stage c http_head_done (some hc) none = undefined
    html_stage c _ _ _ = ok c

    abbrev pub head_stage : HttpClient → ClientStatus → HttpBuf → Outcome HttpClient
    head_stage c http_req_done b = http_parse_head c b
    head_stage c _ b = ok c

    abbrev pub then_html : Outcome HttpClient → Outcome HttpClient
    then_html (ok c) = html_stage c c.status c.head c.recv
    then_html (err c) = err c
    then_html undefined = undefined

    -- `http_process_response`; `b` is `client->recv`.
    unfoldable pub http_process_response : HttpClient → HttpBuf → Outcome HttpClient
    http_process_response c b = then_html (head_stage c c.status b)
