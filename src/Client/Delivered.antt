-- ===== src/Client/Delivered.antt =====
-- `http_read_event_process` on a socket with a whole response.
use crawler.Head.Print.{kept_values}
use mathlib.Core.Path.{subst}
use crawler.Base.{
  ℕ, zero, suc, ◌<◌, ◌≤◌, ◌≡◌, refl, sym, ap, ◌∙◌, Bool, true, false, ◌||◌, Option, none, some,
  List, [], ◌∷◌, ◌++◌, arith, length, take, drop, replicate, length-take, length-replicate,
  if◌then◌else◌,
}
use crawler.Base.Word.{u32_mod}
use crawler.Net.{Event}
use crawler.Buffer.{HttpBuf, IsRealloc, base_range, create_temp_buf}
use crawler.Head.Fields.{codes}
use crawler.Head.Meaning.{Headers, has}
use crawler.Head.StatusLine.{IsPlainHead}
use crawler.Head.Texts.{AreTexts}
use crawler.Html.Chunks.{Chunk, print_chunks, content, AreChunks}
use crawler.Gzip.{Zlib}
use crawler.Socket.{Waiting}
use crawler.Socket.Receive.{pending, clean, Gives, receive_loop-TookIn}
use crawler.Client.{HttpClient, http_req_done, Site, at_recv, Outcome, ok, http_process_response}
use crawler.Client.Whole.{holding, head_200}
use crawler.Client.Page.{HasPage, http_process_response-chunked}
use crawler.Client.Read.{
  ReadEnd, is_html_done, open_recv, on_failed, after_process, after_receive, with_recv,
  http_read_event_process,
}

take-drop_lem : (n : ℕ) (xs : List ℕ) → take n xs ++ drop n xs ≡ xs
take-drop_lem zero xs = refl
take-drop_lem (suc n) [] = refl
take-drop_lem (suc n) (x ∷ xs) = ap (λ l. x ∷ l) (take-drop_lem n xs)

-- A buffer by what it holds.
holding_lem :
    (b : HttpBuf) (bytes : List ℕ)
    → take b.last b.mem ≡ bytes
    → b.last ≤ length b.mem
    → b.pos ≡ 0
    → b ≡ holding bytes (drop b.last b.mem)
holding_lem b bytes e h p =
    let n : b.last ≡ length bytes = omega (arith, ap length e, length-take b.last b.mem h) in
    let m : b.mem ≡ bytes ++ drop b.last b.mem =
      sym (take-drop_lem b.last b.mem) ∙ ap (λ l. l ++ drop b.last b.mem) e in
    ap (λ x. record b { mem = x }) m
    ∙ ap (λ x. record (holding bytes (drop b.last b.mem)) { pos = x; last = b.last }) p
    ∙ ap (λ x. record (holding bytes (drop b.last b.mem)) { last = x }) n

-- The handler was called, with the page; the timeout was set again if `timer` says so.
pub record Delivers (r : Option (Outcome ReadEnd)) (bytes : List ℕ) : Type 0 where
  pub end : ReadEnd
  pub returns : r ≡ some (ok end)
  pub paged : HasPage (ok end.client) bytes
  pub handled : end.handled ≡ true

after_process-Delivers :
    (rev : Event) (timer : Bool) (o : Outcome HttpClient) (bytes : List ℕ)
    (calloc_ok : Site → ℕ → Bool) (z : Zlib) (realloc : List ℕ → ℕ → Option (List ℕ)) (fuel : ℕ)
    → HasPage o bytes
    → Delivers (some (after_process calloc_ok z realloc fuel rev timer o)) bytes
after_process-Delivers rev timer o bytes calloc_ok z realloc fuel h = record {
  end = record { client = h.client; rev = rev; timer = timer; handled = true };
  returns =
      ap (λ x. some (after_process calloc_ok z realloc fuel rev timer x)) h.returns
      ∙ ap
          (λ st. some (
            ok (record {
              client = h.client;
              rev = rev;
              timer = timer;
              handled = is_html_done st || rev.pending_eof;
            })))
          h.done;
  paged = record {
    client = h.client;
    cache = h.cache;
    page = h.page;
    returns = refl;
    done = h.done;
    cached = h.cached;
    paged = h.paged;
    holds = h.holds;
  };
  handled = refl;
}

module _ (calloc_ok : Site → ℕ → Bool) (all_ok : (s : Site) (n : ℕ) → calloc_ok s n ≡ true)
    (z : Zlib) (realloc : List ℕ → ℕ → Option (List ℕ)) (law : IsRealloc realloc)
    (gives : Gives realloc) (fuel : ℕ) where
  -- A response of status 200 with a chunked body is on the socket, with no error before its end. No
  -- part of the head holds a line end, names hold no colon, and version and status no space. Of a
  -- value the code keeps what follows its last space; that of a Transfer-Encoding is chunked, and
  -- that of no Content-Encoding is gzip. Names and what is kept of values hold no NUL and are
  -- shorter than 1024 bytes, and the response is shorter than 2^32. All memory is given. Then,
  -- however the response is cut into pieces there and interrupted, one run of
  -- `http_read_event_process` of a new client that waits for it takes it in: the page is the bytes
  -- of the chunks, and the handler is called.
  pub http_read_event_process-Delivers :
      (ver reason : List ℕ) (hs : Headers) (cs : List Chunk) (rest : List ℕ) (rounds : ℕ)
      (c : HttpClient) (rev : Event) (s : List Waiting)
      → IsPlainHead ver (codes "200") reason hs
      → AreTexts (kept_values hs)
      → AreChunks cs
      → length (head_200 ver reason hs (print_chunks cs rest)) < u32_mod
      → has (codes "Transfer-Encoding") (codes "chunked") (kept_values hs) ≡ true
      → has (codes "Content-Encoding") (codes "gzip") (kept_values hs) ≡ false
      → rev.timedout ≡ false
      → c.status ≡ http_req_done
      → c.recv ≡ none
      → c.head ≡ none
      → c.html ≡ none
      → clean s ≡ true
      → pending s ≡ head_200 ver reason hs (print_chunks cs rest)
      → length (pending s) < rounds
      → Delivers (http_read_event_process calloc_ok z realloc fuel rounds c rev s) (content cs)
  unfolding http_read_event_process create_temp_buf
  http_read_event_process-Delivers ver reason hs cs rest rounds c rev s plain fit chunks small
        chunked no_gzip on_time st rn hn mn ok_socket stands enough =
      let b0 : HttpBuf = record { mem = replicate base_range 0; pos = 0; last = 0 } in
      let t =
        receive_loop-TookIn realloc law gives rounds b0 rev s false (omega arith)
          (omega (arith, length-replicate {A = ℕ} base_range 0)) ok_socket enough in
      let spare = drop t.buf.last t.buf.mem in
      let whole = head_200 ver reason hs (print_chunks cs rest) in
      let held : t.buf ≡ holding whole spare =
        holding_lem t.buf whole (t.holds ∙ stands) t.within t.same_pos in
      let page =
        http_process_response-chunked calloc_ok all_ok z realloc fuel ver reason hs cs rest spare
          plain fit chunks small chunked no_gzip (record c { recv = some t.buf }) st hn mn in
      let at_buf =
        subst
          (λ b.
            HasPage
              (http_process_response calloc_ok z realloc fuel (record c { recv = some t.buf }) b)
              (content cs))
          (sym held) page in
      let opened : open_recv calloc_ok z realloc fuel c.recv ≡ some b0 =
        ap (open_recv calloc_ok z realloc fuel) rn ∙ rw (all_ok at_recv 0, all_ok at_recv 1) refl in
      let run =
        ap
          (λ x.
            if x
            then some (on_failed calloc_ok z realloc fuel c rev false)
            else with_recv calloc_ok z realloc fuel rounds c rev s
                (open_recv calloc_ok z realloc fuel c.recv))
          on_time
        ∙ ap (with_recv calloc_ok z realloc fuel rounds c rev s) opened
        ∙ ap (after_receive calloc_ok z realloc fuel c) t.returns in
      subst (λ r. Delivers r (content cs)) (sym run)
        (after_process-Delivers t.rev t.reset_time _ (content cs) calloc_ok z realloc fuel at_buf)
