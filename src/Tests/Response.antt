-- ===== src/Tests/Response.antt =====
-- http_client.c on one response with a chunked body.
use crawler.Base.{
  ℕ, ◌≡◌, refl, Bool, true, false, ◌&&◌, not, none, some, List, [], ◌∷◌, ◌++◌, arith, length, ◌==◌,
}
use crawler.Head.{HeadStatus, vsr_start, vsr_ver, vsr_stat, line_done, complete, scan}
use crawler.Head.Fields.{codes, equal}
use crawler.Head.Meaning.{Headers, has}
use crawler.Head.Print.{inert, AllInert, finished, kept_values}
use crawler.Head.StatusLine.{print_head, first_line, IsPlainHead, headed, scan-print_head}
use crawler.Head.Texts.{NoNul, AreTexts}
use crawler.Html.{hex_digit}
use crawler.Html.Chunks.{is_hex, Chunk, AreChunks}
use crawler.Client.{HttpClient, http_req_done, http_head_done, Site, at_entry, ok, http_parse_head}
use crawler.Client.Whole.{
  holding, fresh_head, head_200, end_200, cache_200, http_parse_head-print_head,
}

abbrev all_inert : HeadStatus → List ℕ → Bool
all_inert s [] = true
all_inert s (c ∷ cs) = inert s c && all_inert s cs

all_inert-AllInert : (s : HeadStatus) (cs : List ℕ) → all_inert s cs ≡ true → AllInert s cs
all_inert-AllInert s [] h = tt
all_inert-AllInert s (c ∷ cs) h = (ground arith, all_inert-AllInert s cs (ground arith))

abbrev no_nul : List ℕ → Bool
no_nul [] = true
no_nul (c ∷ cs) = not (c == 0) && no_nul cs

no_nul-NoNul : (cs : List ℕ) → no_nul cs ≡ true → NoNul cs
no_nul-NoNul [] h = tt
no_nul-NoNul (c ∷ cs) h = (ground arith, no_nul-NoNul cs (ground arith))

abbrev pub given : Site → ℕ → Bool
given s n = true

abbrev pub ver : List ℕ
ver = codes "HTTP/1.1"

abbrev pub reason : List ℕ
reason = codes "OK"

abbrev pub headers : Headers
headers =
    (codes "Transfer-Encoding", codes "chunked")
    ∷ (codes "Date", codes "Thu, 26 Nov 2026 18:00:00 GMT")
    ∷ []

abbrev pub chunks : List Chunk
chunks = (codes "3", codes "abc") ∷ (codes "2", codes "de") ∷ []

pub plain : IsPlainHead ver (codes "200") reason headers
unfolding inert
plain = (
  all_inert-AllInert vsr_start ver refl,
  all_inert-AllInert vsr_ver (codes "200") refl,
  all_inert-AllInert vsr_stat reason refl,
  (
    all_inert-AllInert line_done (codes "Transfer-Encoding") refl,
    all_inert-AllInert vsr_stat (codes "chunked") refl,
    (
      all_inert-AllInert line_done (codes "Date") refl,
      all_inert-AllInert vsr_stat (codes "Thu, 26 Nov 2026 18:00:00 GMT") refl,
      tt,
    ),
  ),
)

pub fit : AreTexts (kept_values headers)
fit = (
  (no_nul-NoNul (codes "Transfer-Encoding") refl, omega arith),
  (no_nul-NoNul (codes "chunked") refl, omega arith),
  (
    (no_nul-NoNul (codes "Date") refl, omega arith),
    (no_nul-NoNul (codes "GMT") refl, omega arith),
    tt,
  ),
)

pub are_chunks : AreChunks chunks
unfolding is_hex hex_digit
are_chunks = ((refl, tt), refl, (λ e. cc), ((refl, tt), refl, (λ e. cc), tt))

abbrev pub waiting : HttpClient
waiting = record {
  status = http_req_done;
  req = none;
  recv = none;
  head = none;
  html = none;
  ssl_flag = false;
}

pub is_chunked : has (codes "Transfer-Encoding") (codes "chunked") (kept_values headers) ≡ true
unfolding has equal
is_chunked = refl

pub is_plain : has (codes "Content-Encoding") (codes "gzip") (kept_values headers) ≡ false
unfolding has equal
is_plain = refl

http_parse_head-print_head_example :
    http_parse_head given waiting (holding (head_200 ver reason headers (codes "3")) [])
    ≡ ok (record waiting {
      status = http_head_done;
      head =
          some (
            cache_200 given
              (λ s n. refl)
              ver
              reason
              headers
              (codes "3")
              []
              (omega arith)
              plain
              fit);
      recv = some (record {
        mem = head_200 ver reason headers (codes "3") ++ [];
        pos = end_200 ver reason headers;
        last = length (head_200 ver reason headers (codes "3"));
      });
    })
http_parse_head-print_head_example =
    http_parse_head-print_head given (λ s n. refl) ver reason headers (codes "3") [] (omega arith)
      plain fit waiting refl

scan-print_head_example :
    scan (given at_entry) (print_head ver (codes "200") reason headers []) 0 fresh_head none
    ≡ complete 84 (
        finished
          (headed fresh_head ver (codes "200") reason)
          headers
          (first_line ver (codes "200") reason))
scan-print_head_example =
    scan-print_head (given at_entry) ver (codes "200") reason headers [] fresh_head (λ n. refl) refl
      refl (omega arith) plain
