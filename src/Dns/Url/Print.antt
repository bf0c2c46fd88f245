-- ===== src/Dns/Url/Print.antt =====
-- `create_http_url` of async_dns.c on the text that `parse_html` of html_parser.c prints.
use mathlib.Core.Path.{subst}
use crawler.Base.{
  if◌then◌else◌, ℕ, ◌+◌, ◌≤◌, ◌<◌, ◌≡◌, refl, ap, ◌∙◌, true, false, Option, some, List, [], ◌∷◌,
  ◌++◌, append_assoc, ltb, leb, length, drop, length-append, take-append_length, drop-append_length,
  drop-drop, arith,
}
use crawler.Head.Fields.{equal, codes, cstr, field}
use crawler.Dns.Response.Answer.{AreNonzero}
use crawler.Dns.Resolver.{HttpUrl}
use crawler.Dns.Url.{ParsedUrl, new_url, create_http_url}
use crawler.Parser.Page.{print_url}

cstr-AreNonzero : (s : List ℕ) → AreNonzero s → cstr s ≡ s
unfolding cstr
cstr-AreNonzero [] h = refl
cstr-AreNonzero (c ∷ cs) (h, hs) = rw h (ap (λ l. c ∷ l) (cstr-AreNonzero cs hs))

field-middle :
    (pre s post : List ℕ)
    → AreNonzero s
    → length s < 1024
    → field (pre ++ (s ++ post)) (length pre) (length s) ≡ some s
unfolding field
field-middle pre s post h few =
    let short : ltb 1024 (length s) ≡ false = ground arith in
    let fits : ltb (length s) 1024 ≡ true = ground arith in
    rw
      (
        drop-append_length pre (s ++ post),
        take-append_length s post,
        cstr-AreNonzero s h,
        short,
        fits,
      )
      refl

-- What http_parser says of a printed URL with a path.
abbrev pub parts : HttpUrl → ParsedUrl
parts url = record {
  uf_schema = some (record { off = 0; len = length url.schema });
  uf_host = some (record { off = length url.schema + 3; len = length url.host });
  uf_path = some (record { off = length url.schema + 3 + length url.host; len = length url.path });
}

module _ (http_parser_parse_url : List ℕ → Option ParsedUrl) (url : HttpUrl)
    (nonzero_schema : AreNonzero url.schema) (nonzero_host : AreNonzero url.host)
    (room : length url.schema + length url.host + length url.path + 3 ≤ 1024)
    (port : url.port ≡ (if equal url.schema (codes "https") then 443 else 80)) where
  abbrev text : List ℕ
  text = url.schema ++ (codes "://" ++ (url.host ++ url.path))

  to_host : length (url.schema ++ codes "://") ≡ length url.schema + 3
  to_host = length-append url.schema (codes "://")

  schema_field : field text 0 (length url.schema) ≡ some url.schema
  schema_field = field-middle [] url.schema _ nonzero_schema (omega arith)

  host_field : field text (length url.schema + 3) (length url.host) ≡ some url.host
  host_field =
      subst (λ l. field l (length url.schema + 3) (length url.host) ≡ some url.host)
        (append_assoc url.schema (codes "://") (url.host ++ url.path))
        (subst
          (λ n.
            field ((url.schema ++ codes "://") ++ (url.host ++ url.path)) n (length url.host)
            ≡ some url.host)
          to_host
          (field-middle (url.schema ++ codes "://") url.host url.path nonzero_host (omega arith)))

  path_drop : drop (length url.schema + 3 + length url.host) text ≡ url.path
  path_drop =
      let behind = url.host ++ url.path in
      let to = drop-append_length (url.schema ++ codes "://") behind in
      let at_host : drop (length url.schema + 3) text ≡ behind =
        subst (λ l. drop (length url.schema + 3) l ≡ behind)
          (append_assoc url.schema (codes "://") behind)
          (subst (λ n. drop n ((url.schema ++ codes "://") ++ behind) ≡ behind) to_host to) in
      drop-drop (length url.schema + 3) (length url.host) text
      ∙ ap (drop (length url.host)) at_host
      ∙ drop-append_length url.host url.path

  -- A URL with port 443 for https and port 80 for another schema is made again from its printed
  -- text, if the three parts and their NULs fit 1024 bytes, there is memory, and http_parser finds
  -- the parts where they are.
  pub create_http_url-print_url :
      http_parser_parse_url (print_url url) ≡ some (parts url)
      → create_http_url http_parser_parse_url true true (print_url url) ≡ new_url url
  unfolding create_http_url print_url
  create_http_url-print_url found =
      let short : ltb (length url.path) 1024 ≡ true = ground arith in
      let fits : leb (length url.schema + length url.host + length url.path + 3) 1024 ≡ true =
        ground arith in
      rw (found, schema_field, host_field, path_drop, short, fits, ← port) refl
