-- ===== src/Dns/Url.antt =====
-- `create_http_url` of async_dns.c. http_parser is a parameter: what `http_parser_parse_url` says of
-- a text, the offset and the length of each part that it finds. Strings are without the NUL.
pub mod Print
use crawler.Base.{
  ℕ, suc, ◌+◌, ◌≤◌, Bool, true, false, Option, none, some, List, [], ◌∷◌, ◌++◌, ltb, leb,
  if◌then◌else◌, length, take, drop,
}
use crawler.Head.Fields.{codes, cstr, equal, field, ◌>>=◌}
use crawler.Dns.Resolver.{HttpUrl}

pub record Part : Type 0 where
  pub off : ℕ
  pub len : ℕ

-- `http_parser_url`: the three parts that are used, where `field_set` has them.
pub record ParsedUrl : Type 0 where
  pub uf_schema : Option Part
  pub uf_host : Option Part
  pub uf_path : Option Part

-- NULL; the new URL; or what C leaves open, a write past one of the arrays of 1024 bytes or the
-- memory of `url->buf`, or through its NULL.
pub data NewUrl : Type 0 where
  no_url : NewUrl
  new_url : HttpUrl → NewUrl
  url_undefined : NewUrl

abbrev pub part_of : List ℕ → List ℕ → Option Part → Option (List ℕ)
part_of str default none = some default
part_of str default (some p) = field str p.off p.len

-- `strcpy` of all that follows the start of the path.
abbrev pub path_of : List ℕ → Option Part → Option (List ℕ)
path_of str none = some (codes "/")
path_of str (some p) =
    let path = drop p.off str in if ltb (length path) 1024 then some path else none

abbrev pub port_of : List ℕ → ℕ
port_of schema = if equal schema (codes "https") then 443 else 80

-- The three strings and their NULs in `url->buf`.
abbrev pub place : Bool → List ℕ → List ℕ → List ℕ → NewUrl
place buf_ok schema host path =
    if buf_ok
    then if leb (length schema + length host + length path + 3) 1024
      then new_url (record { port = port_of schema; schema = schema; host = host; path = path })
      else url_undefined
    else url_undefined

abbrev pub with_parts : Bool → Bool → Option (List ℕ) → Option (List ℕ) → Option (List ℕ) → NewUrl
with_parts url_ok buf_ok (some schema) (some host) (some path) =
    if url_ok then place buf_ok schema host path else no_url
with_parts url_ok buf_ok _ _ _ = url_undefined

abbrev pub on_host : Bool → Bool → List ℕ → ParsedUrl → Option Part → NewUrl
on_host url_ok buf_ok str u none = no_url
on_host url_ok buf_ok str u (some p) =
    with_parts url_ok buf_ok (part_of str (codes "http") u.uf_schema) (field str p.off p.len)
      (path_of str u.uf_path)

abbrev pub on_parsed : Bool → Bool → List ℕ → Option ParsedUrl → NewUrl
on_parsed url_ok buf_ok str none = no_url
on_parsed url_ok buf_ok str (some u) = on_host url_ok buf_ok str u u.uf_host

-- The arguments say whether `malloc` of the struct and `calloc` of `buf` give memory.
unfoldable pub create_http_url : (List ℕ → Option ParsedUrl) → Bool → Bool → List ℕ → NewUrl
create_http_url http_parser_parse_url url_ok buf_ok str_url =
    on_parsed url_ok buf_ok str_url (http_parser_parse_url str_url)
