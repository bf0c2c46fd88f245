-- ===== src/Parser/Page.antt =====
-- `parse_html` of html_parser.c, up to its call of `http_client_retrieve`, which ends every way
-- through it. `gumbo_parse` is the parameter of that name: the root of the tree, or NULL.
use crawler.Base.{ℕ, Bool, Option, none, some, List, [], ◌++◌, ltb, if◌then◌else◌, length}
use crawler.Head.Fields.{codes, cstr}
use crawler.Buffer.{HttpBuf}
use crawler.Html.{HtmlCache}
use crawler.Client.{http_parse_done, HttpClient}
use crawler.Client.Read.{is_html_done}
use crawler.Redis.{Redis}
use crawler.Redis.Lists.{ListCommand, ListReply, redis_list_rpush}
use crawler.Dns.Resolver.{HttpUrl}
use crawler.Parser.{Node, strstr}
use crawler.Parser.Links.{search_for_links}
use crawler.Parser.Author.{Article, search_for_author}

-- 0 or -1 with the client and the server; or what C leaves open.
pub data PageEnd (Db : Type 0) : Type 0 where
  page_done : HttpClient → Db → PageEnd Db
  page_failed : HttpClient → Db → PageEnd Db
  page_undefined : PageEnd Db

abbrev pub no_article : Article
no_article = record { title = []; category = []; author = []; timestamp = [] }

-- `sprintf(httpurl, "%s://%s%s", ...)`.
unfoldable pub print_url : HttpUrl → List ℕ
print_url url = url.schema ++ (codes "://" ++ (url.host ++ url.path))

abbrev pub is_list_page : HttpUrl → Bool
is_list_page url = strstr url.path (codes "forum.php?mod=forumdisplay&fid=2")

abbrev pub is_thread_page : HttpUrl → Bool
is_thread_page url = strstr url.path (codes "thread-")

module _ (r : Redis) (list_command : ListCommand → r.Db → Option ListReply × r.Db)
    (hash : List ℕ → ℕ → ℕ) (workers : ℕ) (gumbo_parse : List ℕ → Option Node) where
  -- From `rc = 0` on; what the push returns is not looked at.
  abbrev pub finish_page : HttpUrl → HttpClient → Option r.Db → PageEnd r.Db
  finish_page url c none = page_undefined
  finish_page url c (some db) =
      let httpurl = print_url url in
      if ltb (length httpurl) 1024
      then page_done (record c { status = http_parse_done })
          (redis_list_rpush list_command (codes "parse_done") httpurl db).1
      else page_undefined

  abbrev pub after_author : r.Db → Option Article → Option r.Db
  after_author db none = none
  after_author db (some art) = some db

  abbrev pub search_page : HttpUrl → Node → r.Db → Option r.Db
  search_page url root db =
      if is_list_page url
      then search_for_links r list_command hash workers root db
      else if is_thread_page url
      then after_author db (search_for_author root [] no_article)
      else some db

  abbrev pub on_root : HttpUrl → HttpClient → r.Db → Option Node → PageEnd r.Db
  on_root url c db none = page_failed c db
  on_root url c db (some root) = finish_page url c (search_page url root db)

  -- `client->html->html->start`, of a page that is done.
  abbrev pub on_page : HttpUrl → HttpClient → r.Db → Option HtmlCache → PageEnd r.Db
  on_page url c db none = page_undefined
  on_page url c db (some html) = on_html_buf html.html
    where
      on_html_buf : Option HttpBuf → PageEnd r.Db
      on_html_buf none = page_undefined
      on_html_buf (some b) = on_root url c db (gumbo_parse (cstr b.mem))

  unfoldable pub parse_html : HttpUrl → HttpClient → r.Db → PageEnd r.Db
  parse_html url c db = if is_html_done c.status then on_page url c db c.html else page_failed c db
