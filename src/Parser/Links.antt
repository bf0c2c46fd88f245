-- ===== src/Parser/Links.antt =====
-- `search_for_links` of html_parser.c. `hash` is MurmurHash3_x86_32, `list_command` and `r` are the
-- two parts of `redisCommand`, and `workers` is `work_processes`.
pub mod Order
pub mod Once
pub mod Pushed
pub mod Lost
use crawler.Base.{
  ℕ, zero, suc, ◌+◌, ◌%◌, ◌/◌, Bool, true, false, ◌||◌, Option, none, some, List, [], ◌∷◌, ◌++◌,
  ◌==◌, ltb, if◌then◌else◌, length,
}
use crawler.Head.Fields.{codes}
use crawler.Redis.{Redis}
use crawler.Redis.Lists.{ListCommand, ListReply, redis_list_rpush}
use crawler.Bloom.{Checked, seen, unseen, check_failed, bloom_set, bloom_check}
use crawler.Parser.{Tag, tag_a, Attributes, Node, element, Children, no_nodes, node_and, strstr}

abbrev pub hash_seed : ℕ
hash_seed = 8887

-- `%d` of a number of at most `k` digits, in front of what follows.
unfoldable pub decimal_before : ℕ → ℕ → List ℕ → List ℕ
decimal_before zero n rest = rest
decimal_before (suc k) n rest =
    let more = decimal_before k (n / 10) ((b'0' + n % 10) ∷ rest) in
    if ltb n 10 then (b'0' + n % 10) ∷ rest else more

-- `sprintf(key, "url_list_%d", id)`.
unfoldable pub list_key : ℕ → List ℕ
list_key id = codes "url_list_" ++ decimal_before 10 id []

abbrev pub is_link : List ℕ → Bool
is_link href =
    strstr href (codes "http://bbs.dgtle.com/thread-")
    || strstr href (codes "http://bbs.dgtle.com/forum.php?mod=forumdisplay&fid=2&page=")

abbrev wanted_href : Option (List ℕ) → Option (List ℕ)
wanted_href none = none
wanted_href (some href) = if is_link href then some href else none

-- The link that an element asks to follow.
unfoldable pub link_of : Tag → Attributes → Option (List ℕ)
link_of tag_a attributes = wanted_href (attributes (codes "href"))
link_of _ attributes = none

-- On to the children, a return before them, or what C leaves open: a text that overruns `httpurl`,
-- or a remainder by 0.
pub data Visit (Db : Type 0) : Type 0 where
  go_in : Db → Visit Db
  leave : Db → Visit Db
  bad_visit : Visit Db

module _ {Db : Type 0} where
  abbrev pub on_pushed : Bool × Db → Visit Db
  on_pushed (true, db) = go_in db
  on_pushed (false, db) = leave db

  abbrev pub then_children : Visit Db → (Db → Option Db) → Option Db
  then_children (go_in db) rest = rest db
  then_children (leave db) rest = some db
  then_children bad_visit rest = none

  abbrev pub then_next : Option Db → (Db → Option Db) → Option Db
  then_next none rest = none
  then_next (some db) rest = rest db

module _ (r : Redis) (list_command : ListCommand → r.Db → Option ListReply × r.Db)
    (hash : List ℕ → ℕ → ℕ) (workers : ℕ) where
  unfoldable pub queue_of : List ℕ → List ℕ
  queue_of url = list_key (hash url hash_seed % workers)

  -- `!bloom_check(httpurl)` is taken for 0 only; what `bloom_set` returns is not looked at.
  abbrev pub on_checked : List ℕ → Checked × r.Db → Visit r.Db
  on_checked url (unseen, db) =
      if workers == 0
      then bad_visit
      else on_pushed (redis_list_rpush list_command (queue_of url) url (bloom_set r hash url db).1)
  on_checked url (_, db) = go_in db

  unfoldable pub follow : List ℕ → r.Db → Visit r.Db
  follow url db =
      if ltb (length url) 1024 then on_checked url (bloom_check r hash url db) else bad_visit

  abbrev pub visit_link : Option (List ℕ) → r.Db → Visit r.Db
  visit_link none db = go_in db
  visit_link (some url) db = follow url db

  unfoldable mutual
    pub search_for_links : Node → r.Db → Option r.Db
    search_for_links (element tag attributes children) db =
        then_children (visit_link (link_of tag attributes) db) (λ db'. search_children children db')
    search_for_links _ db = some db

    pub search_children : Children → r.Db → Option r.Db
    search_children no_nodes db = some db
    search_children (node_and n ns) db =
        then_next (search_for_links n db) (λ db'. search_children ns db')
