-- ===== src/Parser/Links/Lost.antt =====
-- `search_for_links` of html_parser.c where RPUSH fails.
use crawler.Base.{ℕ, ◌≡◌, refl, true, false, Option, none, some, List, ◌==◌, ltb, length}
use crawler.Redis.{Redis, IsRedis}
use crawler.Redis.Lists.{ListCommand, cmd_rpush, ListReply, redis_list_rpush}
use crawler.Bloom.{seen, unseen, bloom_set, bloom_check}
use crawler.Bloom.Member.{Answers}
use crawler.Bloom.Seen.{IsSeen-bloom_set}
use crawler.Parser.{tag_a, Attributes, element, Children}
use crawler.Parser.Links.{link_of, follow, search_for_links}

module _ (r : Redis) (law : IsRedis r) (answers : Answers r)
    (list_command : ListCommand → r.Db → Option ListReply × r.Db) (hash : List ℕ → ℕ → ℕ)
    (workers : ℕ) where
  -- With a filter that works and RPUSH that fails: a new link of an element is in no queue, the
  -- children of the element are not searched, and the filter has the link, so that no later search
  -- follows it.
  pub search_for_links_lost :
      (attributes : Attributes) (children : Children) (url : List ℕ) (db : r.Db)
      → ((key value : List ℕ) (d : r.Db) → list_command (cmd_rpush key value) d ≡ (none, d))
      → link_of tag_a attributes ≡ some url
      → ltb (length url) 1024 ≡ true
      → (workers == 0) ≡ false
      → bloom_check r hash url db ≡ (unseen, db)
      → let db' = (bloom_set r hash url db).1 in
        (search_for_links r list_command hash workers (element tag_a attributes children) db
          ≡ some db')
        × (bloom_check r hash url db' ≡ (seen, db'))
  unfolding search_for_links follow redis_list_rpush
  search_for_links_lost attributes children url db refuses link fits some_worker new =
      (rw (link, fits, new, some_worker, refuses) refl, IsSeen-bloom_set r law answers hash url db)
