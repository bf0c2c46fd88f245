-- ===== src/Tests/Pages.antt =====
-- html_parser.c and the lists of redis_func.c on small pages.
use crawler.Base.{
  ℕ, ◌+◌, ◌≤◌, ◌≡◌, refl, Option, none, some, List, [], ◌∷◌, ◌++◌, length, if◌then◌else◌,
}
use crawler.Head.Fields.{codes, equal}
use crawler.Redis.Lists.Fifo.{
  list_length, list_rpush, list_lpop, perform_all, queue_run, perform_all-queue_run,
}
use crawler.Redis.Lists.{redis_list_rpush}
use crawler.Redis.{redis_string_setbit, redis_string_getbit}
use crawler.Bloom.{set_bits, bloom_set, check_bits, bloom_check}
use crawler.Parser.{
  tag_a, tag_b, tag_font, tag_span, tag_p, tag_h1, other_tag, Attributes, Node, element, text_node,
  Children, no_nodes, node_and, strstr,
}
use crawler.Parser.Links.{decimal_before, list_key, link_of, queue_of, follow, search_for_links}
use crawler.Parser.Links.Once.{search_for_links_twice}
use crawler.Parser.Links.Pushed.{occurrences, is_new, search_for_links_once}
use crawler.Parser.Author.{
  Article, climb, category_at, title_at, author_at, timestamp_at, search_for_author,
}
use crawler.Samples.Store.{
  Store, store_redis, store_redis-IsRedis, store_redis-Answers, lists_answer,
  lists_answer-IsListServer, store-IsApart, queues_of, empty_store,
}

abbrev weigh : List ℕ → ℕ → ℕ
weigh str seed = length str + seed

abbrev calls : List crawler.Redis.Lists.Fifo.Call
calls =
    list_rpush (1 ∷ []) (7 ∷ [])
    ∷ list_rpush (1 ∷ []) (8 ∷ [])
    ∷ list_length (1 ∷ [])
    ∷ list_lpop (1 ∷ [])
    ∷ list_lpop (2 ∷ [])
    ∷ []

perform_all-queue_run_example :
    perform_all lists_answer calls empty_store ≡ queue_run calls (queues_of empty_store)
perform_all-queue_run_example =
    perform_all-queue_run lists_answer queues_of lists_answer-IsListServer calls empty_store

abbrev thread : List ℕ
thread = codes "http://bbs.dgtle.com/thread-1"

abbrev one_attribute : List ℕ → List ℕ → Attributes
one_attribute name value = λ wanted. if equal wanted name then some value else none

abbrev link_page : Node
link_page =
    element other_tag (λ name. none)
      (node_and (element tag_a (one_attribute (codes "href") thread) no_nodes) (
        node_and (text_node (1 ∷ []))
          (node_and (element tag_a (one_attribute (codes "href") thread) no_nodes) no_nodes)))

abbrev or_empty : Option Store → Store
or_empty none = empty_store
or_empty (some db) = db

abbrev searched : Store
searched = or_empty (search_for_links store_redis lists_answer weigh 2 link_page empty_store)

link_page-searched :
    search_for_links store_redis lists_answer weigh 2 link_page empty_store ≡ some searched
unfolding search_for_links follow queue_of link_of strstr equal bloom_check check_bits bloom_set
    set_bits redis_string_getbit redis_string_setbit redis_list_rpush list_key decimal_before
link_page-searched = refl

search_for_links_twice_example :
    search_for_links store_redis lists_answer weigh 2 link_page searched ≡ some searched
search_for_links_twice_example =
    search_for_links_twice store_redis store_redis-IsRedis store_redis-Answers lists_answer
      queues_of lists_answer-IsListServer weigh store-IsApart 2 link_page empty_store searched
      link_page-searched

search_for_links_once_example :
    occurrences thread (queues_of searched (list_key 1))
    ≤ occurrences thread (queues_of empty_store (list_key 1))
      + is_new (bloom_check store_redis weigh thread empty_store).0
search_for_links_once_example =
    search_for_links_once store_redis store_redis-IsRedis store_redis-Answers lists_answer queues_of
      lists_answer-IsListServer weigh store-IsApart 2 thread (list_key 1) link_page empty_store
      searched link_page-searched

searched_queue : queues_of searched (list_key 0) ++ queues_of searched (list_key 1) ≡ thread ∷ []
unfolding search_for_links follow queue_of link_of strstr equal bloom_check check_bits bloom_set
    set_bits redis_string_getbit redis_string_setbit redis_list_rpush list_key decimal_before
searched_queue = refl

abbrev no_attribute : Attributes
no_attribute name = none

abbrev only : Node → Children
only n = node_and n no_nodes

-- A title in H1, A and P, and a category in SPAN, A, FONT and B.
abbrev thread_page : Node
thread_page = element other_tag no_attribute (
    node_and
      (element tag_h1 (one_attribute (codes "class") (codes "cr_h1title")) (
        only (
          element tag_a no_attribute
            (only (element tag_p no_attribute (only (text_node (codes "Title"))))))))
      (only (
        element tag_span (one_attribute (codes "class") (codes "cr_date")) (
          only (
            element tag_a no_attribute (
              only (
                element tag_font no_attribute
                  (only (element tag_b no_attribute (only (text_node (codes "News"))))))))))))

abbrev blank : Article
blank = record { title = []; category = []; author = []; timestamp = [] }

thread_page_article :
    search_for_author thread_page [] blank
    ≡ some (record blank { title = codes "Title"; category = codes "News" })
unfolding search_for_author crawler.Parser.Author.visit crawler.Parser.Author.copy_text category_at
    title_at author_at timestamp_at climb equal
thread_page_article = refl
