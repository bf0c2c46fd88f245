-- ===== src/Worker.antt =====
-- process_cycle.c: the settings, the seeds, what a worker takes from its queue, and the master. Lua,
-- `fork` and `waitpid` are arguments: what a global holds, and what the calls give. A number of the
-- settings is taken not to be negative.
pub mod Keys
pub mod Takes
pub mod Master
pub mod Start
use crawler.Base.{
  ℕ, zero, suc, ◌+◌, ◌-◌, ◌%◌, Bool, true, false, ◌&&◌, Option, none, some, List, [], ◌∷◌, ◌==◌,
  ltb, if◌then◌else◌,
}
use crawler.Redis.Lists.{
  ListCommand, ListReply, redis_list_length, redis_list_rpush, redis_list_lpop,
}
use crawler.Net.{World}
use crawler.Tree.{TimerTree}
use crawler.Pool.{get_free_connection_n}
use crawler.Dns.Resolver.{HttpUrl, Resolver, dns_query}
use crawler.Dns.Url.{ParsedUrl, NewUrl, no_url, new_url, url_undefined, create_http_url}
use crawler.Parser.Links.{hash_seed, list_key}

-- The value of a global of the settings file, if it is a number.
unfoldable pub get_work_processes : Option ℕ → ℕ
get_work_processes none = 2
get_work_processes (some n) = n

unfoldable pub get_connection_threshold : Option ℕ → ℕ
get_connection_threshold none = 1000
get_connection_threshold (some n) = n

-- The number of the worker a text goes to; a remainder by 0 is undefined.
abbrev pub worker_of : (List ℕ → ℕ → ℕ) → ℕ → List ℕ → Option ℕ
worker_of hash workers url = if workers == 0 then none else some (hash url hash_seed % workers)

module _ {Db : Type 0} (list_command : ListCommand → Db → Option ListReply × Db) where
  abbrev pub seed_pushed : (Db → Option Db) → Bool × Db → Option Db
  seed_pushed rest (false, db) = some db
  seed_pushed rest (true, db) = rest db

  abbrev pub seed_for : List ℕ → Db → (Db → Option Db) → Option ℕ → Option Db
  seed_for url db rest none = none
  seed_for url db rest (some id) =
      seed_pushed rest (redis_list_rpush list_command (list_key id) url db)

  -- `get_url_seed` on the texts of the table `seed`, up to the first value that is none.
  unfoldable pub get_url_seed : (List ℕ → ℕ → ℕ) → ℕ → List (List ℕ) → Db → Option Db
  get_url_seed hash workers [] db = some db
  get_url_seed hash workers (url ∷ urls) db =
      seed_for url db (λ db'. get_url_seed hash workers urls db') (worker_of hash workers url)

  module _ (t : TimerTree) {Set : Type 0} (dns_conn : ℕ)
      (handler : HttpUrl → ℕ → World t.Tree Set → World t.Tree Set)
      (http_parser_parse_url : List ℕ → Option ParsedUrl) where
    -- The server and the resolver; `none` where C leaves open what happens.
    abbrev pub on_new_url :
        ℕ → Bool → Db → Resolver t.Tree Set → NewUrl → Option (Db × Resolver t.Tree Set)
    on_new_url now query_ok db s no_url = some (db, s)
    on_new_url now query_ok db s (new_url url) =
        some (db, (dns_query t dns_conn handler now query_ok url s).1)
    on_new_url now query_ok db s url_undefined = none

    -- `calloc_ok` of the copy of the text, the URL, its buffer and the query.
    abbrev pub on_popped :
        ℕ
        → (ℕ → Bool)
        → Resolver t.Tree Set
        → Option (List ℕ) × Db
        → Option (Db × Resolver t.Tree Set)
    on_popped now calloc_ok s (none, db) = some (db, s)
    on_popped now calloc_ok s (some url, db) =
        on_new_url now (calloc_ok 3) db s
          (create_http_url http_parser_parse_url (calloc_ok 1) (calloc_ok 2) url)

    -- `redis_list_length(key) > 0`, on the 32 bits of an `int`.
    abbrev pub is_positive : Option ℕ → Bool
    is_positive none = false
    is_positive (some n) = ltb 0 n && ltb n 2147483648

    abbrev pub on_length :
        ℕ
        → (ℕ → Bool)
        → List ℕ
        → Resolver t.Tree Set
        → Option ℕ × Db
        → Option (Db × Resolver t.Tree Set)
    on_length now calloc_ok key s (length, db) =
        if is_positive length
        then on_popped now calloc_ok s (redis_list_lpop list_command (calloc_ok 0) key db)
        else some (db, s)

    -- The start of a round of `work_process_cycle(n)`: one URL is taken, if there are connections.
    unfoldable pub take_url :
        ℕ → ℕ → (ℕ → Bool) → ℕ → Db → Resolver t.Tree Set → Option (Db × Resolver t.Tree Set)
    take_url threshold now calloc_ok n db s =
        if ltb threshold (get_free_connection_n s.world)
        then on_length now calloc_ok (list_key n) s (redis_list_length list_command (list_key n) db)
        else some (db, s)

    -- `work_process_cycle` from its loop on: `signals` says for each round whether `crawler_quit` is
    -- set when it starts, and `events` is `event_process` and `event_expire_timers` of the round.
    -- The worker runs as long as the list does, or until it quits.
    unfoldable pub work_rounds :
        ℕ
        → (ℕ → ℕ)
        → (ℕ → ℕ → Bool)
        → (ℕ → Db × Resolver t.Tree Set → Option (Db × Resolver t.Tree Set))
        → ℕ
        → ℕ
        → List Bool
        → Db × Resolver t.Tree Set
        → Option (Db × Resolver t.Tree Set)
    work_rounds threshold clock calloc_ok events n round [] x = some x
    work_rounds threshold clock calloc_ok events n round (quit ∷ signals) x =
        if quit
        then some x
        else and_then
            (and_then (take_url threshold (clock round) (calloc_ok round) n x.0 x.1) (events round))
            (λ y. work_rounds threshold clock calloc_ok events n (suc round) signals y)
      where
        and_then :
            Option (Db × Resolver t.Tree Set)
            → (Db × Resolver t.Tree Set → Option (Db × Resolver t.Tree Set))
            → Option (Db × Resolver t.Tree Set)
        and_then none f = none
        and_then (some y) f = f y
