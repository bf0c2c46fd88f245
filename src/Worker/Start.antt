-- ===== src/Worker/Start.antt =====
-- The start of `work_process_cycle` in process_cycle.c, up to its loop. The calls of the system are
-- arguments. What is only printed, the signal mask and the affinity are left out.
pub mod Ready
use crawler.Base.{ℕ, Bool, true, false, Option, none, some, List, if◌then◌else◌}
use crawler.Net.{World}
use crawler.Tree.{TimerTree}
use crawler.Timer.{event_timer_init}
use crawler.Epoll.{Epoll}
use crawler.Epoll.Init.{EventState, event_init}
use crawler.Pool.{connection_init}
use crawler.Dns.Resolver.{Resolver}
use crawler.Dns.Init.{DnsInit, dns_ready, dns_failed, dns_undefined, dns_init}
use crawler.Redis.{Redis}
use crawler.Redis.Lists.{Connected, Context, redis_init}
use crawler.Bloom.{bloom_init}

-- Whether `sigaction` succeeds, and the calls of event_init, connection_init, dns_init, redis_init.
pub record StartCalls : Type 0 where
  pub sigaction : Bool
  pub epoll_create : Option ℕ
  pub events_ok : Bool
  pub calloc_ok : ℕ → Bool
  pub resolv_conf : Option (List (Option ℕ))
  pub socket : Option ℕ
  pub connected : Bool
  pub redis : Connected

-- The function returns, which only the call of `sigaction` brings about; the process exits; C leaves
-- open what happens; or the loop is reached, with `dns_conn`.
pub data Started (S Db : Type 0) : Type 0 where
  returned exits start_undefined : Started S Db
  started : ℕ → S → Db → Started S Db

module _ (t : TimerTree) (ep : Epoll) (shut : ℕ → ep.Set → ep.Set) (r : Redis)
    (k : StartCalls) where
  abbrev pub on_bloom :
      ℕ → Resolver t.Tree ep.Set → Bool × r.Db → Started (Resolver t.Tree ep.Set) r.Db
  on_bloom i s (false, db) = exits
  on_bloom i s (true, db) = started i s db

  abbrev pub on_redis :
      ℕ → Resolver t.Tree ep.Set → r.Db → Bool × Context → Started (Resolver t.Tree ep.Set) r.Db
  on_redis i s db (false, ctx) = exits
  on_redis i s db (true, ctx) = on_bloom i s (bloom_init r db)

  abbrev pub on_dns :
      r.Db → DnsInit (Resolver t.Tree ep.Set) → Started (Resolver t.Tree ep.Set) r.Db
  on_dns db (dns_failed s) = exits
  on_dns db dns_undefined = start_undefined
  on_dns db (dns_ready i s) = on_redis i s db (redis_init k.redis)

  abbrev pub on_pool :
      Resolver t.Tree ep.Set
      → r.Db
      → Option (World t.Tree ep.Set)
      → Started (Resolver t.Tree ep.Set) r.Db
  on_pool s db none = exits
  on_pool s db (some w) =
      on_dns db (dns_init t ep shut k.resolv_conf k.socket k.connected (record s { world = w }))

  abbrev pub on_events :
      ℕ → Resolver t.Tree ep.Set → r.Db → Bool × EventState → Started (Resolver t.Tree ep.Set) r.Db
  on_events n s db (false, es) = exits
  on_events n s db (true, es) =
      on_pool s db (connection_init k.calloc_ok n (event_timer_init t s.world))

  -- With n connections, of which the code takes 1024.
  unfoldable pub start_with :
      ℕ → EventState → Resolver t.Tree ep.Set → r.Db → Started (Resolver t.Tree ep.Set) r.Db
  start_with n es s db =
      if k.sigaction then on_events n s db (event_init k.epoll_create k.events_ok es) else returned

  unfoldable pub work_process_start :
      EventState → Resolver t.Tree ep.Set → r.Db → Started (Resolver t.Tree ep.Set) r.Db
  work_process_start es s db = start_with 1024 es s db
