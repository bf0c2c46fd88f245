-- ===== src/Samples/Store.antt =====
-- A redis server with one table of bits and a list for each key.
use crawler.Base.{
  ℕ, suc, refl, sym, ap, Bool, false, Option, none, some, List, [], ◌∷◌, ◌++◌, length,
}
use crawler.Redis.{Command, cmd_setbit, cmd_getbit, cmd_bitop_xor, Reply, integer, Redis, IsRedis}
use crawler.Redis.Lists.{
  ListCommand, cmd_llen, cmd_rpush, cmd_lpop, ListReply, count, text, other_list_reply,
}
use crawler.Redis.Lists.Fifo.{Queues, put_queue, IsListServer}
use crawler.Bloom.Member.{Answers}
use crawler.Parser.Links.Once.{IsApart}
use crawler.Samples.BitServer.{answer}

abbrev pub Store : Type 0
Store = (ℕ → Bool) × Queues

abbrev bits_answer : Command → Store → Option Reply × Store
bits_answer c db = let (reply, bits) = answer c db.0 in (reply, (bits, db.1))

abbrev pub store_redis : Redis
store_redis = record { Db = Store; command = bits_answer; bit = λ db g. db.0 g }

abbrev pop_from : List ℕ → List (List ℕ) → Store → Option ListReply × Store
pop_from key [] db = (some other_list_reply, db)
pop_from key (v ∷ rest) db = (some (text v), (db.0, put_queue key rest db.1))

abbrev pub lists_answer : ListCommand → Store → Option ListReply × Store
lists_answer (cmd_llen key) db = (some (count (length (db.1 key))), db)
lists_answer (cmd_rpush key v) db =
    (some (count (suc (length (db.1 key)))), (db.0, put_queue key (db.1 key ++ (v ∷ [])) db.1))
lists_answer (cmd_lpop key) db = pop_from key (db.1 key) db

-- RPUSH fails, and the rest is as above.
abbrev pub full_lists : ListCommand → Store → Option ListReply × Store
full_lists (cmd_rpush key v) db = (none, db)
full_lists c db = lists_answer c db

abbrev pub queues_of : Store → Queues
queues_of db = db.1

abbrev pub empty_store : Store
empty_store = (λ g. false, λ key. [])

abbrev number : Option Reply × Store → ℕ
number (some (integer n), db) = n
number (_, db) = 0

pub store_redis-IsRedis : IsRedis store_redis
store_redis-IsRedis = record {
  setbit = λ off g n v db db' e. ap (λ (p : Option Reply × Store). p.1.0 g) (sym e);
  getbit = λ off n db db' e. (ap (λ (p : Option Reply × Store). p.1) (sym e), ap number (sym e));
  bitop_xor = λ g n db db' e. ap (λ (p : Option Reply × Store). p.1.0 g) (sym e);
}

pub store_redis-Answers : Answers store_redis
store_redis-Answers (cmd_setbit off v) db = (_, _, refl)
store_redis-Answers (cmd_getbit off) db = (_, _, refl)
store_redis-Answers cmd_bitop_xor db = (_, _, refl)

pub lists_answer-IsListServer : IsListServer lists_answer queues_of
lists_answer-IsListServer = record {
  llen = λ key db. refl;
  rpush = λ key value db. (_, _, refl, refl);
  lpop_empty = λ key db e. ap (λ l. pop_from key l db) e;
  lpop_first = λ key value rest db e. (_, ap (λ l. pop_from key l db) e, refl);
}

pub store-IsApart : IsApart store_redis lists_answer queues_of
store-IsApart = record { rpush_bit = λ key value db g. refl; setbit_queues = λ off v db. refl }
