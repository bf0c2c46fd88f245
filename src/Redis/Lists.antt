-- ===== src/Redis/Lists.antt =====
-- redis_func.c: the connection and the calls on lists, over any state of the server. `command` is
-- `redisCommand` for LLEN, RPUSH and LPOP: a reply, or none where it sets `ctx->err`.
pub mod Fifo
use crawler.Base.{ℕ, Bool, true, false, Option, none, some, List}
use crawler.Base.Word.{u32}
use crawler.Head.Fields.{cstr}

pub data ListCommand : Type 0 where
  cmd_llen : List ℕ → ListCommand
  cmd_rpush : List ℕ → List ℕ → ListCommand
  cmd_lpop : List ℕ → ListCommand

-- REDIS_REPLY_INTEGER, REDIS_REPLY_STRING, or another type, such as REDIS_REPLY_NIL.
pub data ListReply : Type 0 where
  count : ℕ → ListReply
  text : List ℕ → ListReply
  other_list_reply : ListReply

-- What `redisConnectWithTimeout` gives: NULL, a context with `err` set, or a good one.
pub data Connected : Type 0 where
  no_context bad_context good_context : Connected

-- `ctx` after a call: whether it is dangling (freed, and not reset), NULL, or in use.
pub data Context : Type 0 where
  null_context dangling_context open_context : Context

-- The return value, whether it is 0, and `ctx`.
unfoldable pub redis_init : Connected → Bool × Context
redis_init no_context = (false, null_context)
redis_init bad_context = (false, dangling_context)
redis_init good_context = (true, open_context)

-- `none` is a second free of the context.
unfoldable pub redis_free : Context → Option Context
redis_free null_context = some null_context
redis_free open_context = some null_context
redis_free dangling_context = none

module _ {Db : Type 0} where
  -- The length as the 32 bits of an `int`, or -1.
  abbrev pub length_of : Option ListReply × Db → Option ℕ × Db
  length_of (some (count n), db) = (some (u32 n), db)
  length_of (_, db) = (none, db)

  abbrev pub push_rc : Option ListReply × Db → Bool × Db
  push_rc (none, db) = (false, db)
  push_rc (some reply, db) = (true, db)

  -- The copy of the text, which `strcpy` ends at its first NUL.
  abbrev pub copy_of : Bool → Option ListReply × Db → Option (List ℕ) × Db
  copy_of true (some (text s), db) = (some (cstr s), db)
  copy_of _ (_, db) = (none, db)

  module _ (command : ListCommand → Db → Option ListReply × Db) where
    unfoldable pub redis_list_length : List ℕ → Db → Option ℕ × Db
    redis_list_length key db = length_of (command (cmd_llen key) db)

    -- 0 or -1.
    unfoldable pub redis_list_rpush : List ℕ → List ℕ → Db → Bool × Db
    redis_list_rpush key value db = push_rc (command (cmd_rpush key value) db)

    -- The text, or NULL. The first argument says whether `calloc` gives memory.
    unfoldable pub redis_list_lpop : Bool → List ℕ → Db → Option (List ℕ) × Db
    redis_list_lpop calloc_ok key db = copy_of calloc_ok (command (cmd_lpop key) db)
