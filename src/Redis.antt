-- ===== src/Redis.antt =====
-- redis_func.c: the calls on bits, for the key `bloom_filter` that all callers give. hiredis and the server are a parameter: `redisCommand` gives a
-- reply, or none where it sets `ctx->err`.
pub mod Lists
use crawler.Base.{ℕ, Bool, true, false, Option, none, some, ◌≡◌, ◌==◌, if◌then◌else◌}

-- The commands that are sent. A SETBIT has a value of 0 or 1; the arguments of BITOP stand as sent.
pub data Command : Type 0 where
  cmd_setbit : ℕ → Bool → Command
  cmd_getbit : ℕ → Command
  cmd_bitop_xor : Command

-- REDIS_REPLY_INTEGER with the integer, or another type, such as REDIS_REPLY_ERROR.
pub data Reply : Type 0 where
  integer : ℕ → Reply
  other_reply : Reply

pub record Redis : Type 1 where
  pub Db : Type 0
  pub command : Command → Db → Option Reply × Db
  pub bit : Db → ℕ → Bool

-- What the manual says of a command that is carried out, on the key `bloom_filter`: SETBIT changes
-- one bit, GETBIT gives one, and the XOR of a key with itself clears it.
pub record IsRedis (r : Redis) : Type 0 where
  pub setbit :
      (off g n : ℕ) (v : Bool) (db db' : r.Db)
      → r.command (cmd_setbit off v) db ≡ (some (integer n), db')
      → r.bit db' g ≡ (if off == g then v else r.bit db g)
  pub getbit :
      (off n : ℕ) (db db' : r.Db)
      → r.command (cmd_getbit off) db ≡ (some (integer n), db')
      → (db' ≡ db) × (n ≡ (if r.bit db off then 1 else 0))
  pub bitop_xor :
      (g n : ℕ) (db db' : r.Db)
      → r.command cmd_bitop_xor db ≡ (some (integer n), db')
      → r.bit db' g ≡ false

-- The value `rc`: whether it is 0.
abbrev pub rc_of : {Db : Type 0} → Option Reply × Db → Bool × Db
rc_of (none, db) = (false, db)
rc_of (some reply, db) = (true, db)

-- 0 with the value, or -1.
abbrev pub value_of : {Db : Type 0} → Option Reply × Db → Option ℕ × Db
value_of (none, db) = (none, db)
value_of (some other_reply, db) = (none, db)
value_of (some (integer n), db) = (some n, db)

module _ (r : Redis) where
  unfoldable pub redis_string_setbit : ℕ → Bool → r.Db → Bool × r.Db
  redis_string_setbit off value db = rc_of (r.command (cmd_setbit off value) db)

  unfoldable pub redis_string_getbit : ℕ → r.Db → Option ℕ × r.Db
  redis_string_getbit off db = value_of (r.command (cmd_getbit off) db)

  unfoldable pub redis_string_bitop : r.Db → Bool × r.Db
  redis_string_bitop db = rc_of (r.command cmd_bitop_xor db)
