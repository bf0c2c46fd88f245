-- ===== src/Samples/BitServer.antt =====
-- A redis server with one table of bits, and one that answers with errors only.
use crawler.Base.{ℕ, refl, sym, ap, Bool, false, Option, some, ◌==◌, if◌then◌else◌}
use crawler.Redis.{
  Command, cmd_setbit, cmd_getbit, cmd_bitop_xor, Reply, integer, other_reply, Redis, IsRedis,
}
use crawler.Bloom.Member.{Answers}

abbrev Bits : Type 0
Bits = ℕ → Bool

abbrev pub answer : Command → Bits → Option Reply × Bits
answer (cmd_setbit off v) db =
    (some (integer (if db off then 1 else 0)), λ g. if off == g then v else db g)
answer (cmd_getbit off) db = (some (integer (if db off then 1 else 0)), db)
answer cmd_bitop_xor db = (some (integer 0), λ g. false)

abbrev pub bit_server : Redis
bit_server = record { Db = Bits; command = answer; bit = λ db g. db g }

abbrev pub error_server : Redis
error_server = record { Db = Bits; command = λ c db. (some other_reply, db); bit = λ db g. db g }

abbrev number : Option Reply × Bits → ℕ
number (some (integer n), db) = n
number (_, db) = 0

pub bit_server-IsRedis : IsRedis bit_server
bit_server-IsRedis = record {
  setbit = λ off g n v db db' e. ap (λ (p : Option Reply × Bits). p.1 g) (sym e);
  getbit = λ off n db db' e. (ap (λ (p : Option Reply × Bits). p.1) (sym e), ap number (sym e));
  bitop_xor = λ g n db db' e. ap (λ (p : Option Reply × Bits). p.1 g) (sym e);
}

pub bit_server-Answers : Answers bit_server
bit_server-Answers (cmd_setbit off v) db = (_, _, refl)
bit_server-Answers (cmd_getbit off) db = (_, _, refl)
bit_server-Answers cmd_bitop_xor db = (_, _, refl)
