-- ===== src/Bloom.antt =====
-- bloom_filter.c, over the calls of redis_func.c. `hash` is MurmurHash3_x86_32 of a string and a
-- seed, as an unsigned int.
pub mod Member
pub mod Errors
pub mod Seen
use crawler.Base.{ℕ, Bool, true, false, Option, none, some, List, [], ◌∷◌, ◌==◌, if◌then◌else◌}
use crawler.Redis.{Redis, redis_string_setbit, redis_string_getbit, redis_string_bitop}

abbrev pub seeds : List ℕ
seeds = 1999 ∷ 2887 ∷ 3989 ∷ 4969 ∷ 5557 ∷ 6661 ∷ 7883 ∷ 8887 ∷ 9901 ∷ []

abbrev pub bit_size : ℕ
bit_size = 4294967295

-- 1, 0 or -1 of `bloom_check`.
pub data Checked : Type 0 where
  seen unseen check_failed : Checked

module _ (r : Redis) where
  abbrev pub then_xor : Bool × r.Db → Bool × r.Db
  then_xor (false, db) = (false, db)
  then_xor (true, db) = redis_string_bitop r db

  unfoldable pub bloom_init : r.Db → Bool × r.Db
  bloom_init db = then_xor (redis_string_setbit r bit_size false db)

  module _ (hash : List ℕ → ℕ → ℕ) where
    -- The rest of the loop after one SETBIT.
    abbrev pub go_on : (r.Db → Bool × r.Db) → Bool × r.Db → Bool × r.Db
    go_on rest (false, db) = (false, db)
    go_on rest (true, db) = rest db

    unfoldable pub set_bits : List ℕ → List ℕ → r.Db → Bool × r.Db
    set_bits str [] db = (true, db)
    set_bits str (seed ∷ ss) db =
        go_on (λ db'. set_bits str ss db') (redis_string_setbit r (hash str seed) true db)

    -- 0 or -1.
    unfoldable pub bloom_set : List ℕ → r.Db → Bool × r.Db
    bloom_set str db = set_bits str seeds db

    abbrev pub look_on : (r.Db → Checked × r.Db) → Option ℕ × r.Db → Checked × r.Db
    look_on rest (none, db) = (check_failed, db)
    look_on rest (some value, db) = if value == 0 then (unseen, db) else rest db

    unfoldable pub check_bits : List ℕ → List ℕ → r.Db → Checked × r.Db
    check_bits str [] db = (seen, db)
    check_bits str (seed ∷ ss) db =
        look_on (λ db'. check_bits str ss db') (redis_string_getbit r (hash str seed) db)

    unfoldable pub bloom_check : List ℕ → r.Db → Checked × r.Db
    bloom_check str db = check_bits str seeds db
