-- ===== src/Bloom/Errors.antt =====
-- What bloom_filter.c makes of a server that answers with errors.
use crawler.Base.{ℕ, ◌≡◌, refl, true, some, List, [], ◌∷◌}
use crawler.Redis.{
  Redis, Command, cmd_setbit, cmd_getbit, other_reply, redis_string_setbit, redis_string_getbit,
}
use crawler.Bloom.{seeds, check_failed, set_bits, bloom_set, check_bits, bloom_check}

module _ (r : Redis) (hash : List ℕ → ℕ → ℕ) where
  set_bits_refused :
      (str ss : List ℕ) (db : r.Db)
      → ((c : Command) → r.command c db ≡ (some other_reply, db))
      → set_bits r hash str ss db ≡ (true, db)
  unfolding set_bits redis_string_setbit
  set_bits_refused str [] db h = refl
  set_bits_refused str (seed ∷ ss) db h =
      rw (h (cmd_setbit (hash str seed) true)) (set_bits_refused str ss db h)

  -- A server that answers each command with an error reply, and so stores nothing, is not noticed:
  -- `bloom_set` returns 0; and `bloom_check` of the string then returns -1.
  pub bloom_set_refused :
      (str : List ℕ) (db : r.Db)
      → ((c : Command) → r.command c db ≡ (some other_reply, db))
      → (bloom_set r hash str db ≡ (true, db)) × (bloom_check r hash str db ≡ (check_failed, db))
  unfolding bloom_set bloom_check check_bits redis_string_getbit
  bloom_set_refused str db h =
      (set_bits_refused str seeds db h, rw (h (cmd_getbit (hash str 1999))) refl)
