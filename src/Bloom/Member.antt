-- ===== src/Bloom/Member.antt =====
-- bloom_filter.c: `bloom_check` after `bloom_set` and after `bloom_init`.
use crawler.Base.{ℕ, ◌≡◌, refl, ◌∙◌, Bool, true, false, some, List, [], ◌∷◌, arith}
use crawler.Redis.{
  Redis, IsRedis, Command, cmd_setbit, cmd_getbit, cmd_bitop_xor, integer, redis_string_setbit,
  redis_string_getbit, redis_string_bitop,
}
use crawler.Bloom.{
  seeds, bit_size, seen, unseen, bloom_init, set_bits, bloom_set, check_bits, bloom_check,
}

-- The server carries out every command.
abbrev pub Answers : Redis → Type 0
Answers r =
    (c : Command) (db : r.Db) → (n : ℕ) × (db' : r.Db) × (r.command c db ≡ (some (integer n), db'))

module _ (r : Redis) (law : IsRedis r) (answers : Answers r) (hash : List ℕ → ℕ → ℕ) where
  -- The bits of a string are set.
  abbrev pub AllSet : List ℕ → List ℕ → r.Db → Type 0
  AllSet str [] db = Unit {0}
  AllSet str (seed ∷ ss) db = (r.bit db (hash str seed) ≡ true) × AllSet str ss db

  -- A run that has succeeded and cleared no bit.
  pub record Grows (db : r.Db) (result : Bool × r.Db) : Type 0 where
    pub succeeds : result.0 ≡ true
    pub keeps : (g : ℕ) → r.bit db g ≡ true → r.bit result.1 g ≡ true

  pub set_bits-Grows : (str ss : List ℕ) (db : r.Db) → Grows db (set_bits r hash str ss db)
  unfolding set_bits redis_string_setbit
  set_bits-Grows str [] db = record { succeeds = refl; keeps = λ g h. h }
  set_bits-Grows str (seed ∷ ss) db =
      let (n, db', e) = answers (cmd_setbit (hash str seed) true) db in
      let rest = set_bits-Grows str ss db' in
      let one = λ (g : ℕ). law.setbit (hash str seed) g n true db db' e in
      rw e (record { succeeds = rest.succeeds; keeps = λ g h. rest.keeps g (one g ∙ ground arith) })

  pub set_bits-AllSet : (str ss : List ℕ) (db : r.Db) → AllSet str ss (set_bits r hash str ss db).1
  unfolding set_bits redis_string_setbit
  set_bits-AllSet str [] db = tt
  set_bits-AllSet str (seed ∷ ss) db =
      let (n, db', e) = answers (cmd_setbit (hash str seed) true) db in
      let one = law.setbit (hash str seed) (hash str seed) n true db db' e in
      let rest = set_bits-Grows str ss db' in
      rw e (rest.keeps (hash str seed) (one ∙ ground arith), set_bits-AllSet str ss db')

  pub AllSet-keeps :
      (str ss : List ℕ) (db db' : r.Db)
      → ((g : ℕ) → r.bit db g ≡ true → r.bit db' g ≡ true)
      → AllSet str ss db
      → AllSet str ss db'
  AllSet-keeps str [] db db' k h = tt
  AllSet-keeps str (seed ∷ ss) db db' k (h, hs) = (k _ h, AllSet-keeps str ss db db' k hs)

  pub check_bits-AllSet :
      (str ss : List ℕ) (db : r.Db) → AllSet str ss db → check_bits r hash str ss db ≡ (seen, db)
  unfolding check_bits redis_string_getbit
  check_bits-AllSet str [] db h = refl
  check_bits-AllSet str (seed ∷ ss) db (h, hs) =
      let (n, db', e) = answers (cmd_getbit (hash str seed)) db in
      let (same, value) = law.getbit (hash str seed) n db db' e in
      let one : n ≡ 1 = value ∙ rw h refl in rw (e, one, same) (check_bits-AllSet str ss db hs)

  -- Strings put in, one after the other.
  abbrev pub put_all : List (List ℕ) → r.Db → r.Db
  put_all [] db = db
  put_all (s ∷ l) db = put_all l (bloom_set r hash s db).1

  put_all-keeps :
      (l : List (List ℕ)) (db : r.Db) (g : ℕ) → r.bit db g ≡ true → r.bit (put_all l db) g ≡ true
  unfolding bloom_set
  put_all-keeps [] db g h = h
  put_all-keeps (s ∷ l) db g h = put_all-keeps l _ g ((set_bits-Grows s seeds db).keeps g h)

  -- With a server that carries out every command `bloom_set` returns 0, and whatever strings are put
  -- in after it, `bloom_check` finds the string and changes nothing.
  pub bloom_check-bloom_set :
      (str : List ℕ) (later : List (List ℕ)) (db : r.Db)
      → let db' = put_all later (bloom_set r hash str db).1 in
        ((bloom_set r hash str db).0 ≡ true) × (bloom_check r hash str db' ≡ (seen, db'))
  unfolding bloom_set bloom_check
  bloom_check-bloom_set str later db = (
    (set_bits-Grows str seeds db).succeeds,
    check_bits-AllSet str seeds _
        (AllSet-keeps str seeds _ _ (put_all-keeps later _) (set_bits-AllSet str seeds db)),
  )

  -- With such a server `bloom_init` returns 0, and after it no string is found.
  pub bloom_check-bloom_init :
      (str : List ℕ) (db : r.Db)
      → let (rc, db') = bloom_init r db in
        (rc ≡ true) × (bloom_check r hash str db' ≡ (unseen, db'))
  unfolding bloom_init bloom_check check_bits redis_string_setbit redis_string_bitop
      redis_string_getbit
  bloom_check-bloom_init str db =
      let (n, db1, e1) = answers (cmd_setbit bit_size false) db in
      let (m, db2, e2) = answers cmd_bitop_xor db1 in
      let (k, db3, e3) = answers (cmd_getbit (hash str 1999)) db2 in
      let (same, value) = law.getbit (hash str 1999) k db2 db3 e3 in
      let clear = law.bitop_xor (hash str 1999) m db1 db2 e2 in
      let nil : k ≡ 0 = value ∙ rw clear refl in rw (e1, e2, e3, nil, same) (refl, refl)
