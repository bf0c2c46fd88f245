-- ===== src/Bloom/Seen.antt =====
-- bloom_filter.c: the strings that `bloom_check` finds, with a server that carries out every command.
use crawler.Base.{ℕ, ◌≡◌, refl, ◌∙◌, ◌⊎◌, inl, inr, true, List, [], ◌∷◌, Bool-cases}
use crawler.Redis.{Redis, IsRedis, cmd_getbit, redis_string_getbit}
use crawler.Bloom.{seeds, seen, unseen, bloom_set, check_bits, bloom_check}
use crawler.Bloom.Member.{
  Answers, AllSet, set_bits-Grows, set_bits-AllSet, AllSet-keeps, check_bits-AllSet,
}

module _ (r : Redis) (law : IsRedis r) (answers : Answers r) (hash : List ℕ → ℕ → ℕ) where
  -- The check finds the string, and changes nothing.
  abbrev pub IsSeen : List ℕ → r.Db → Type 0
  IsSeen str db = bloom_check r hash str db ≡ (seen, db)

  abbrev Cases : List ℕ → List ℕ → r.Db → Type 0
  Cases str ss db =
      (check_bits r hash str ss db ≡ (unseen, db))
      ⊎ ((check_bits r hash str ss db ≡ (seen, db)) × AllSet r law answers hash str ss db)

  check_bits-Cases : (str ss : List ℕ) (db : r.Db) → Cases str ss db
  unfolding check_bits redis_string_getbit
  check_bits-Cases str [] db = inr (refl, tt)
  check_bits-Cases str (seed ∷ ss) db =
      let (n, db', e) = answers (cmd_getbit (hash str seed)) db in
      let (same, value) = law.getbit (hash str seed) n db db' e in
      elim (Bool-cases (r.bit db (hash str seed))) [
        | inr clear ↦ let nil : n ≡ 0 = value ∙ rw clear refl in rw (e, nil, same) (inl refl)
        | inl set ↦
            let one : n ≡ 1 = value ∙ rw set refl in
            elim (check_bits-Cases str ss db) [
              | inl k ↦ inl (rw (e, one, same) k)
              | inr k ↦ inr (rw (e, one, same) (k.0, (set, k.1)))
            ]
      ]

  pub bloom_check-cases :
      (str : List ℕ) (db : r.Db) → (bloom_check r hash str db ≡ (unseen, db)) ⊎ IsSeen str db
  unfolding bloom_check
  bloom_check-cases str db = elim (check_bits-Cases str seeds db) [
    | inl k ↦ inl k
    | inr k ↦ inr k.0
  ]

  pub IsSeen-bloom_set : (str : List ℕ) (db : r.Db) → IsSeen str (bloom_set r hash str db).1
  unfolding bloom_set bloom_check
  IsSeen-bloom_set str db =
      check_bits-AllSet r law answers hash str seeds _
        (set_bits-AllSet r law answers hash str seeds db)

  pub bloom_set-keeps :
      (str : List ℕ) (db : r.Db) (g : ℕ)
      → r.bit db g ≡ true
      → r.bit (bloom_set r hash str db).1 g ≡ true
  unfolding bloom_set
  bloom_set-keeps str db = (set_bits-Grows r law answers hash str seeds db).keeps

  -- A string stays seen as long as no bit is cleared.
  pub IsSeen-keeps :
      (str : List ℕ) (db db' : r.Db)
      → ((g : ℕ) → r.bit db g ≡ true → r.bit db' g ≡ true)
      → IsSeen str db
      → IsSeen str db'
  unfolding bloom_check
  IsSeen-keeps str db db' k h = elim (check_bits-Cases str seeds db) [
    | inl u ↦ absurd (cc (u, h))
    | inr p ↦
        check_bits-AllSet r law answers hash str seeds db'
          (AllSet-keeps r law answers hash str seeds db db' k p.1)
  ]
