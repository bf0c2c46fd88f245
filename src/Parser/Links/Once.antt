-- ===== src/Parser/Links/Once.antt =====
-- `search_for_links` of html_parser.c with the bloom filter and the queues behind it.
use crawler.Base.{
  ℕ, ◌≡◌, refl, sym, ap, ◌∙◌, ◌⊎◌, inl, inr, Bool, true, false, Option, none, some, List, [], ◌∷◌,
  ◌++◌, ◌==◌, ltb, length, Bool-cases,
}
use mathlib.Core.Path.{subst}
use crawler.Redis.{Redis, IsRedis, cmd_setbit, Reply, redis_string_setbit}
use crawler.Redis.Lists.{ListCommand, cmd_rpush, ListReply, redis_list_rpush}
use crawler.Redis.Lists.Fifo.{Queues, put_queue, IsListServer}
use crawler.Bloom.{unseen, seeds, set_bits, bloom_set, bloom_check}
use crawler.Bloom.Member.{Answers}
use crawler.Bloom.Seen.{IsSeen, bloom_check-cases, IsSeen-bloom_set, bloom_set-keeps, IsSeen-keeps}
use crawler.Parser.{Node}
use crawler.Parser.Links.{go_in, bad_visit, queue_of, follow, search_for_links}
use crawler.Parser.Links.Order.{links, follow_all, search_for_links-follow_all}

-- The bits and the lists are apart: a command on one leaves the other.
pub record IsApart (r : Redis) (list_command : ListCommand → r.Db → Option ListReply × r.Db)
    (queues : r.Db → Queues) : Type 0 where
  pub rpush_bit :
      (key value : List ℕ) (db : r.Db) (g : ℕ)
      → r.bit (list_command (cmd_rpush key value) db).1 g ≡ r.bit db g
  pub setbit_queues :
      (off : ℕ) (v : Bool) (db : r.Db) → queues (r.command (cmd_setbit off v) db).1 ≡ queues db

module _ (r : Redis) (law : IsRedis r) (answers : Answers r)
    (list_command : ListCommand → r.Db → Option ListReply × r.Db) (queues : r.Db → Queues)
    (list_law : IsListServer list_command queues) (hash : List ℕ → ℕ → ℕ)
    (apart : IsApart r list_command queues) (workers : ℕ) where
  set_bits-queues : (str ss : List ℕ) (db : r.Db) → queues (set_bits r hash str ss db).1 ≡ queues db
  unfolding set_bits redis_string_setbit
  set_bits-queues str [] db = refl
  set_bits-queues str (seed ∷ ss) db =
      let (n, db', e) = answers (cmd_setbit (hash str seed) true) db in
      let one =
        ap (λ (p : Option Reply × r.Db). queues p.1) (sym e)
        ∙ apart.setbit_queues (hash str seed) true db in
      rw e (set_bits-queues str ss db' ∙ one)

  -- A link that is seen, and fits `httpurl`.
  pub record Settled (url : List ℕ) (db : r.Db) : Type 0 where
    pub fits : ltb (length url) 1024 ≡ true
    pub is_seen : IsSeen r law answers hash url db

  pub record Followed (url : List ℕ) (db db' : r.Db) : Type 0 where
    pub settled : Settled url db'
    pub keeps : (g : ℕ) → r.bit db g ≡ true → r.bit db' g ≡ true
    pub pushed :
        (db' ≡ db)
        ⊎ ((bloom_check r hash url db ≡ (unseen, db))
            × (queues db'
                ≡ put_queue
                    (queue_of r list_command hash workers url)
                    (queues db (queue_of r list_command hash workers url) ++ (url ∷ []))
                    (queues db)))

  abbrev pub Cases : List ℕ → r.Db → Type 0
  Cases url db =
      (follow r list_command hash workers url db ≡ bad_visit)
      ⊎ ((db' : r.Db) × (follow r list_command hash workers url db ≡ go_in db')
          × Followed url db db')

  push-Cases :
      (url : List ℕ) (db : r.Db)
      → ltb (length url) 1024 ≡ true
      → bloom_check r hash url db ≡ (unseen, db)
      → (workers == 0) ≡ false
      → Cases url db
  unfolding follow redis_list_rpush bloom_set
  push-Cases url db fits new some_worker =
      let key = queue_of r list_command hash workers url in
      let set = (bloom_set r hash url db).1 in
      let (n, db', run, after) = list_law.rpush key url set in
      let same : (g : ℕ) → r.bit db' g ≡ r.bit set g = λ g.
        ap (λ (p : Option ListReply × r.Db). r.bit p.1 g) (sym run)
        ∙ apart.rpush_bit key url set g in
      let grown : (g : ℕ) → r.bit set g ≡ true → r.bit db' g ≡ true = λ g h. same g ∙ h in
      inr (
        db',
        rw (fits, new, some_worker, run) refl,
        record {
          settled = record {
            fits = fits;
            is_seen =
                IsSeen-keeps r law answers hash url set db' grown
                  (IsSeen-bloom_set r law answers hash url db);
          };
          keeps = λ g h. grown g (bloom_set-keeps r law answers hash url db g h);
          pushed = inr (
            new,
            after
                ∙ ap (λ (q : Queues). put_queue key (q key ++ (url ∷ [])) q)
                    (set_bits-queues url seeds db),
          );
        },
      )

  pub follow-Cases : (url : List ℕ) (db : r.Db) → Cases url db
  unfolding follow
  follow-Cases url db = elim (Bool-cases (ltb (length url) 1024)) [
    | inr long ↦ inl (rw long refl)
    | inl fits ↦ elim (bloom_check-cases r law answers hash url db) [
      | inr old ↦ inr (
        db,
        rw (fits, old) refl,
        record {
          settled = record { fits = fits; is_seen = old };
          keeps = λ g h. h;
          pushed = inl refl;
        },
      )
      | inl new ↦ elim (Bool-cases (workers == 0)) [
        | inl no_worker ↦ inl (rw (fits, new, no_worker) refl)
        | inr some_worker ↦ push-Cases url db fits new some_worker
      ]
    ]
  ]

  abbrev AllSettled : List (List ℕ) → r.Db → Type 0
  AllSettled [] db = Unit {0}
  AllSettled (url ∷ urls) db = Settled url db × AllSettled urls db

  Settled-keeps :
      (url : List ℕ) (db db' : r.Db)
      → ((g : ℕ) → r.bit db g ≡ true → r.bit db' g ≡ true)
      → Settled url db
      → Settled url db'
  Settled-keeps url db db' k s = record {
    fits = s.fits;
    is_seen = IsSeen-keeps r law answers hash url db db' k s.is_seen;
  }

  pub record AllFollowed (urls : List (List ℕ)) (db db' : r.Db) : Type 0 where
    pub settled : AllSettled urls db'
    pub keeps : (g : ℕ) → r.bit db g ≡ true → r.bit db' g ≡ true

  pub follow_all-AllFollowed :
      (urls : List (List ℕ)) (db : r.Db)
      → (follow_all r list_command hash workers urls db ≡ none)
        ⊎ ((db' : r.Db) × (follow_all r list_command hash workers urls db ≡ some db')
            × AllFollowed urls db db')
  unfolding follow_all
  follow_all-AllFollowed [] db = inr (db, refl, record { settled = tt; keeps = λ g h. h })
  follow_all-AllFollowed (url ∷ urls) db = elim (follow-Cases url db) [
    | inl bad ↦ inl (rw bad refl)
    | inr (db1, one, f) ↦ elim (follow_all-AllFollowed urls db1) [
      | inl bad ↦ inl (rw one bad)
      | inr (db2, rest, fs) ↦ inr (
        db2,
        rw one rest,
        record {
          settled = (Settled-keeps url db1 db2 fs.keeps f.settled, fs.settled);
          keeps = λ g h. fs.keeps g (f.keeps g h);
        },
      )
    ]
  ]

  follow_all-AllSettled :
      (urls : List (List ℕ)) (db : r.Db)
      → AllSettled urls db
      → follow_all r list_command hash workers urls db ≡ some db
  unfolding follow_all follow
  follow_all-AllSettled [] db s = refl
  follow_all-AllSettled (url ∷ urls) db (s, ss) =
      rw (s.fits, s.is_seen) (follow_all-AllSettled urls db ss)

  pub pushes :
      (key value : List ℕ) (db : r.Db) → (redis_list_rpush list_command key value db).0 ≡ true
  unfolding redis_list_rpush
  pushes key value db = let (n, db', run, after) = list_law.rpush key value db in rw run refl

  -- With a server that carries out every command: once the links of a page have been searched, a
  -- second search of the page changes nothing.
  pub search_for_links_twice :
      (n : Node) (db db' : r.Db)
      → search_for_links r list_command hash workers n db ≡ some db'
      → search_for_links r list_command hash workers n db' ≡ some db'
  search_for_links_twice n db db' h =
      let walk = search_for_links-follow_all r list_command hash workers pushes n in
      elim (follow_all-AllFollowed (links n) db) [
        | inl bad ↦ absurd (cc (bad, h, walk db))
        | inr (db1, run, f) ↦
            let same : some db1 ≡ some db' = sym run ∙ sym (walk db) ∙ h in
            let eq : db1 ≡ db' =
              ap (λ (o : Option r.Db). elim o [ none ↦ db' | some d ↦ d ]) same in
            walk db'
            ∙ follow_all-AllSettled (links n) db' (subst (λ x. AllSettled (links n) x) eq f.settled)
      ]
