-- ===== src/Parser/Links/Pushed.antt =====
-- `search_for_links` of html_parser.c: what it adds to the queues.
use crawler.Base.{
  ℕ, ◌+◌, ◌≤◌, ◌≡◌, sym, ap, ◌∙◌, inl, inr, Bool, true, false, Option, none, some, List, [], ◌∷◌,
  ◌++◌, if◌then◌else◌, Bool-cases, arith,
}
use mathlib.Core.Path.{subst}
use crawler.Head.Fields.{equal}
use crawler.Head.Equal.{equal-eq}
use crawler.Redis.{Redis, IsRedis}
use crawler.Redis.Lists.{ListCommand, ListReply}
use crawler.Redis.Lists.Fifo.{Queues, put_queue, IsListServer}
use crawler.Bloom.{Checked, unseen, bloom_check}
use crawler.Bloom.Member.{Answers}
use crawler.Bloom.Seen.{IsSeen, bloom_check-cases, IsSeen-keeps}
use crawler.Parser.{Node}
use crawler.Parser.Links.{Visit, queue_of, then_children, follow, search_for_links}
use crawler.Parser.Links.Order.{links, follow_all, search_for_links-follow_all}
use crawler.Parser.Links.Once.{IsApart, Followed, follow-Cases, pushes}

unfoldable pub occurrences : List ℕ → List (List ℕ) → ℕ
occurrences url [] = 0
occurrences url (v ∷ vs) = (if equal v url then 1 else 0) + occurrences url vs

occurrences-append :
    (url u : List ℕ) (l : List (List ℕ))
    → occurrences url (l ++ (u ∷ [])) ≡ occurrences url l + (if equal u url then 1 else 0)
unfolding occurrences
occurrences-append url u [] = omega arith
occurrences-append url u (v ∷ l) = omega (arith, occurrences-append url u l)

occurrences-put_queue :
    (url u key g : List ℕ) (q : Queues) (b : Bool)
    → equal u url ≡ b
    → occurrences url (put_queue key (q key ++ (u ∷ [])) q g)
      ≤ occurrences url (q g) + (if b then 1 else 0)
occurrences-put_queue url u key g q b e = elim (Bool-cases (equal key g)) [
  | inr other ↦ rw other (omega arith)
  | inl mine ↦
      let same = equal-eq key g mine in
      let there = occurrences-append url u (q g) in rw (mine, same, there, e) (omega arith)
]

-- 1 for a string that the filter does not know.
abbrev pub is_new : Checked → ℕ
is_new unseen = 1
is_new _ = 0

module _ (r : Redis) (law : IsRedis r) (answers : Answers r)
    (list_command : ListCommand → r.Db → Option ListReply × r.Db) (queues : r.Db → Queues)
    (list_law : IsListServer list_command queues) (hash : List ℕ → ℕ → ℕ)
    (apart : IsApart r list_command queues) (workers : ℕ) (url : List ℕ) (key : List ℕ) where
  abbrev news : r.Db → ℕ
  news db = is_new (bloom_check r hash url db).0

  news-le :
      (db db' : r.Db) → ((g : ℕ) → r.bit db g ≡ true → r.bit db' g ≡ true) → news db' ≤ news db
  news-le db db' k = elim (bloom_check-cases r law answers hash url db) [
    | inr old ↦ rw (IsSeen-keeps r law answers hash url db db' k old) (omega arith)
    | inl new ↦ elim (bloom_check-cases r law answers hash url db') [
      | inr old' ↦ rw (new, old') (omega arith)
      | inl new' ↦ rw (new, new') (omega arith)
    ]
  ]

  follow-occurrences :
      (u : List ℕ) (db db' : r.Db)
      → Followed r law answers list_command queues list_law hash apart workers u db db'
      → occurrences url (queues db' key) + news db' ≤ occurrences url (queues db key) + news db
  follow-occurrences u db db' f = elim f.pushed [
    | inl same ↦ rw same (omega arith)
    | inr (new, after) ↦
        let key_u = queue_of r list_command hash workers u in
        let fewer = news-le db db' f.keeps in
        elim (Bool-cases (equal u url)) [
          | inr other ↦
              let none_more = occurrences-put_queue url u key_u key (queues db) false other in
              rw after (omega (arith, fewer, none_more))
          | inl mine ↦
              let one_more = occurrences-put_queue url u key_u key (queues db) true mine in
              let same = equal-eq u url mine in
              let old : news db' ≡ 0 =
                ap (λ (p : Checked × r.Db). is_new p.0)
                  (subst (λ x. IsSeen r law answers hash x db') same f.settled.is_seen) in
              let was : news db ≡ 1 =
                ap (λ (p : Checked × r.Db). is_new p.0)
                  (subst (λ x. bloom_check r hash x db ≡ (unseen, db)) same new) in
              rw after (omega (arith, old, was, one_more))
        ]
  ]

  step :
      (u : List ℕ) (us : List (List ℕ)) (db db' : r.Db) {v : Visit r.Db}
      → follow r list_command hash workers u db ≡ v
      → follow_all r list_command hash workers (u ∷ us) db ≡ some db'
      → then_children v (λ d. follow_all r list_command hash workers us d) ≡ some db'
  unfolding follow_all
  step u us db db' e h =
      subst (λ w. then_children w (λ d. follow_all r list_command hash workers us d) ≡ some db') e h

  follow_all-occurrences :
      (urls : List (List ℕ)) (db db' : r.Db)
      → follow_all r list_command hash workers urls db ≡ some db'
      → occurrences url (queues db' key) + news db' ≤ occurrences url (queues db key) + news db
  unfolding follow_all
  follow_all-occurrences [] db db' h =
      let same : db ≡ db' = ap (λ (o : Option r.Db). elim o [ none ↦ db | some d ↦ d ]) h in
      rw same (omega arith)
  follow_all-occurrences (u ∷ us) db db' h =
      elim (follow-Cases r law answers list_command queues list_law hash apart workers u db) [
        | inl bad ↦ absurd (cc (step u us db db' bad h))
        | inr (db1, one, f) ↦
            let first = follow-occurrences u db db1 f in
            let others = follow_all-occurrences us db1 db' (step u us db db' one h) in
            omega (arith, first, others)
      ]

  -- With a server that carries out every command: the search for the links of a page adds a text to
  -- a queue at most once, and not at all if the filter knows the text at the start of the search.
  pub search_for_links_once :
      (n : Node) (db db' : r.Db)
      → search_for_links r list_command hash workers n db ≡ some db'
      → occurrences url (queues db' key) ≤ occurrences url (queues db key) + news db
  search_for_links_once n db db' h =
      let walk =
        search_for_links-follow_all r list_command hash workers
          (pushes r law answers list_command queues list_law hash apart workers) n db in
      let found = follow_all-occurrences (links n) db db' (sym walk ∙ h) in omega (arith, found)
