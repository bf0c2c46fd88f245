-- ===== src/Parser/Links/Order.antt =====
-- `search_for_links` of html_parser.c: the links of a page in the order of the document.
use crawler.Base.{
  ℕ, ◌≡◌, refl, ap, ◌⊎◌, inl, inr, Bool, true, false, Option, none, some, List, [], ◌∷◌, ◌++◌, ◌==◌,
  ltb, length, Bool-cases, arith,
}
use mathlib.Core.Path.{fun_ext}
use crawler.Redis.{Redis}
use crawler.Redis.Lists.{ListCommand, ListReply, redis_list_rpush}
use crawler.Bloom.{Checked, seen, unseen, check_failed, bloom_check}
use crawler.Parser.{Node, element, text_node, other_node, Children, no_nodes, node_and}
use crawler.Parser.Links.{
  link_of, Visit, go_in, bad_visit, queue_of, on_pushed, on_checked, follow, visit_link,
  then_children, then_next, search_for_links, search_children,
}

abbrev pub and_links : Option (List ℕ) → List (List ℕ) → List (List ℕ)
and_links none l = l
and_links (some url) l = url ∷ l

-- The links of a tree, an element's own before those of its children.
unfoldable mutual
  pub links : Node → List (List ℕ)
  links (element tag attributes children) =
      and_links (link_of tag attributes) (child_links children)
  links _ = []

  pub child_links : Children → List (List ℕ)
  child_links no_nodes = []
  child_links (node_and n ns) = links n ++ child_links ns

module _ (r : Redis) (list_command : ListCommand → r.Db → Option ListReply × r.Db)
    (hash : List ℕ → ℕ → ℕ) (workers : ℕ) where
  unfoldable pub follow_all : List (List ℕ) → r.Db → Option r.Db
  follow_all [] db = some db
  follow_all (url ∷ urls) db =
      then_children (follow r list_command hash workers url db) (λ db'. follow_all urls db')

  -- An element is never left before its children.
  abbrev pub Enters : Visit r.Db → Type 0
  Enters v = (v ≡ bad_visit) ⊎ ((db : r.Db) × (v ≡ go_in db))

  module _
      (pushes : (key value : List ℕ) (db : r.Db)
        → (redis_list_rpush list_command key value db).0 ≡ true) where
    on_pushed-Enters : (p : Bool × r.Db) → p.0 ≡ true → Enters (on_pushed p)
    on_pushed-Enters (true, db) h = inr (db, refl)
    on_pushed-Enters (false, db) h = ground arith

    on_checked-Enters :
        (url : List ℕ) (p : Checked × r.Db) → Enters (on_checked r list_command hash workers url p)
    on_checked-Enters url (seen, db) = inr (db, refl)
    on_checked-Enters url (check_failed, db) = inr (db, refl)
    on_checked-Enters url (unseen, db) = elim (Bool-cases (workers == 0)) [
      | inl e ↦ rw e (inl refl)
      | inr e ↦ rw e (on_pushed-Enters _ (pushes (queue_of r list_command hash workers url) url _))
    ]

    follow-Enters : (url : List ℕ) (db : r.Db) → Enters (follow r list_command hash workers url db)
    unfolding follow
    follow-Enters url db = elim (Bool-cases (ltb (length url) 1024)) [
      | inl e ↦ rw e (on_checked-Enters url (bloom_check r hash url db))
      | inr e ↦ rw e (inl refl)
    ]

    follow_all-append :
        (us vs : List (List ℕ)) (db : r.Db)
        → follow_all (us ++ vs) db ≡ then_next (follow_all us db) (λ db'. follow_all vs db')
    unfolding follow_all
    follow_all-append [] vs db = refl
    follow_all-append (u ∷ us) vs db = elim (follow-Enters u db) [
      | inl e ↦ rw e refl
      | inr p ↦ rw p.1 (follow_all-append us vs p.0)
    ]

    mutual
      unfolding search_for_links links follow_all

      search-follow_all :
          (n : Node) (db : r.Db)
          → search_for_links r list_command hash workers n db ≡ follow_all (links n) db
      search-follow_all (element tag attributes children) db =
          elim (link_of tag attributes)
            as (λ o.
              then_children (visit_link r list_command hash workers o db)
                (λ db'. search_children r list_command hash workers children db')
              ≡ follow_all (and_links o (child_links children)) db) [
                | none ↦ search_children-follow_all children db
                | some url ↦
                    ap (then_children (follow r list_command hash workers url db))
                      (fun_ext (λ db'. search_children-follow_all children db'))
              ]
      search-follow_all (text_node s) db = refl
      search-follow_all other_node db = refl

      search_children-follow_all :
          (ns : Children) (db : r.Db)
          → search_children r list_command hash workers ns db ≡ follow_all (child_links ns) db
      search_children-follow_all no_nodes db = refl
      search_children-follow_all (node_and n ns) db =
          rw (search-follow_all n db, follow_all-append (links n) (child_links ns) db)
            (ap (then_next (follow_all (links n) db))
              (fun_ext (λ db'. search_children-follow_all ns db')))

    -- Where every push succeeds, the walk over the tree follows the links of the page one after the
    -- other, in the order of the document.
    pub search_for_links-follow_all :
        (n : Node) (db : r.Db)
        → search_for_links r list_command hash workers n db ≡ follow_all (links n) db
    search_for_links-follow_all n db = search-follow_all n db
