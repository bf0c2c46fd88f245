-- ===== src/Parser/Author/Last.antt =====
-- `search_for_author` of html_parser.c: the texts that it leaves in its four buffers.
use crawler.Base.{
  ℕ, ◌≡◌, refl, sym, ap, Bool, true, false, some, List, [], ◌∷◌, ◌++◌, ltb, length, arith,
}
use crawler.Parser.{
  Tag, Attributes, Node, element, text_node, other_node, Children, no_nodes, node_and,
}
use crawler.Parser.Author.{
  Article, Spot, Found, no_text, a_text, no_child, category_at, title_at, author_at, timestamp_at,
  copy_text, visit, search_for_author, search_among,
}

-- The elements of a tree in the order of the document.
unfoldable mutual
  pub spots : Node → List (Tag × Attributes) → List Spot
  spots (element tag attributes children) above =
      record { tag = tag; attributes = attributes; above = above; children = children }
      ∷ child_spots children ((tag, attributes) ∷ above)
  spots (text_node s) above = []
  spots other_node above = []

  pub child_spots : Children → List (Tag × Attributes) → List Spot
  child_spots no_nodes above = []
  child_spots (node_and n ns) above = spots n above ++ child_spots ns above

-- The last text that a rule finds, or the old one.
abbrev found_or : Found → List ℕ → List ℕ
found_or (a_text s) old = s
found_or _ old = old

unfoldable pub last_text : (Spot → Found) → List Spot → List ℕ → List ℕ
last_text rule [] old = old
last_text rule (s ∷ ss) old = last_text rule ss (found_or (rule s) old)

abbrev fits : Found → Bool
fits no_text = true
fits (a_text s) = ltb (length s) 1024
fits no_child = false

-- Each text that a rule finds fits its buffer, and no rule meets an element without children.
pub record Fits (s : Spot) : Type 0 where
  pub category : fits (category_at s) ≡ true
  pub title : fits (title_at s) ≡ true
  pub author : fits (author_at s) ≡ true
  pub timestamp : fits (timestamp_at s) ≡ true

abbrev pub AllFit : List Spot → Type 0
AllFit [] = Unit {0}
AllFit (s ∷ ss) = Fits s × AllFit ss

copy_text-found_or :
    (f : Found) (old : List ℕ) → fits f ≡ true → copy_text f old ≡ some (found_or f old)
unfolding copy_text
copy_text-found_or no_text old h = refl
copy_text-found_or (a_text s) old h = rw h refl
copy_text-found_or no_child old h = ground arith

abbrev after_spot : Spot → Article → Article
after_spot s art = record {
  title = found_or (title_at s) art.title;
  category = found_or (category_at s) art.category;
  author = found_or (author_at s) art.author;
  timestamp = found_or (timestamp_at s) art.timestamp;
}

visit-after_spot : (s : Spot) (art : Article) → Fits s → visit s art ≡ some (after_spot s art)
unfolding visit
visit-after_spot s art h =
    rw
      (
        copy_text-found_or (category_at s) art.category h.category,
        copy_text-found_or (title_at s) art.title h.title,
        copy_text-found_or (author_at s) art.author h.author,
        copy_text-found_or (timestamp_at s) art.timestamp h.timestamp,
      )
      refl

abbrev pub last_texts : List Spot → Article → Article
last_texts ss art = record {
  title = last_text title_at ss art.title;
  category = last_text category_at ss art.category;
  author = last_text author_at ss art.author;
  timestamp = last_text timestamp_at ss art.timestamp;
}

last_text-append :
    (rule : Spot → Found) (ss ts : List Spot) (old : List ℕ)
    → last_text rule (ss ++ ts) old ≡ last_text rule ts (last_text rule ss old)
unfolding last_text
last_text-append rule [] ts old = refl
last_text-append rule (s ∷ ss) ts old = last_text-append rule ss ts _

last_texts-append :
    (ss ts : List Spot) (art : Article)
    → last_texts (ss ++ ts) art ≡ last_texts ts (last_texts ss art)
last_texts-append ss ts art =
    rw
      (
        last_text-append title_at ss ts art.title,
        last_text-append category_at ss ts art.category,
        last_text-append author_at ss ts art.author,
        last_text-append timestamp_at ss ts art.timestamp,
      )
      refl

AllFit-append : (ss ts : List Spot) → AllFit (ss ++ ts) → AllFit ss × AllFit ts
AllFit-append [] ts h = (tt, h)
AllFit-append (s ∷ ss) ts (h, hs) = let (a, b) = AllFit-append ss ts hs in ((h, a), b)

mutual
  unfolding search_for_author spots last_text

  search-last_texts :
      (n : Node) (above : List (Tag × Attributes)) (art : Article)
      → AllFit (spots n above)
      → search_for_author n above art ≡ some (last_texts (spots n above) art)
  search-last_texts (element tag attributes children) above art (h, hs) =
      rw (visit-after_spot _ art h) (search_among-last_texts children _ _ hs)
  search-last_texts (text_node s) above art h = refl
  search-last_texts other_node above art h = refl

  search_among-last_texts :
      (ns : Children) (above : List (Tag × Attributes)) (art : Article)
      → AllFit (child_spots ns above)
      → search_among ns above art ≡ some (last_texts (child_spots ns above) art)
  search_among-last_texts no_nodes above art h = refl
  search_among-last_texts (node_and n ns) above art h =
      let (first, others) = AllFit-append (spots n above) (child_spots ns above) h in
      rw (search-last_texts n above art first, search_among-last_texts ns above _ others)
        (ap some (sym (last_texts-append (spots n above) (child_spots ns above) art)))
