-- ===== src/Parser/Author.antt =====
-- `search_for_author` of html_parser.c. The links `parent` of the tree are the list of the elements
-- above a node, the nearest first; above the root is the document, whose tag is none of those that
-- are looked for.
pub mod Last
use crawler.Base.{
  ℕ, Bool, true, false, ◌&&◌, Option, none, some, List, [], ◌∷◌, ◌==◌, ltb, if◌then◌else◌, length,
}
use crawler.Head.Fields.{codes, ◌>>=◌}
use crawler.Parser.{
  Tag, tag_a, tag_b, tag_font, tag_span, tag_p, tag_h1, tag_div, tag_em, other_tag, Attributes,
  Node, element, text_node, other_node, Children, no_nodes, node_and, has_value,
}

-- The four buffers of 1024 bytes.
pub record Article : Type 0 where
  pub title : List ℕ
  pub category : List ℕ
  pub author : List ℕ
  pub timestamp : List ℕ

-- A number for each tag, to compare them by.
abbrev tag_number : Tag → ℕ
tag_number tag_a = 0
tag_number tag_b = 1
tag_number tag_font = 2
tag_number tag_span = 3
tag_number tag_p = 4
tag_number tag_h1 = 5
tag_number tag_div = 6
tag_number tag_em = 7
tag_number other_tag = 8

abbrev pub same_tag : Tag → Tag → Bool
same_tag t u = tag_number t == tag_number u

pub record Spot : Type 0 where
  pub tag : Tag
  pub attributes : Attributes
  pub above : List (Tag × Attributes)
  pub children : Children

-- The attributes that are reached by `parent` through elements of the given tags.
unfoldable pub climb : List Tag → Attributes → List (Tag × Attributes) → Option Attributes
climb [] attributes above = some attributes
climb (t ∷ ts) attributes [] = none
climb (t ∷ ts) attributes ((u, up) ∷ above) =
    let rest = climb ts up above in if same_tag t u then rest else none

abbrev has_class : List ℕ → Option Attributes → Bool
has_class name none = false
has_class name (some attributes) = has_value name (attributes (codes "class"))

-- An element of the tag under elements of the tags, the last of them of the class.
abbrev pub is_placed : Tag → List Tag → List ℕ → Spot → Bool
is_placed tag tags name s = same_tag s.tag tag && has_class name (climb tags s.attributes s.above)

-- The first child: no text, a text, or a read behind an empty vector of children.
pub data Found : Type 0 where
  no_text : Found
  a_text : List ℕ → Found
  no_child : Found

abbrev pub first_child : Children → Found
first_child no_nodes = no_child
first_child (node_and (text_node s) ns) = a_text s
first_child (node_and _ ns) = no_text

abbrev pub has_colon : List ℕ → Bool
has_colon [] = false
has_colon (c ∷ cs) = let rest = has_colon cs in if c == b':' then true else rest

abbrev pub with_colon : Found → Found
with_colon (a_text s) = if has_colon s then a_text s else no_text
with_colon f = f

abbrev pub text_if : Bool → Children → Found
text_if true children = first_child children
text_if false children = no_text

unfoldable pub category_at : Spot → Found
category_at s =
    text_if (is_placed tag_b (tag_font ∷ tag_a ∷ tag_span ∷ []) (codes "cr_date") s) s.children

unfoldable pub title_at : Spot → Found
title_at s = text_if (is_placed tag_p (tag_a ∷ tag_h1 ∷ []) (codes "cr_h1title") s) s.children

unfoldable pub author_at : Spot → Found
author_at s = text_if (is_placed tag_a (tag_p ∷ tag_div ∷ []) (codes "mporf") s) s.children

unfoldable pub timestamp_at : Spot → Found
timestamp_at s =
    with_colon (text_if (is_placed tag_em (tag_span ∷ []) (codes "cr_date") s) s.children)

-- `strcpy` into one of the buffers; `none` is a write past it, or the read of no child.
unfoldable pub copy_text : Found → List ℕ → Option (List ℕ)
copy_text no_text old = some old
copy_text (a_text s) old = if ltb (length s) 1024 then some s else none
copy_text no_child old = none

unfoldable pub visit : Spot → Article → Option Article
visit s art = do
  category ← copy_text (category_at s) art.category
  title ← copy_text (title_at s) art.title
  author ← copy_text (author_at s) art.author
  timestamp ← copy_text (timestamp_at s) art.timestamp
  some (record { title = title; category = category; author = author; timestamp = timestamp })

unfoldable mutual
  pub search_for_author : Node → List (Tag × Attributes) → Article → Option Article
  search_for_author (element tag attributes children) above art = do
    art' ←
        visit (record { tag = tag; attributes = attributes; above = above; children = children })
          art
    search_among children ((tag, attributes) ∷ above) art'
  search_for_author (text_node s) above art = some art
  search_for_author other_node above art = some art

  pub search_among : Children → List (Tag × Attributes) → Article → Option Article
  search_among no_nodes above art = some art
  search_among (node_and n ns) above art = do
    art' ← search_for_author n above art
    search_among ns above art'
