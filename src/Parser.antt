-- ===== src/Parser.antt =====
-- html_parser.c. gumbo is a parameter: its tree comes as data, with the attributes of an element as
-- the function `gumbo_get_attribute` of them. Strings are lists of their bytes, without the NUL.
pub mod Links
pub mod Author
pub mod Page
use crawler.Base.{ℕ, Bool, true, false, ◌&&◌, ◌||◌, Option, none, some, List, [], ◌∷◌, ◌==◌}
use crawler.Head.Fields.{equal}

-- The tags that the source names.
pub data Tag : Type 0 where
  tag_a tag_b tag_font tag_span tag_p tag_h1 tag_div tag_em other_tag : Tag

abbrev pub Attributes : Type 0
Attributes = List ℕ → Option (List ℕ)

mutual
  pub data Node : Type 0 where
    element : Tag → Attributes → Children → Node
    text_node : List ℕ → Node
    other_node : Node

  pub data Children : Type 0 where
    no_nodes : Children
    node_and : Node → Children → Children

abbrev is_prefix : List ℕ → List ℕ → Bool
is_prefix [] cs = true
is_prefix (a ∷ as') [] = false
is_prefix (a ∷ as') (c ∷ cs) = a == c && is_prefix as' cs

-- Whether `strstr(s, part)` finds the part.
unfoldable pub strstr : List ℕ → List ℕ → Bool
strstr [] part = is_prefix part []
strstr (c ∷ cs) part = is_prefix part (c ∷ cs) || strstr cs part

-- `attribute && !strcmp(attribute->value, value)`.
abbrev pub has_value : List ℕ → Option (List ℕ) → Bool
has_value value none = false
has_value value (some v) = equal v value
