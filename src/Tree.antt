-- ===== src/Tree.antt =====
-- rbtree.h as its callers use it: the tree of timers, with the keys of `rbtree_insert_timer_value`.
use crawler.Base.{ℕ, Option, none, some, ◌≡◌, ◌<◌, ◌≤◌, if◌then◌else◌}
use crawler.Base.Word.{sub32}
use crawler.Net.{EvId, same_ev}

-- `min` is `rbtree_min` from the root, or `none` where the root is the sentinel.
pub record TimerTree : Type 1 where
  pub Tree : Type 0
  pub empty : Tree
  pub insert : EvId → ℕ → Tree → Tree
  pub delete : EvId → Tree → Tree
  pub min : Tree → Option (EvId × ℕ)
  pub find : Tree → EvId → Option ℕ
  pub count : Tree → ℕ

-- The key is not before `base`, in the order of 32-bit times of which all are less than 2^31
-- after `base`.
abbrev pub InWindow : ℕ → ℕ → Type 0
InWindow base key = sub32 key base < 2147483648

-- What the tree promises a caller that inserts only nodes that are not in it, and deletes only those
-- that are.
pub record IsTimerTree (t : TimerTree) : Type 0 where
  pub find-empty : (e : EvId) → t.find t.empty e ≡ none
  pub find-insert :
      (s : t.Tree) (e d : EvId) (k : ℕ)
      → t.find s e ≡ none
      → t.find (t.insert e k s) d ≡ (if same_ev e d then some k else t.find s d)
  pub find-delete :
      (s : t.Tree) (e d : EvId) (k : ℕ)
      → t.find s e ≡ some k
      → t.find (t.delete e s) d ≡ (if same_ev e d then none else t.find s d)
  pub count-delete :
      (s : t.Tree) (e : EvId) (k : ℕ) → t.find s e ≡ some k → t.count (t.delete e s) < t.count s
  pub min-none : (s : t.Tree) (e : EvId) → t.min s ≡ none → t.find s e ≡ none
  pub min-find : (s : t.Tree) (e : EvId) (k : ℕ) → t.min s ≡ some (e, k) → t.find s e ≡ some k
  pub min-le :
      (s : t.Tree) (base : ℕ) (e d : EvId) (k j : ℕ)
      → ((c : EvId) (i : ℕ) → t.find s c ≡ some i → InWindow base i)
      → t.min s ≡ some (e, k)
      → t.find s d ≡ some j
      → sub32 k base ≤ sub32 j base
