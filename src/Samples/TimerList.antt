-- ===== src/Samples/TimerList.antt =====
-- The tree of timers of rbtree.c, as a list of nodes with no node twice.
use crawler.Base.{
  ℕ, suc, ◌<◌, ◌≤◌, ◌≡◌, refl, ◌⊎◌, inl, inr, Bool, true, false, not, ◌&&◌, Option, none, some,
  List, [], ◌∷◌, arith, length, if◌then◌else◌, ltb, Bool-cases, Option-cases,
}
use crawler.Base.Word.{sub32}
use crawler.Net.{EvId, same_ev}
use crawler.Timer.Sync.{same_ev→eq, same_ev_refl}
use crawler.Tree.{TimerTree, InWindow, IsTimerTree}

abbrev Nodes : Type 0
Nodes = List (EvId × ℕ)

abbrev find_node : Nodes → EvId → Option ℕ
find_node [] d = none
find_node ((e, k) ∷ l) d = if same_ev e d then some k else find_node l d

abbrev is_none : Option ℕ → Bool
is_none none = true
is_none (some k) = false

abbrev once_each : Nodes → Bool
once_each [] = true
once_each ((e, k) ∷ l) = is_none (find_node l e) && once_each l

abbrev remove : EvId → Nodes → Nodes
remove d [] = []
remove d ((e, k) ∷ l) = if same_ev e d then l else (e, k) ∷ remove d l

-- `(int32_t) (k - j) < 0`.
abbrev before : ℕ → ℕ → Bool
before k j = not (ltb (sub32 k j) 2147483648)

abbrev pick : EvId × ℕ → Option (EvId × ℕ) → Option (EvId × ℕ)
pick (e, k) none = some (e, k)
pick (e, k) (some (d, j)) = if before j k then some (d, j) else some (e, k)

abbrev first : Nodes → Option (EvId × ℕ)
first [] = none
first (n ∷ l) = pick n (first l)

find-remove :
    (l : Nodes) (e d : EvId)
    → once_each l ≡ true
    → find_node (remove e l) d ≡ (if same_ev e d then none else find_node l d)
find-remove [] e d h = ground arith
find-remove ((c, k) ∷ l) e d h = elim (Bool-cases (same_ev c e)) [
  | inl same ↦
      let equal = same_ev→eq c e same in
      rw (same, ← equal)
        (elim (Bool-cases (same_ev c d)) [
          | inl here ↦ let gone = same_ev→eq c d here in rw (here, ← gone) (ground arith)
          | inr other ↦ rw other refl
        ])
  | inr differs ↦ rw differs (elim (Bool-cases (same_ev c d)) [
    | inl here ↦
        let gone = same_ev→eq c d here in
        let off : same_ev e d ≡ false = elim (Bool-cases (same_ev e d)) [
          | inr apart ↦ apart
          | inl on ↦
              let q = same_ev→eq e d on in
              let r : same_ev c e ≡ true = rw q here in ground (arith, r, differs)
        ] in
        rw (here, off) refl
    | inr other ↦ rw (other) (find-remove l e d (ground arith))
  ])
]

pub once_each-remove : (l : Nodes) (e : EvId) → once_each l ≡ true → once_each (remove e l) ≡ true
once_each-remove [] e h = refl
once_each-remove ((c, k) ∷ l) e h = elim (Bool-cases (same_ev c e)) [
  | inl same ↦ rw same (ground arith)
  | inr differs ↦ rw differs (ground (arith, once_each-remove l e, find-remove l e c))
]

length-remove :
    (l : Nodes) (e : EvId) (k : ℕ) → find_node l e ≡ some k → length (remove e l) < length l
length-remove [] e k f = ground arith
length-remove ((c, j) ∷ l) e k f = ground (arith, length-remove l e k)

first-none : (l : Nodes) (e : EvId) → first l ≡ none → find_node l e ≡ none
first-none [] e h = refl
first-none ((c, k) ∷ l) e h = elim (Option-cases (first l)) [
  | inl f ↦ ground arith
  | inr (m, f) ↦ ground arith
]

-- A node of the rest is another one.
rest_differs :
    (c d : EvId) (k j : ℕ) (l : Nodes)
    → once_each ((c, k) ∷ l) ≡ true
    → find_node l d ≡ some j
    → same_ev c d ≡ false
rest_differs c d k j l h g = elim (Bool-cases (same_ev c d)) [
  | inr other ↦ other
  | inl same ↦
      let equal = same_ev→eq c d same in let g' = rw (← equal) at g in ground (arith, g', h)
]

first-find :
    (l : Nodes) (e : EvId) (k : ℕ)
    → once_each l ≡ true
    → first l ≡ some (e, k)
    → find_node l e ≡ some k
first-find [] e k h f = ground arith
first-find ((c, j) ∷ l) e k h f = elim (Option-cases (first l)) [
  | inl nil ↦ ground (arith, same_ev_refl c)
  | inr ((d, i), g) ↦
      let there = first-find l d i (ground arith) g in
      let other = rest_differs c d j i l h there in
      elim (Bool-cases (before i j)) [
        | inl less ↦ ground (arith, there, other)
        | inr off ↦ ground (arith, same_ev_refl c)
      ]
]

before-le :
    (base k j : ℕ)
    → InWindow base k
    → InWindow base j
    → before k j ≡ true
    → sub32 k base ≤ sub32 j base
before-le base k j wk wj h = ground arith

not_before-le :
    (base k j : ℕ)
    → InWindow base k
    → InWindow base j
    → before k j ≡ false
    → sub32 j base ≤ sub32 k base
not_before-le base k j wk wj h = ground arith

le_refl : (a : ℕ) → a ≤ a
le_refl a = omega arith

le_trans : {a b c : ℕ} → a ≤ b → b ≤ c → a ≤ c
le_trans h g = omega arith

first-le :
    (l : Nodes) (base : ℕ) (e d : EvId) (k j : ℕ)
    → ((c : EvId) (i : ℕ) → find_node l c ≡ some i → InWindow base i)
    → once_each l ≡ true
    → first l ≡ some (e, k)
    → find_node l d ≡ some j
    → sub32 k base ≤ sub32 j base
first-le [] base e d k j win h f g = ground arith
first-le ((c, n) ∷ l) base e d k j win h f g =
    let here = win c n (rw (same_ev_refl c) refl) in
    elim (Option-cases (first l)) [
      | inl nil ↦ ground (arith, first-none l d nil)
      | inr ((m, i), least) ↦
          let there = first-find l m i (ground arith) least in
          let later = win m i (rw (rest_differs c m n i l h there) there) in
          let ih = λ (g' : find_node l d ≡ some j).
            first-le l base m d i j (λ a b r. win a b (rw (rest_differs c a n b l h r) r))
              (ground arith) least g' in
          elim (Bool-cases (before i n)) [
            | inl less ↦
                let le = before-le base i n later here less in
                let i_k : i ≡ k = ground arith in
                elim (Bool-cases (same_ev c d)) [
                  | inl same ↦ let n_j : n ≡ j = ground arith in rw (← i_k, ← n_j) le
                  | inr other ↦ rw (← i_k) (ih (ground arith))
                ]
            | inr off ↦
                let le = not_before-le base i n later here off in
                let n_k : n ≡ k = ground arith in
                elim (Bool-cases (same_ev c d)) [
                  | inl same ↦
                      let n_j : n ≡ j = ground arith in rw (← n_k, ← n_j) (le_refl (sub32 n base))
                  | inr other ↦ rw (← n_k) (le_trans le (ih (ground arith)))
                ]
          ]
    ]

abbrev NodeSet : Type 0
NodeSet = (l : Nodes) × (once_each l ≡ true)

abbrev insert_node :
    (e : EvId) (k : ℕ) (s : NodeSet)
    → (is_none (find_node s.0 e) ≡ true) ⊎ (is_none (find_node s.0 e) ≡ false)
    → NodeSet
insert_node e k (l, h) (inl absent) = ((e, k) ∷ l, rw (absent, h) refl)
insert_node e k s (inr present) = s

find-insert_node :
    (s : NodeSet) (e d : EvId) (k : ℕ)
    (b : (is_none (find_node s.0 e) ≡ true) ⊎ (is_none (find_node s.0 e) ≡ false))
    → find_node s.0 e ≡ none
    → find_node (insert_node e k s b).0 d ≡ (if same_ev e d then some k else find_node s.0 d)
find-insert_node s e d k (inl absent) f = refl
find-insert_node s e d k (inr present) f = ground arith

-- A list with no node twice.
abbrev pub timer_list : TimerTree
timer_list = record {
  Tree = NodeSet;
  empty = ([], refl);
  insert = λ e k s. insert_node e k s (Bool-cases _);
  delete = λ e s. (remove e s.0, once_each-remove s.0 e s.1);
  min = λ s. first s.0;
  find = λ s e. find_node s.0 e;
  count = λ s. length s.0;
}

pub timer_list-IsTimerTree : IsTimerTree timer_list
timer_list-IsTimerTree = record {
  find-empty = λ e. refl;
  find-insert = λ s e d k f. find-insert_node s e d k (Bool-cases _) f;
  find-delete = λ s e d k f. find-remove s.0 e d s.1;
  count-delete = λ s e k f. length-remove s.0 e k f;
  min-none = λ s e f. first-none s.0 e f;
  min-find = λ s e k f. first-find s.0 e k s.1 f;
  min-le = λ s base e d k j win f g. first-le s.0 base e d k j win s.1 f g;
}

length-insert_node :
    (s : NodeSet) (e : EvId) (k : ℕ)
    (b : (is_none (find_node s.0 e) ≡ true) ⊎ (is_none (find_node s.0 e) ≡ false))
    → length (insert_node e k s b).0 ≤ suc (length s.0)
length-insert_node s e k (inl absent) = omega arith
length-insert_node s e k (inr present) = omega arith

pub count-insert :
    (s : timer_list.Tree) (e : EvId) (k : ℕ)
    → timer_list.count (timer_list.insert e k s) ≤ suc (timer_list.count s)
count-insert s e k = length-insert_node s e k (Bool-cases _)
