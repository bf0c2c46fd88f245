-- ===== src/Pool/Open.antt =====
-- connection.c: what is to hold of the pool; `connection_init` and `get_connection`.
use crawler.Base.{
  ℕ, zero, suc, ◌+◌, ◌≡◌, refl, ◌∙◌, inl, inr, Bool, true, false, ◌&&◌, ◌||◌, Option, none, some,
  List, [], ◌∷◌, arith, length, ◌==◌, ==_iff, ltb, Bool-cases, ap,
}
use crawler.Net.{
  query_of, read_of, write_of, Ptr, null, to_conn, Conn, World, zero_event, zero_conn, same_ev,
}
use crawler.Epoll.Dispatch.{is_open}
use crawler.Tree.{TimerTree, IsTimerTree}
use crawler.Timer.Sync.{InSync, same_ev→eq}
use crawler.Pool.{get_free_connection_n, link, with_free, connection_init, get_connection}
use crawler.Pool.Chain.{mem, distinct, Chain, used, put, Chain-put, used-put_open}

-- Neither event of connection i is active or has a timer.
abbrev pub Idle : {Tree Set : Type 0} → World Tree Set → ℕ → Type 0
Idle w i =
    ((w.evs (read_of i)).active ≡ false)
    × ((w.evs (read_of i)).timer_set ≡ false)
    × ((w.evs (write_of i)).active ≡ false)
    × ((w.evs (write_of i)).timer_set ≡ false)

pub closed_fd : (o : Option ℕ) → is_open o ≡ false → o ≡ none
closed_fd none h = refl
closed_fd (some s) h = ground arith

-- The numbers below i, and then l.
abbrev pub upto : ℕ → List ℕ → List ℕ
upto zero l = l
upto (suc i) l = upto i (i ∷ l)

mem-upto : (j i : ℕ) (l : List ℕ) → mem j (upto i l) ≡ (ltb j i || mem j l)
mem-upto j zero l = ground arith
mem-upto j (suc i) l = ground (arith, mem-upto j i (i ∷ l))

length-upto : (i : ℕ) (l : List ℕ) → length (upto i l) ≡ i + length l
length-upto zero l = ground arith
length-upto (suc i) l = ground (arith, length-upto i (i ∷ l))

not_listed :
    (i : ℕ) (l : List ℕ) → ((j : ℕ) → mem j l ≡ true → ltb j (suc i) ≡ false) → mem i l ≡ false
not_listed i l above = elim (Bool-cases (mem i l)) [ inl m ↦ ground (arith, above i m) | inr m ↦ m ]

distinct-upto :
    (i : ℕ) (l : List ℕ)
    → ((j : ℕ) → mem j l ≡ true → ltb j i ≡ false)
    → distinct l ≡ true
    → distinct (upto i l) ≡ true
distinct-upto zero l above h = h
distinct-upto (suc i) l above h =
    let fresh = not_listed i l above in
    distinct-upto i (i ∷ l) (λ j m. ground (arith, above j)) (ground arith)

Chain-link :
    (i : ℕ) (next : Ptr) (c : ℕ → Conn) (l : List ℕ)
    → ((j : ℕ) → mem j l ≡ true → ltb j i ≡ false)
    → Chain c next l
    → let (p, c') = link i next c in Chain c' p (upto i l)
unfolding link
Chain-link zero next c l above h = h
Chain-link (suc i) next c l above h =
    let v = record zero_conn { data_ptr = next } in
    let same : (i == i) ≡ true = ground arith in
    Chain-link i (to_conn i) (put c i v) (i ∷ l) (λ j m. ground (arith, above j))
      (refl, rw same (Chain-put c next l i v (not_listed i l above) h))

link-fd :
    (i : ℕ) (next : Ptr) (c : ℕ → Conn) (j : ℕ) → (c j).fd ≡ none → ((link i next c).1 j).fd ≡ none
unfolding link
link-fd zero next c j h = h
link-fd (suc i) next c j h = link-fd i (to_conn i) _ j (ground arith)

used-none : (c : ℕ → Conn) (n : ℕ) → ((j : ℕ) → (c j).fd ≡ none) → used c n ≡ 0
used-none c zero h = refl
used-none c (suc n) h = rw (h n, used-none c n h) refl

module _ {Tree Set : Type 0} where
  -- The pool of n connections, where the free list is l: it has the closed connections and no
  -- other, each once and idle, and every connection is either open or counted as free.
  pub record IsPool (n : ℕ) (l : List ℕ) (w : World Tree Set) : Type 0 where
    pub chain : Chain w.conns w.free_connections l
    pub once : distinct l ≡ true
    pub count : get_free_connection_n w ≡ length l
    pub below : (i : ℕ) → mem i l ≡ true → ltb i n ≡ true
    pub shut : (i : ℕ) → mem i l ≡ true → is_open (w.conns i).fd ≡ false
    pub listed : (i : ℕ) → ltb i n ≡ true → is_open (w.conns i).fd ≡ false → mem i l ≡ true
    pub idle : (i : ℕ) → mem i l ≡ true → Idle w i
    pub all : used w.conns n + length l ≡ n

  pub with_free-IsPool :
      (n : ℕ) (w : World Tree Set)
      → IsPool (suc n) (upto (suc n) []) (with_free w (suc n) (link (suc n) null (λ j. zero_conn)))
  with_free-IsPool n w =
      let closed = λ (j : ℕ). link-fd (suc n) null (λ i. zero_conn) j refl in
      record {
        chain = Chain-link (suc n) null (λ j. zero_conn) [] (λ j m. ground arith) refl;
        once = distinct-upto (suc n) [] (λ j m. ground arith) refl;
        count = ground (arith, length-upto (suc n) []);
        below = λ j m. ground (arith, mem-upto j (suc n) []);
        shut = λ j m. rw (closed j) refl;
        listed = λ j b c. ground (arith, mem-upto j (suc n) []);
        idle = λ j m. (refl, refl, refl, refl);
        all = ground (
          arith,
          length-upto (suc n) [],
          used-none (link (suc n) null (λ j. zero_conn)).1 (suc n) closed,
        );
      }

  -- Where `calloc` gives memory three times, `connection_init(n)` for n > 0 succeeds, and makes the pool of n
  -- connections that are all free, in the order of their numbers.
  pub connection_init-IsPool :
      (calloc_ok : ℕ → Bool) (n : ℕ) (w : World Tree Set)
      → calloc_ok 0 && calloc_ok 1 && calloc_ok 2 ≡ true
      → (w' : World Tree Set) × (connection_init calloc_ok (suc n) w ≡ some w')
        × IsPool (suc n) (upto (suc n) []) w'
  unfolding connection_init
  connection_init-IsPool calloc_ok n w ok = (_, rw ok refl, with_free-IsPool n w)

  -- What `get_connection(s)` promises: nothing changes where every connection is open; otherwise
  -- the connection is one that was closed, which now is open, and its events are cleared.
  abbrev pub Got : ℕ → ℕ → List ℕ → World Tree Set → Option ℕ × World Tree Set → Type 0
  Got s n [] w (o, w') = (o ≡ none) × (w' ≡ w) × (used w.conns n ≡ n)
  Got s n (i ∷ l) w (o, w') =
      (o ≡ some i)
      × IsPool n l w'
      × ((w.conns i).fd ≡ none)
      × ((w'.conns i).fd ≡ some s)
      × (w'.evs (read_of i) ≡ zero_event)
      × (w'.evs (write_of i) ≡ zero_event)

  -- On a pool `get_connection` gives a closed connection, opened with the descriptor s, and the
  -- rest is again a pool; it fails, and changes nothing, only if all n connections are open.
  pub get_connection-Got :
      (s n : ℕ) (l : List ℕ) (w : World Tree Set) → IsPool n l w → Got s n l w (get_connection s w)
  unfolding get_connection
  get_connection-Got s n [] w p = rw p.chain (refl, refl, ground (arith, p.all))
  get_connection-Got s n (i ∷ l) w p =
      let (e, rest) = p.chain in
      let fresh : mem i l ≡ false = ground (arith, p.once) in
      let here : mem i (i ∷ l) ≡ true = ground arith in
      let v = record zero_conn { fd = some s } in
      rw e (
        refl,
        record {
          chain = Chain-put w.conns (w.conns i).data_ptr l i v fresh rest;
          once = ground (arith, p.once);
          count = ground (arith, p.count);
          below = λ j m. p.below j (ground arith);
          shut = λ j m. ground (arith, p.shut j (ground arith));
          listed = λ j b c. elim (Bool-cases (i == j)) [
            | inl same ↦ ground arith
            | inr other ↦ ground (arith, p.listed j b (rw other at c))
          ];
          idle = λ j m. elim (Bool-cases (i == j)) [
            | inl same ↦ let equal = (==_iff i j).0 same in cc
            | inr other ↦ rw other (p.idle j (ground arith))
          ];
          all =
              ground
                (arith, used-put_open w.conns n i v (p.below i here) refl (p.shut i here), p.all);
        },
        closed_fd _ (p.shut i here),
        ground arith,
        ground arith,
        ground arith,
      )

module _ (t : TimerTree) (law : IsTimerTree t) {Set : Type 0} where
  -- What `connection_init` leaves, where no query has a timer and the tree is empty.
  pub with_free-InSync :
      (n : ℕ) (p : Ptr × (ℕ → Conn)) (w : World t.Tree Set)
      → w.timers ≡ t.empty
      → ((q : ℕ) → (w.evs (query_of q)).timer_set ≡ false)
      → InSync t law (with_free w n p)
  with_free-InSync n p w empty unset (read_of i) =
      ap (λ s. t.find s (read_of i)) empty ∙ law.find-empty (read_of i)
  with_free-InSync n p w empty unset (write_of i) =
      ap (λ s. t.find s (write_of i)) empty ∙ law.find-empty (write_of i)
  with_free-InSync n p w empty unset (query_of q) =
      ap (λ s. t.find s (query_of q)) empty ∙ law.find-empty (query_of q) ∙ rw (unset q) refl

  -- `get_connection` on a pool clears the two events of its connection without losing a timer: the
  -- timers in the tree still are those that the events have.
  pub get_connection-InSync :
      (s n : ℕ) (l : List ℕ) (w : World t.Tree Set)
      → IsPool n l w
      → InSync t law w
      → InSync t law (get_connection s w).1
  unfolding get_connection
  get_connection-InSync s n [] w p sync d = rw p.chain (sync d)
  get_connection-InSync s n (i ∷ l) w p sync d =
      let (e, rest) = p.chain in
      let (ra, rt, wa, wt) = p.idle i (ground arith) in
      let r = sync (read_of i) in
      let v = sync (write_of i) in
      rw e (elim (Bool-cases (same_ev (write_of i) d)) [
        | inl w_here ↦
            let equal = same_ev→eq (write_of i) d w_here in rw (w_here, ← equal) (v ∙ rw wt refl)
        | inr w_other ↦ elim (Bool-cases (same_ev (read_of i) d)) [
          | inl here ↦
              let equal = same_ev→eq (read_of i) d here in
              rw (w_other, here, ← equal) (r ∙ rw rt refl)
          | inr other ↦ rw (w_other, other) (sync d)
        ]
      ])
