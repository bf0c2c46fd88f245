-- ===== src/Pool/Close.antt =====
-- connection.c: `close_connection` on the pool, the events and the timers.
use crawler.Base.{
  ℕ, suc, ◌+◌, ◌≡◌, refl, sym, ap, ◌∙◌, inl, inr, true, false, none, some, List, ◌∷◌, arith, length,
  ◌==◌, ==_iff, ltb, Bool-cases,
}
use mathlib.Core.Path.{subst, fun_ext}
use crawler.Net.{EvId, read_of, write_of, Event, to_conn, World, same_ev}
use crawler.Epoll.{Epoll, event_del}
use crawler.Epoll.Dispatch.{is_open}
use crawler.Tree.{TimerTree, IsTimerTree}
use crawler.Timer.{event_del_timer}
use crawler.Timer.Sync.{InSync, event_del_timer-InSync, same_ev_refl, same_ev→eq}
use crawler.Pool.{free_connection, drop_event, drop_timer, close_open, close_connection}
use crawler.Pool.Chain.{mem, Chain, used, put, Chain-put, used-put_closed}
use crawler.Pool.Open.{Idle, IsPool}

module _ (t : TimerTree) (law : IsTimerTree t) (ep : Epoll) where
  -- What an operation on event e leaves: the connections, the free list, and the other events.
  pub record OnlyEvent (e : EvId) (w w' : World t.Tree ep.Set) : Type 0 where
    pub same_conns : w'.conns ≡ w.conns
    pub same_free : w'.free_connections ≡ w.free_connections
    pub same_n : w'.free_connection_n ≡ w.free_connection_n
    pub others : (d : EvId) → same_ev e d ≡ false → w'.evs d ≡ w.evs d

  drop_event-OnlyEvent :
      (e : EvId) (i : ℕ) (w : World t.Tree ep.Set) → OnlyEvent e w (drop_event t ep e i w)
  unfolding drop_event event_del
  drop_event-OnlyEvent e i w = elim (Bool-cases (w.evs e).active) [
    | inl a ↦
        rw a
          (record { same_conns = refl; same_free = refl; same_n = refl; others = λ d o. rw o refl })
    | inr a ↦
        rw a (record { same_conns = refl; same_free = refl; same_n = refl; others = λ d o. refl })
  ]

  drop_event-clears :
      (e : EvId) (i : ℕ) (w : World t.Tree ep.Set)
      → (((drop_event t ep e i w).evs e).active ≡ false)
        × (((drop_event t ep e i w).evs e).timer_set ≡ (w.evs e).timer_set)
  unfolding drop_event event_del
  drop_event-clears e i w = elim (Bool-cases (w.evs e).active) [
    | inl a ↦ rw (a, same_ev_refl e) (refl, refl)
    | inr a ↦ rw a (a, refl)
  ]

  drop_event-InSync :
      (e : EvId) (i : ℕ) (w : World t.Tree ep.Set)
      → InSync t law w
      → InSync t law (drop_event t ep e i w)
  unfolding drop_event event_del
  drop_event-InSync e i w s d = elim (Bool-cases (w.evs e).active) [
    | inl a ↦ rw a (elim (Bool-cases (same_ev e d)) [
      | inl same ↦ let equal = same_ev→eq e d same in rw (same, sym equal) (s e)
      | inr other ↦ rw other (s d)
    ])
    | inr a ↦ rw a (s d)
  ]

  drop_timer-OnlyEvent : (e : EvId) (w : World t.Tree ep.Set) → OnlyEvent e w (drop_timer t ep e w)
  unfolding drop_timer event_del_timer
  drop_timer-OnlyEvent e w = elim (Bool-cases (w.evs e).timer_set) [
    | inl a ↦
        rw a
          (record { same_conns = refl; same_free = refl; same_n = refl; others = λ d o. rw o refl })
    | inr a ↦
        rw a (record { same_conns = refl; same_free = refl; same_n = refl; others = λ d o. refl })
  ]

  drop_timer-clears :
      (e : EvId) (w : World t.Tree ep.Set)
      → (((drop_timer t ep e w).evs e).timer_set ≡ false)
        × (((drop_timer t ep e w).evs e).active ≡ (w.evs e).active)
  unfolding drop_timer event_del_timer
  drop_timer-clears e w = elim (Bool-cases (w.evs e).timer_set) [
    | inl a ↦ rw (a, same_ev_refl e) (refl, refl)
    | inr a ↦ rw a (a, refl)
  ]

  drop_timer-InSync :
      (e : EvId) (w : World t.Tree ep.Set) → InSync t law w → InSync t law (drop_timer t ep e w)
  unfolding drop_timer
  drop_timer-InSync e w s = elim (Bool-cases (w.evs e).timer_set) [
    | inl a ↦ rw a (event_del_timer-InSync t law e w s a)
    | inr a ↦ rw a s
  ]

  -- The four calls on the events of connection i.
  abbrev quiet : ℕ → World t.Tree ep.Set → World t.Tree ep.Set
  quiet i w = drop_timer t ep (write_of i) (
      drop_timer t ep (read_of i)
        (drop_event t ep (write_of i) i (drop_event t ep (read_of i) i w)))

  record Quieted (i : ℕ) (w w' : World t.Tree ep.Set) : Type 0 where
    kept_conns : w'.conns ≡ w.conns
    kept_free : w'.free_connections ≡ w.free_connections
    kept_n : w'.free_connection_n ≡ w.free_connection_n
    kept_evs :
        (d : EvId)
        → same_ev (read_of i) d ≡ false
        → same_ev (write_of i) d ≡ false
        → w'.evs d ≡ w.evs d
    idle_now : Idle w' i
    sync_now : InSync t law w → InSync t law w'

  quiet-Quieted : (i : ℕ) (w : World t.Tree ep.Set) → Quieted i w (quiet i w)
  quiet-Quieted i w =
      let w1 = drop_event t ep (read_of i) i w in
      let w2 = drop_event t ep (write_of i) i w1 in
      let w3 = drop_timer t ep (read_of i) w2 in
      let o1 = drop_event-OnlyEvent (read_of i) i w in
      let o2 = drop_event-OnlyEvent (write_of i) i w1 in
      let o3 = drop_timer-OnlyEvent (read_of i) w2 in
      let o4 = drop_timer-OnlyEvent (write_of i) w3 in
      let (c1, _) = drop_event-clears (read_of i) i w in
      let (c2, _) = drop_event-clears (write_of i) i w1 in
      let (c3, k3) = drop_timer-clears (read_of i) w2 in
      let (c4, k4) = drop_timer-clears (write_of i) w3 in
      record {
        kept_conns = o4.same_conns ∙ o3.same_conns ∙ o2.same_conns ∙ o1.same_conns;
        kept_free = o4.same_free ∙ o3.same_free ∙ o2.same_free ∙ o1.same_free;
        kept_n = o4.same_n ∙ o3.same_n ∙ o2.same_n ∙ o1.same_n;
        kept_evs = λ d r v. o4.others d v ∙ o3.others d r ∙ o2.others d v ∙ o1.others d r;
        idle_now = (
          ap (λ (v : Event). v.active) (o4.others (read_of i) refl)
              ∙ k3
              ∙ ap (λ (v : Event). v.active) (o2.others (read_of i) refl)
              ∙ c1,
          ap (λ (v : Event). v.timer_set) (o4.others (read_of i) refl) ∙ c3,
          k4 ∙ ap (λ (v : Event). v.active) (o3.others (write_of i) refl) ∙ c2,
          c4,
        );
        sync_now = λ s. drop_timer-InSync (write_of i) w3 (
            drop_timer-InSync (read_of i) w2
              (drop_event-InSync (write_of i) i w1 (drop_event-InSync (read_of i) i w s)));
      }

  -- A quieted connection i, put in front of the free list and marked as closed.
  record Freed (i : ℕ) (w w' : World t.Tree ep.Set) : Type 0 where
    put_front :
        w'.conns ≡ put w.conns i (record (w.conns i) { data_ptr = w.free_connections; fd = none })
    now_first : w'.free_connections ≡ to_conn i
    one_more : w'.free_connection_n ≡ suc w.free_connection_n
    other_evs :
        (d : EvId)
        → same_ev (read_of i) d ≡ false
        → same_ev (write_of i) d ≡ false
        → w'.evs d ≡ w.evs d
    now_idle : Idle w' i

  Freed-IsPool :
      (n : ℕ) (l : List ℕ) (i s : ℕ) (w w' : World t.Tree ep.Set)
      → IsPool n l w
      → ltb i n ≡ true
      → (w.conns i).fd ≡ some s
      → Freed i w w'
      → IsPool n (i ∷ l) w'
  Freed-IsPool n l i s w w' p b o f =
      let v = record (w.conns i) { data_ptr = w.free_connections; fd = none } in
      let same : (i == i) ≡ true = ground arith in
      let fresh : mem i l ≡ false = elim (Bool-cases (mem i l)) [
        | inl m ↦ ground (arith, p.shut i m, o)
        | inr m ↦ m
      ] in
      record {
        chain = (
          f.now_first,
          subst (λ c. Chain c (c i).data_ptr l) (sym f.put_front)
              (rw same (Chain-put w.conns w.free_connections l i v fresh p.chain)),
        );
        once = ground (arith, p.once);
        count = ground (arith, p.count, f.one_more);
        below = λ j m. ground (arith, p.below j);
        shut = λ j m. rw f.put_front (ground (arith, p.shut j));
        listed = λ j c e. ground (arith, p.listed j c, ap (λ c. is_open (c j).fd) f.put_front);
        idle = λ j m. elim (Bool-cases (i == j)) [
          | inl here ↦ let equal = (==_iff i j).0 here in rw⁻¹ equal f.now_idle
          | inr other ↦
              rw (f.other_evs (read_of j) other refl, f.other_evs (write_of j) refl other)
                (p.idle j (ground arith))
        ];
        all =
            subst (λ c. used c n + suc (length l) ≡ n) (sym f.put_front)
              (ground (arith, used-put_closed w.conns n i v b refl (rw o refl), p.all));
      }

  module _ (shut : ℕ → ep.Set → ep.Set) where
    -- On a pool `close_connection` of an open connection puts it in front of the free list and
    -- leaves a pool; its events are inactive and their timers are gone from the tree, which agrees
    -- with the events as before; and a second call changes nothing.
    pub close_connection-IsPool :
        (n : ℕ) (l : List ℕ) (i s : ℕ) (w : World t.Tree ep.Set)
        → IsPool n l w
        → InSync t law w
        → ltb i n ≡ true
        → (w.conns i).fd ≡ some s
        → let w' = close_connection t ep shut i w in
          IsPool n (i ∷ l) w'
          × InSync t law w'
          × ((w'.conns i).fd ≡ none)
          × (close_connection t ep shut i w' ≡ w')
    unfolding close_connection close_open free_connection
    close_connection-IsPool n l i s w p sync b o =
        let q = quiet-Quieted i w in
        let same : (i == i) ≡ true = ground arith in
        rw o (
          Freed-IsPool n l i s w _ p b o (record {
            put_front = fun_ext (λ j. elim (Bool-cases (i == j)) [
              | inl here ↦ rw (here, same, q.kept_conns, q.kept_free) refl
              | inr other ↦ rw (other, q.kept_conns) refl
            ]);
            now_first = refl;
            one_more = ap suc q.kept_n;
            other_evs = q.kept_evs;
            now_idle = q.idle_now;
          }),
          q.sync_now sync,
          rw same refl,
          rw same refl,
        )
