-- ===== src/Connect/Kept.antt =====
-- What the calls of http_client.c on one connection leave of the pool and the timers.
use mathlib.Core.Path.{subst}
use crawler.Base.{
  ℕ, zero, suc, ◌+◌, ◌≡◌, refl, sym, ap, ◌∙◌, inl, inr, Bool, true, false, Option, none, some, List,
  [], ◌∷◌, arith, ◌==◌, ==_iff, ltb, Bool-cases,
}
use crawler.Base.Word.{u32, sub32}
use crawler.Net.{EvId, read_of, write_of, Event, Ptr, Conn, World, same_ev, put_ev}
use crawler.Tree.{TimerTree, IsTimerTree}
use crawler.Timer.{timer_lazy_delay, abs32, event_del_timer, set_timer, event_add_timer}
use crawler.Timer.Sync.{InSync, key_of, same_ev_refl, same_ev→eq, event_add_timer-InSync}
use crawler.Epoll.{Mask, Epoll, Rc, done, failed, after_ctl, event_add}
use crawler.Epoll.Dispatch.{is_open}
use crawler.Pool.Chain.{mem, Chain, used}
use crawler.Pool.Open.{IsPool}
use crawler.Pool.Close.{OnlyEvent}
use crawler.Connect.{prepare}

Chain-same :
    (c c' : ℕ → Conn) (p : Ptr) (l : List ℕ)
    → ((j : ℕ) → mem j l ≡ true → c' j ≡ c j)
    → Chain c p l
    → Chain c' p l
Chain-same c c' p [] k h = h
Chain-same c c' p (i ∷ l) k (h, r) =
    let here : mem i (i ∷ l) ≡ true = ground arith in
    (
      h,
      subst (λ x. Chain c' (Conn.data_ptr x) l) (sym (k i here))
          (Chain-same c c' (c i).data_ptr l (λ j m. k j (ground arith)) r),
    )

used-same :
    (c c' : ℕ → Conn) (n : ℕ)
    → ((j : ℕ) → is_open (c' j).fd ≡ is_open (c j).fd)
    → used c' n ≡ used c n
used-same c c' zero k = refl
used-same c c' (suc n) k = rw (k n, used-same c c' n k) refl

module _ (t : TimerTree) (law : IsTimerTree t) (ep : Epoll) where
  -- What an operation on connection i leaves.
  pub record Kept (i : ℕ) (w w' : World t.Tree ep.Set) : Type 0 where
    pub others : (j : ℕ) → (i == j) ≡ false → w'.conns j ≡ w.conns j
    pub same_fd : (w'.conns i).fd ≡ (w.conns i).fd
    pub same_free : w'.free_connections ≡ w.free_connections
    pub same_n : w'.free_connection_n ≡ w.free_connection_n
    pub other_evs :
        (d : EvId)
        → same_ev (read_of i) d ≡ false
        → same_ev (write_of i) d ≡ false
        → w'.evs d ≡ w.evs d
    pub sync : InSync t law w → InSync t law w'

  pub Kept-trans :
      (i : ℕ) (w w' w2 : World t.Tree ep.Set) → Kept i w w' → Kept i w' w2 → Kept i w w2
  Kept-trans i w w' w2 a b = record {
    others = λ j o. b.others j o ∙ a.others j o;
    same_fd = b.same_fd ∙ a.same_fd;
    same_free = b.same_free ∙ a.same_free;
    same_n = b.same_n ∙ a.same_n;
    other_evs = λ d r v. b.other_evs d r v ∙ a.other_evs d r v;
    sync = λ s. b.sync (a.sync s);
  }

  pub not_here : (i j : ℕ) (l : List ℕ) → mem i l ≡ false → mem j l ≡ true → (i == j) ≡ false
  not_here i j l fresh m = elim (Bool-cases (i == j)) [
    | inr other ↦ other
    | inl same ↦ absurd (cc (fresh, m, ap (λ x. mem x l) ((==_iff i j).0 same)))
  ]

  Kept-is_open :
      (i j : ℕ) (w w' : World t.Tree ep.Set)
      → Kept i w w'
      → is_open (w'.conns j).fd ≡ is_open (w.conns j).fd
  Kept-is_open i j w w' k = elim (Bool-cases (i == j)) [
    | inr other ↦ ap (λ (c : Conn). is_open c.fd) (k.others j other)
    | inl same ↦
        let e = (==_iff i j).0 same in
        subst (λ x. is_open (w'.conns x).fd ≡ is_open (w.conns x).fd) e (ap is_open k.same_fd)
  ]

  -- An open connection may change, and the pool is still one.
  pub Kept-IsPool :
      (n i : ℕ) (l : List ℕ) (w w' : World t.Tree ep.Set)
      → IsPool n l w
      → mem i l ≡ false
      → Kept i w w'
      → IsPool n l w'
  Kept-IsPool n i l w w' p fresh k = record {
    chain =
        subst (λ x. Chain w'.conns x l) (sym k.same_free)
          (Chain-same w.conns w'.conns w.free_connections l
            (λ j m. k.others j (not_here i j l fresh m)) p.chain);
    once = p.once;
    count = k.same_n ∙ p.count;
    below = p.below;
    shut = λ j m. Kept-is_open i j w w' k ∙ p.shut j m;
    listed = λ j b c. p.listed j b (sym (Kept-is_open i j w w' k) ∙ c);
    idle = λ j m.
        let o = not_here i j l fresh m in
        rw (k.other_evs (read_of j) o refl, k.other_evs (write_of j) refl o) (p.idle j m);
    all = rw (used-same w.conns w'.conns n (λ j. Kept-is_open i j w w' k)) p.all;
  }

  OnlyEvent-Kept :
      (i : ℕ) (w w' : World t.Tree ep.Set)
      → OnlyEvent t law ep (write_of i) w w'
      → (InSync t law w → InSync t law w')
      → Kept i w w'
  OnlyEvent-Kept i w w' o sync = record {
    others = λ j differs. ap (λ (c : ℕ → Conn). c j) o.same_conns;
    same_fd = ap (λ (c : ℕ → Conn). (c i).fd) o.same_conns;
    same_free = o.same_free;
    same_n = o.same_n;
    other_evs = λ d r v. o.others d v;
    sync = sync;
  }

  OnlyEvent-trans :
      (e : EvId) (w w' w2 : World t.Tree ep.Set)
      → OnlyEvent t law ep e w w'
      → OnlyEvent t law ep e w' w2
      → OnlyEvent t law ep e w w2
  OnlyEvent-trans e w w' w2 a b = record {
    same_conns = b.same_conns ∙ a.same_conns;
    same_free = b.same_free ∙ a.same_free;
    same_n = b.same_n ∙ a.same_n;
    others = λ d o. b.others d o ∙ a.others d o;
  }

  set_timer-OnlyEvent :
      (e : EvId) (key : ℕ) (w : World t.Tree ep.Set) → OnlyEvent t law ep e w (set_timer t e key w)
  unfolding set_timer
  set_timer-OnlyEvent e key w = record {
    same_conns = refl;
    same_free = refl;
    same_n = refl;
    others = λ d o. rw o refl;
  }

  pub del_timer-OnlyEvent :
      (e : EvId) (w : World t.Tree ep.Set) → OnlyEvent t law ep e w (event_del_timer t e w)
  unfolding event_del_timer
  del_timer-OnlyEvent e w = record {
    same_conns = refl;
    same_free = refl;
    same_n = refl;
    others = λ d o. rw o refl;
  }

  pub event_add_timer-OnlyEvent :
      (e : EvId) (timer now : ℕ) (w : World t.Tree ep.Set)
      → OnlyEvent t law ep e w (event_add_timer t e timer now w)
  unfolding event_add_timer
  event_add_timer-OnlyEvent e timer now w = elim (Bool-cases (w.evs e).timer_set) [
    | inr unset ↦ rw unset (set_timer-OnlyEvent e _ w)
    | inl set ↦
        rw set
          (elim (Bool-cases
            (ltb (abs32 (sub32 (u32 (now + timer)) (w.evs e).key)) timer_lazy_delay)) [
              | inl near ↦ rw near (record {
                same_conns = refl;
                same_free = refl;
                same_n = refl;
                others = λ d o. refl;
              })
              | inr far ↦
                  rw far
                    (OnlyEvent-trans e w _ _ (del_timer-OnlyEvent e w) (set_timer-OnlyEvent e _ _))
            ])
  ]

  pub timer-Kept :
      (i timer now : ℕ) (w : World t.Tree ep.Set)
      → Kept i w (event_add_timer t (write_of i) timer now w)
  timer-Kept i timer now w =
      OnlyEvent-Kept i w _ (event_add_timer-OnlyEvent (write_of i) timer now w)
        (event_add_timer-InSync t law (write_of i) timer now w)

  -- An event whose flag `timer_set` and key are what they were leaves the timers in agreement.
  pub put_ev-InSync :
      (e : EvId) (v : Event) (w : World t.Tree ep.Set)
      → key_of v ≡ key_of (w.evs e)
      → InSync t law w
      → InSync t law (put_ev w e v)
  put_ev-InSync e v w same s d = elim (Bool-cases (same_ev e d)) [
    | inl here ↦ let equal = same_ev→eq e d here in rw (here, ← equal) (s e ∙ sym same)
    | inr other ↦ rw other (s d)
  ]

  pub done_eq : (d w w' : World t.Tree ep.Set) → done w ≡ done w' → w ≡ w'
  done_eq d w w' h = ap (λ (r : Rc (World t.Tree ep.Set)). elim r [ done x ↦ x | failed ↦ d ]) h

  after_ctl-Kept :
      (i : ℕ) (w w' : World t.Tree ep.Set) (o : Option ep.Set)
      → after_ctl ep w (write_of i) true o ≡ done w'
      → Kept i w w' × ((w'.evs (write_of i)).active ≡ true)
  after_ctl-Kept i w w' none h = absurd (cc h)
  after_ctl-Kept i w w' (some s) h =
      let x =
        put_ev (record w { epoll = s }) (write_of i)
          (record (w.evs (write_of i)) { active = true }) in
      let only : OnlyEvent t law ep (write_of i) w x = record {
        same_conns = refl;
        same_free = refl;
        same_n = refl;
        others = λ d o. rw o refl;
      } in
      let set : (x.evs (write_of i)).active ≡ true = rw (same_ev_refl (write_of i)) refl in
      subst (λ (y : World t.Tree ep.Set). Kept i w y × ((y.evs (write_of i)).active ≡ true))
        (done_eq w x w' h)
        (OnlyEvent-Kept i w x only (λ s d. put_ev-InSync (write_of i) _ w refl s d), set)

  -- A successful `event_add` sets the flag `active` and changes the epoll set.
  pub event_add-Kept :
      (i : ℕ) (event flags : Mask) (w w' : World t.Tree ep.Set)
      → event_add ep (write_of i) i event flags w ≡ done w'
      → Kept i w w' × ((w'.evs (write_of i)).active ≡ true)
  unfolding event_add
  event_add-Kept i event flags w w' h = after_ctl-Kept i w w' _ h

  pub prepare-Kept :
      (shut : ℕ → ep.Set → ep.Set) (ssl : Bool) (client i : ℕ) (w : World t.Tree ep.Set)
      → Kept i w (prepare t ep shut ssl client i w)
  prepare-Kept shut ssl client i w =
      let same : (i == i) ≡ true = ground arith in
      record {
        others = λ j o. rw o refl;
        same_fd = rw same refl;
        same_free = refl;
        same_n = refl;
        other_evs = λ d r v. rw v refl;
        sync = λ s d. put_ev-InSync (write_of i) _ w refl s d;
      }
