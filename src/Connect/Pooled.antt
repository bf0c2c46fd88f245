-- ===== src/Connect/Pooled.antt =====
-- `http_conn` of http_client.c on the pool of connections.
use mathlib.Core.Path.{subst}
use crawler.Base.{
  ℕ, ◌≡◌, refl, sym, ◌∙◌, inl, inr, Bool, true, false, Option, none, some, List, [], ◌∷◌, arith,
  ltb, Bool-cases,
}
use crawler.Net.{write_of, World}
use crawler.Tree.{TimerTree, IsTimerTree}
use crawler.Timer.Sync.{InSync}
use crawler.Epoll.{write_event, clear_event, Epoll, Rc, done, failed}
use crawler.Pool.{get_connection}
use crawler.Pool.Chain.{mem}
use crawler.Pool.Open.{IsPool, get_connection-Got, get_connection-InSync}
use crawler.Pool.Close.{close_connection-IsPool}
use crawler.Timer.Wait.{event_add_timer-active}
use crawler.Connect.Kept.{Kept, Kept-IsPool, timer-Kept, event_add-Kept, prepare-Kept}
use crawler.Connect.{
  Connecting, connected, in_progress, connect_failed, SocketCalls, give_up, on_connect,
  on_write_added, prepare, on_got, on_fd, http_conn,
}

pub pair_eq : {A B : Type 0} (p : A × B) (a : A) (b : B) → p.0 ≡ a → p.1 ≡ b → p ≡ (a, b)
pair_eq p a b e f = subst (λ x. p ≡ (x, b)) e (subst (λ y. p ≡ (p.0, y)) f refl)

module _ (t : TimerTree) (law : IsTimerTree t) (ep : Epoll) where
  -- What `http_conn` promises on the pool with the free list l: on failure it is that pool again;
  -- on success the first free connection is taken, and its write event is active.
  abbrev pub Conned : ℕ → List ℕ → Option ℕ × World t.Tree ep.Set → Type 0
  Conned n l (none, w) = IsPool n l w × InSync t law w
  Conned n l (some i, w) =
      (rest : List ℕ) × (l ≡ i ∷ rest)
      × IsPool n rest w
      × InSync t law w
      × ((w.evs (write_of i)).active ≡ true)

  module _ (shut : ℕ → ep.Set → ep.Set) (k : SocketCalls) (n i s : ℕ) (l : List ℕ)
      (b : ltb i n ≡ true) (fresh : mem i l ≡ false) where
    give_up-Conned :
        (w : World t.Tree ep.Set)
        → IsPool n l w
        → InSync t law w
        → (w.conns i).fd ≡ some s
        → Conned n (i ∷ l) (give_up t ep shut i w)
    give_up-Conned w p sync o =
        let (p', sync', _, _) = close_connection-IsPool t law ep shut n l i s w p sync b o in
        (p', sync')

    on_connect-Conned :
        (w : World t.Tree ep.Set) (c : Connecting)
        → IsPool n l w
        → InSync t law w
        → (w.conns i).fd ≡ some s
        → (w.evs (write_of i)).active ≡ true
        → Conned n (i ∷ l) (on_connect t ep shut k i w c)
    on_connect-Conned w connected p sync o a = (l, refl, p, sync, a)
    on_connect-Conned w connect_failed p sync o a = give_up-Conned w p sync o
    on_connect-Conned w in_progress p sync o a =
        let kept = timer-Kept t law ep i 5000 k.now w in
        (
          l,
          refl,
          Kept-IsPool t law ep n i l w _ p fresh kept,
          kept.sync sync,
          event_add_timer-active t (write_of i) 5000 k.now w ∙ a,
        )

    on_write_added-Conned :
        (w : World t.Tree ep.Set) (rc : Rc (World t.Tree ep.Set))
        → IsPool n l w
        → InSync t law w
        → (w.conns i).fd ≡ some s
        → ((w' : World t.Tree ep.Set)
            → rc ≡ done w'
            → Kept t law ep i w w' × ((w'.evs (write_of i)).active ≡ true))
        → Conned n (i ∷ l) (on_write_added t ep shut k i w rc)
    on_write_added-Conned w failed p sync o f = give_up-Conned w p sync o
    on_write_added-Conned w (done w') p sync o f =
        let (kept, a) = f w' refl in
        on_connect-Conned w' k.connect (Kept-IsPool t law ep n i l w w' p fresh kept)
          (kept.sync sync) (kept.same_fd ∙ o) a

    on_got-Conned :
        (ssl : Bool) (client fd : ℕ) (w : World t.Tree ep.Set)
        → IsPool n l w
        → InSync t law w
        → (w.conns i).fd ≡ some s
        → Conned n (i ∷ l) (on_got t ep shut k ssl client fd (some i, w))
    on_got-Conned ssl client fd w p sync o = elim (Bool-cases k.nonblocking) [
      | inr blocks ↦ rw blocks (give_up-Conned w p sync o)
      | inl fine ↦
          let w' = prepare t ep shut ssl client i w in
          let kept = prepare-Kept t law ep shut ssl client i w in
          rw fine (
            on_write_added-Conned w' _ (Kept-IsPool t law ep n i l w w' p fresh kept)
              (kept.sync sync) (kept.same_fd ∙ o)
              (event_add-Kept t law ep i write_event clear_event w'))
    ]

  module _ (shut : ℕ → ep.Set → ep.Set) where
    on_fd-Conned :
        (k : SocketCalls) (ssl : Bool) (client n : ℕ) (l : List ℕ) (w : World t.Tree ep.Set)
        (socket : Option ℕ)
        → IsPool n l w
        → InSync t law w
        → Conned n l (on_fd t ep shut k ssl client w socket)
    on_fd-Conned k ssl client n l w none p sync = (p, sync)
    on_fd-Conned k ssl client n [] w (some s) p sync =
        let (got, same, _) = get_connection-Got s n [] w p in
        let closed : Kept t law ep 0 w (record w { epoll = shut s w.epoll }) = record {
          others = λ j o. refl;
          same_fd = refl;
          same_free = refl;
          same_n = refl;
          other_evs = λ d r v. refl;
          sync = λ y. y;
        } in
        subst (λ x. Conned n [] (on_got t ep shut k ssl client s x))
          (sym (pair_eq (get_connection s w) none w got same))
          (Kept-IsPool t law ep n 0 [] w _ p refl closed, sync)
    on_fd-Conned k ssl client n (i ∷ l) w (some s) p sync =
        let (got, p', _, o, _, _) = get_connection-Got s n (i ∷ l) w p in
        let w' = (get_connection s w).1 in
        let b = p.below i (ground arith) in
        let fresh : mem i l ≡ false = ground (arith, p.once) in
        subst (λ x. Conned n (i ∷ l) (on_got t ep shut k ssl client s x))
          (sym (pair_eq (get_connection s w) (some i) w' got refl))
          (on_got-Conned shut k n i s l b fresh ssl client s w' p'
            (get_connection-InSync t law s n (i ∷ l) w p sync) o)

    -- On a pool whose timers agree with the tree: where `http_conn` fails, at whatever call, the
    -- pool has all its free connections again, in the same order; where it succeeds, the first of
    -- them is taken, its write event is active, and the others are left.
    pub http_conn-Conned :
        (k : SocketCalls) (ssl : Bool) (client n : ℕ) (l : List ℕ) (w : World t.Tree ep.Set)
        → IsPool n l w
        → InSync t law w
        → Conned n l (http_conn t ep shut k ssl client w)
    unfolding http_conn
    http_conn-Conned k ssl client n l w p sync = on_fd-Conned k ssl client n l w k.socket p sync
