-- ===== src/Timer/Cancel.antt =====
-- `event_cancel_timers` with handlers that set no timer.
use crawler.Base.{ℕ, zero, suc, ◌<◌, ◌≡◌, refl, true, false, Option, none, some, arith}
use crawler.Net.{Handler, EvId, World}
use crawler.Tree.{TimerTree, IsTimerTree}
use crawler.Timer.{event_del_timer, cancel_round, event_cancel_timers}
use crawler.Timer.Sync.{InSync, event_del_timer-InSync}
use crawler.Timer.Expire.{IsQuiet}

module _ (t : TimerTree) (law : IsTimerTree t) {EpollSet : Type 0}
    (run : Handler → EvId → World t.Tree EpollSet → World t.Tree EpollSet)
    (q : IsQuiet t law run) where
  -- The run returns, and no event has a timer.
  pub record Emptied (r : Option (World t.Tree EpollSet)) : Type 0 where
    pub world : World t.Tree EpollSet
    pub returns : r ≡ some world
    pub in_sync : InSync t law world
    pub none_set : (e : EvId) → (world.evs e).timer_set ≡ false

  event_del_timer-count :
      (e : EvId) (k : ℕ) (w : World t.Tree EpollSet)
      → t.find w.timers e ≡ some k
      → t.count (event_del_timer t e w).timers < t.count w.timers
  unfolding event_del_timer
  event_del_timer-count e k w f = law.count-delete w.timers e k f

  cancel_round-Emptied :
      (w : World t.Tree EpollSet) (loop : World t.Tree EpollSet → Option (World t.Tree EpollSet))
      (m : Option (EvId × ℕ))
      → t.min w.timers ≡ m
      → InSync t law w
      → ((w' : World t.Tree EpollSet)
          → InSync t law w'
          → t.count w'.timers < t.count w.timers
          → Emptied (loop w'))
      → Emptied (cancel_round t run w loop m)
  cancel_round-Emptied w loop none e s h = record {
    world = w;
    returns = refl;
    in_sync = s;
    none_set = λ d. let f = law.min-none w.timers d e in let s' = s d in ground arith;
  }
  cancel_round-Emptied w loop (some (d, k)) e s h =
      let f = law.min-find w.timers d k e in
      let set : (w.evs d).timer_set ≡ true = let s' = s d in ground arith in
      let g = (w.evs d).handler in
      h (run g d (event_del_timer t d w)) (q.keeps g d _ (event_del_timer-InSync t law d w s set))
        (omega (arith, q.count_le g d (event_del_timer t d w), event_del_timer-count d k w f))

  -- With fuel for every timer that is set, and one more, `event_cancel_timers` returns, and then no
  -- event has a timer, if the handlers set none.
  event_cancel_timers-Emptied :
      (fuel : ℕ) (w : World t.Tree EpollSet)
      → InSync t law w
      → t.count w.timers < fuel
      → Emptied (event_cancel_timers t run fuel w)
  unfolding event_cancel_timers
  event_cancel_timers-Emptied zero w s c = absurd (omega arith)
  event_cancel_timers-Emptied (suc fuel) w s c =
      cancel_round-Emptied w _ _ refl s
        (λ w' s' c'. event_cancel_timers-Emptied fuel w' s' (omega arith))
