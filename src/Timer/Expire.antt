-- ===== src/Timer/Expire.antt =====
-- `event_expire_timers` with handlers that set no timer.
use crawler.Base.{
  ap, ◌∙◌, ℕ, zero, suc, ◌<◌, ◌≤◌, ◌≡◌, refl, inl, inr, true, false, Option, none, some, arith,
  if◌then◌else◌, Bool-cases,
}
use crawler.Base.Word.{sub32}
use crawler.Net.{Handler, EvId, World, same_ev}
use crawler.Tree.{TimerTree, IsTimerTree, InWindow}
use crawler.Timer.{positive, event_del_timer, expired, expire_round, event_expire_timers}
use crawler.Timer.Sync.{InSync, key_of, event_del_timer-InSync, same_ev_refl}

module _ (t : TimerTree) (law : IsTimerTree t) {EpollSet : Type 0} where
  -- An event that is taken out has its timer stopped and `timedout` set; no other event changes.
  pub expired_lem :
      (e d : EvId) (w : World t.Tree EpollSet)
      → ((expired t e w).evs d) ≡ (
          if same_ev e d
          then record (w.evs e) { key = 0; timer_set = false; timedout = true }
          else w.evs d)
  unfolding expired
  expired_lem e d w = elim (Bool-cases (same_ev e d)) [
    | inl same ↦ rw (same, same_ev_refl e)
    | inr other ↦ rw other
  ]

  pub expired-InSync :
      (e : EvId) (w : World t.Tree EpollSet)
      → InSync t law w
      → (w.evs e).timer_set ≡ true
      → InSync t law (expired t e w)
  unfolding expired
  expired-InSync e w s h d =
      let s' : t.find (event_del_timer t e w).timers d ≡ key_of ((event_del_timer t e w).evs d) =
        event_del_timer-InSync t law e w s h d in
      ground (arith, s', same_ev_refl e)

  expired-count :
      (e : EvId) (k : ℕ) (w : World t.Tree EpollSet)
      → t.find w.timers e ≡ some k
      → t.count (expired t e w).timers < t.count w.timers
  unfolding expired
  expired-count e k w f = law.count-delete w.timers e k f

  -- A handler keeps the flags and the tree together, and sets no timer.
  pub record IsQuiet (run : Handler → EvId → World t.Tree EpollSet → World t.Tree EpollSet)
      : Type 0 where
    pub keeps :
        (h : Handler) (e : EvId) (w : World t.Tree EpollSet)
        → InSync t law w
        → InSync t law (run h e w)
    pub count_le :
        (h : Handler) (e : EvId) (w : World t.Tree EpollSet)
        → t.count (run h e w).timers ≤ t.count w.timers

  module _ (run : Handler → EvId → World t.Tree EpollSet → World t.Tree EpollSet) (q : IsQuiet run)
      (clock : ℕ → ℕ) where
    -- What the rounds do from reading n of the clock on, until reading m: an event whose timer is set
    -- and due gets its timer stopped and the flag `timedout`, no other event changes, and its handler
    -- is run on it.
    pub data Expires : ℕ → World t.Tree EpollSet → ℕ → World t.Tree EpollSet → Type 0 where
      at_rest : (n : ℕ) (w : World t.Tree EpollSet) → Expires n w n w
      fires :
          (n m : ℕ) (e : EvId) (w v w' : World t.Tree EpollSet)
          → (w.evs e).timer_set ≡ true
          → positive (sub32 (w.evs e).key (clock n)) ≡ false
          → ((d : EvId)
              → v.evs d ≡ (
                  if same_ev e d
                  then record (w.evs e) { key = 0; timer_set = false; timedout = true }
                  else w.evs d))
          → Expires (suc n) (run (w.evs e).handler e v) m w'
          → Expires n w m w'

    -- How a run from reading n ends: the rounds have taken out due timers, one after the other; and
    -- where the keys that are left and the last reading of the clock are in one half of the 32-bit
    -- times, no timer that is left is due at that reading.
    pub record Settled (n : ℕ) (w : World t.Tree EpollSet) (r : Option (World t.Tree EpollSet))
        : Type 0 where
      pub world : World t.Tree EpollSet
      pub reading : ℕ
      pub returns : r ≡ some world
      pub in_sync : InSync t law world
      pub rounds : Expires n w reading world
      pub none_due :
          (base : ℕ)
          → ((e : EvId) → (world.evs e).timer_set ≡ true → InWindow base (world.evs e).key)
          → InWindow base (clock reading)
          → (e : EvId) → (world.evs e).timer_set ≡ true
          → positive (sub32 (world.evs e).key (clock reading)) ≡ true

    -- What the tree says of an event, from its flag, and back.
    key_set :
        (e : EvId) (k : ℕ) (w : World t.Tree EpollSet)
        → InSync t law w
        → t.find w.timers e ≡ some k
        → ((w.evs e).timer_set ≡ true) × ((w.evs e).key ≡ k)
    key_set e k w s f = let s' = s e in ground arith

    later_keys :
        (base k j now : ℕ)
        → InWindow base k
        → InWindow base j
        → InWindow base now
        → sub32 k base ≤ sub32 j base
        → positive (sub32 k now) ≡ true
        → positive (sub32 j now) ≡ true
    later_keys base k j now wk wj wn le pos = ground arith

    none_due-min :
        (n k : ℕ) (d : EvId) (w : World t.Tree EpollSet)
        → t.min w.timers ≡ some (d, k)
        → InSync t law w
        → positive (sub32 k (clock n)) ≡ true
        → (base : ℕ) → ((e : EvId) → (w.evs e).timer_set ≡ true → InWindow base (w.evs e).key)
        → InWindow base (clock n)
        → (e : EvId) → (w.evs e).timer_set ≡ true
        → positive (sub32 (w.evs e).key (clock n)) ≡ true
    none_due-min n k d w first s pos base win now_in e set =
        let in_window : (c : EvId) (i : ℕ) → t.find w.timers c ≡ some i → InWindow base i =
          λ c i f. let (set', same) = key_set c i w s f in rw same at (win c set') in
        let there : t.find w.timers e ≡ some (w.evs e).key = s e ∙ rw set refl in
        let k_in = in_window d k (law.min-find w.timers d k first) in
        later_keys base k (w.evs e).key (clock n) k_in (win e set) now_in
          (law.min-le w.timers base d e k (w.evs e).key in_window first there) pos

    expire_round-Settled :
        (n : ℕ) (w : World t.Tree EpollSet)
        (loop : World t.Tree EpollSet → Option (World t.Tree EpollSet)) (m : Option (EvId × ℕ))
        → t.min w.timers ≡ m
        → InSync t law w
        → ((w' : World t.Tree EpollSet)
            → InSync t law w'
            → t.count w'.timers < t.count w.timers
            → Settled (suc n) w' (loop w'))
        → Settled n w (expire_round t run (clock n) w loop m)
    expire_round-Settled n w loop none e s h = record {
      world = w;
      reading = n;
      returns = refl;
      in_sync = s;
      rounds = at_rest n w;
      none_due = λ base win now_in d set.
          let s' = s d in let none_found = law.min-none w.timers d e in absurd (ground arith);
    }
    expire_round-Settled n w loop (some (d, k)) e s h =
        let f = law.min-find w.timers d k e in
        let (set, same) = key_set d k w s f in
        elim (Bool-cases (positive (sub32 k (clock n)))) [
          | inl later ↦ rw later (record {
            world = w;
            reading = n;
            returns = refl;
            in_sync = s;
            rounds = at_rest n w;
            none_due = none_due-min n k d w e s later;
          })
          | inr due ↦
              let g = (w.evs d).handler in
              let v = expired t d w in
              let r =
                h (run g d v) (q.keeps g d _ (expired-InSync d w s set))
                  (omega (arith, q.count_le g d v, expired-count d k w f)) in
              rw due (record {
                world = r.world;
                reading = r.reading;
                returns = r.returns;
                in_sync = r.in_sync;
                rounds =
                    fires n r.reading d w v r.world set
                      (ap (λ j. positive (sub32 j (clock n))) same ∙ due) (λ c. expired_lem d c w)
                      r.rounds;
                none_due = r.none_due;
              })
        ]

    -- The tree and the flags agree, and the handlers set no timer. With fuel for every timer that
    -- is set, and one more, the loop returns. Each round has taken out the timer of an event that
    -- was due at the reading of the clock, set its flag `timedout` and run its handler; then the
    -- flags and the tree still agree; and where the keys that are left and the last reading of the
    -- clock are within 2^31 milliseconds of some time, no timer that is left is due at that
    -- reading.
    pub event_expire_timers-Settled :
        (fuel n : ℕ) (w : World t.Tree EpollSet)
        → InSync t law w
        → t.count w.timers < fuel
        → Settled n w (event_expire_timers t run clock fuel n w)
    unfolding event_expire_timers
    event_expire_timers-Settled zero n w s c = absurd (omega arith)
    event_expire_timers-Settled (suc fuel) n w s c =
        expire_round-Settled n w _ _ refl s
          (λ w' s' c'. event_expire_timers-Settled fuel (suc n) w' s' (omega arith))
