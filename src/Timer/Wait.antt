-- ===== src/Timer/Wait.antt =====
-- How long a timer runs, and how long the loop may sleep.
use crawler.Base.{
  ◌≢◌, ◌⊎◌, ℕ, ◌+◌, ◌-◌, ◌<◌, ◌≤◌, ◌≡◌, inl, inr, true, some, arith, Option-cases, ◌∙◌, refl, ltb,
  Bool-cases,
}
use crawler.Base.Word.{sub32, u32}
use crawler.Net.{EvId, World}
use crawler.Tree.{TimerTree, IsTimerTree, InWindow}
use crawler.Timer.{
  abs32, set_timer, event_add_timer, time_left, event_find_timer, event_del_timer, timer_lazy_delay,
}
use crawler.Timer.Sync.{InSync, same_ev_refl, event_add_timer-InSync}

time_left-le :
    (e : EvId) (k j base now : ℕ)
    → InWindow base k
    → InWindow base j
    → InWindow base now
    → sub32 k base ≤ sub32 j base
    → time_left now (some (e, k)) ≤ sub32 j base - sub32 now base
time_left-le e k j base now wk wj wn le = ground arith

time_left-eq :
    (e : EvId) (k base now : ℕ)
    → InWindow base k
    → InWindow base now
    → time_left now (some (e, k)) ≡ sub32 k base - sub32 now base
time_left-eq e k base now wk wn = ground arith

own_time : (x : ℕ) → sub32 x (u32 x) < 300
own_time x = omega arith

near_times :
    (x key : ℕ)
    → sub32 x key ≢ 2147483648
    → ltb (abs32 (sub32 (u32 x) key)) 300 ≡ true
    → (sub32 x key < 300) ⊎ (sub32 key x < 300)
near_times x key apart near = ground arith

module _ (t : TimerTree) {EpollSet : Type 0} where
  pub event_add_timer_sets :
      (e : EvId) (timer now : ℕ) (w : World t.Tree EpollSet)
      → ((event_add_timer t e timer now w).evs e).timer_set ≡ true
  unfolding event_add_timer set_timer
  event_add_timer_sets e timer now w = ground (arith, same_ev_refl e)

  event_add_timer_near :
      (e : EvId) (timer now : ℕ) (w : World t.Tree EpollSet)
      → ((w.evs e).timer_set ≡ true → sub32 (now + timer) (w.evs e).key ≢ 2147483648)
      → let key = ((event_add_timer t e timer now w).evs e).key in
        (sub32 (now + timer) key < 300) ⊎ (sub32 key (now + timer) < 300)
  unfolding event_add_timer set_timer
  event_add_timer_near e timer now w apart = elim (Bool-cases (w.evs e).timer_set) [
    | inr unset ↦ rw (unset, same_ev_refl e) (inl (own_time (now + timer)))
    | inl set ↦
        rw set
          (elim (Bool-cases
            (ltb (abs32 (sub32 (u32 (now + timer)) (w.evs e).key)) timer_lazy_delay)) [
              | inl near ↦ rw near (near_times (now + timer) (w.evs e).key (apart set) near)
              | inr far ↦ rw (far, same_ev_refl e) (inl (own_time (now + timer)))
            ])
  ]

  -- The tree and the events agree, and the timer, if it is set, is not just 2^31 milliseconds away
  -- from the time that is asked for. After `event_add_timer` the event has its timer set and its
  -- node in the tree, with a key that is that time, or less than 300 milliseconds before or behind
  -- it.
  pub event_add_timer_deadline :
      (law : IsTimerTree t) (e : EvId) (timer now : ℕ) (w : World t.Tree EpollSet)
      → InSync t law w
      → ((w.evs e).timer_set ≡ true → sub32 (now + timer) (w.evs e).key ≢ 2147483648)
      → let w' = event_add_timer t e timer now w in
        let key = (w'.evs e).key in
        ((w'.evs e).timer_set ≡ true)
        × (t.find w'.timers e ≡ some key)
        × ((sub32 (now + timer) key < 300) ⊎ (sub32 key (now + timer) < 300))
  event_add_timer_deadline law e timer now w s apart =
      let set = event_add_timer_sets e timer now w in
      (
        set,
        event_add_timer-InSync t law e timer now w s e ∙ rw set refl,
        event_add_timer_near e timer now w apart,
      )

  module _ (law : IsTimerTree t) (base now : ℕ) (w : World t.Tree EpollSet) (s : InSync t law w)
      (win : (e : EvId) → (w.evs e).timer_set ≡ true → InWindow base (w.evs e).key)
      (now_in : InWindow base now) where
    -- What is left of the timer of an event.
    abbrev pub left : EvId → ℕ
    left e = sub32 (w.evs e).key base - sub32 now base

    found_set :
        (e : EvId) (k : ℕ)
        → t.find w.timers e ≡ some k
        → ((w.evs e).timer_set ≡ true) × ((w.evs e).key ≡ k)
    found_set e k f = let s' = s e in ground arith

    in_window : (e : EvId) (k : ℕ) → t.find w.timers e ≡ some k → InWindow base k
    in_window e k f = let (set, same) = found_set e k f in rw same at (win e set)

    -- The wait is no more than what is left of any timer that is set, and for some timer it is
    -- that.
    pub event_find_timer_least :
        (d : EvId)
        → (w.evs d).timer_set ≡ true
        → (event_find_timer t now w ≤ left d)
          × ((e : EvId) × ((w.evs e).timer_set ≡ true) × (event_find_timer t now w ≡ left e))
    unfolding event_find_timer
    event_find_timer_least d set = elim (Option-cases (t.min w.timers)) [
      | inl nothing ↦
          let f = law.min-none w.timers d nothing in let s' = s d in absurd (ground arith)
      | inr ((e, k), first) ↦
          let f = law.min-find w.timers e k first in
          let (set', same) = found_set e k f in
          let s' : t.find w.timers d ≡ some (w.evs d).key = s d ∙ rw set in
          let le = law.min-le w.timers base e d k (w.evs d).key in_window first s' in
          let wk = in_window e k f in
          let wd = in_window d (w.evs d).key s' in
          rw first (
            time_left-le e k (w.evs d).key base now wk wd now_in le,
            (e, set', rw same (time_left-eq e k base now wk now_in)),
          )
    ]

module _ (t : TimerTree) {EpollSet : Type 0} where
  pub event_add_timer-active :
      (e : EvId) (timer now : ℕ) (w : World t.Tree EpollSet)
      → ((event_add_timer t e timer now w).evs e).active ≡ (w.evs e).active
  unfolding event_add_timer set_timer event_del_timer
  event_add_timer-active e timer now w = elim (Bool-cases (w.evs e).timer_set) [
    | inr unset ↦ rw (unset, same_ev_refl e) refl
    | inl set ↦
        rw set
          (elim (Bool-cases
            (ltb (abs32 (sub32 (u32 (now + timer)) (w.evs e).key)) timer_lazy_delay)) [
              | inl near ↦ rw near refl
              | inr far ↦ rw (far, same_ev_refl e) refl
            ])
  ]
