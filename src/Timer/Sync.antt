-- ===== src/Timer/Sync.antt =====
-- The flag `timer_set` and the key of each event, against the tree.
use crawler.Base.{
  ℕ, ◌+◌, ◌≡◌, ap, inl, inr, true, false, Option, none, some, arith, ltb, if◌then◌else◌, Bool-cases,
  ==_iff,
}
use crawler.Base.Word.{u32, sub32}
use crawler.Net.{EvId, read_of, write_of, query_of, Event, World, same_ev}
use crawler.Tree.{TimerTree, IsTimerTree}
use crawler.Timer.{timer_lazy_delay, abs32, event_del_timer, set_timer, event_add_timer}

abbrev pub key_of : Event → Option ℕ
key_of v = if v.timer_set then some v.key else none

pub same_ev→eq : (e d : EvId) → same_ev e d ≡ true → e ≡ d
same_ev→eq (read_of i) (read_of j) h = ap read_of ((==_iff i j).0 h)
same_ev→eq (write_of i) (write_of j) h = ap write_of ((==_iff i j).0 h)
same_ev→eq (query_of i) (query_of j) h = ap query_of ((==_iff i j).0 h)
same_ev→eq (read_of i) (write_of j) h = cc
same_ev→eq (read_of i) (query_of j) h = cc
same_ev→eq (write_of i) (read_of j) h = cc
same_ev→eq (write_of i) (query_of j) h = cc
same_ev→eq (query_of i) (read_of j) h = cc
same_ev→eq (query_of i) (write_of j) h = cc

pub same_ev_refl : (e : EvId) → same_ev e e ≡ true
same_ev_refl (read_of i) = ground arith
same_ev_refl (write_of i) = ground arith
same_ev_refl (query_of i) = ground arith

module _ (t : TimerTree) (law : IsTimerTree t) {EpollSet : Type 0} where
  abbrev pub InSync : World t.Tree EpollSet → Type 0
  InSync w = (e : EvId) → t.find w.timers e ≡ key_of (w.evs e)

  -- Deleting the timer of an event that has one keeps the tree and the events in agreement: each
  -- event has its key in the tree exactly if its flag `timer_set` is set.
  pub event_del_timer-InSync :
      (e : EvId) (w : World t.Tree EpollSet)
      → InSync w
      → (w.evs e).timer_set ≡ true
      → InSync (event_del_timer t e w)
  unfolding event_del_timer
  event_del_timer-InSync e w s h d = elim (Bool-cases (same_ev e d)) [
    | inl same ↦ ground (arith, law.find-delete w.timers e d (w.evs e).key, s e, s d)
    | inr other ↦ ground (arith, law.find-delete w.timers e d (w.evs e).key, s e, s d)
  ]

  set_timer-InSync :
      (e : EvId) (key : ℕ) (w : World t.Tree EpollSet)
      → InSync w
      → (w.evs e).timer_set ≡ false
      → InSync (set_timer t e key w)
  unfolding set_timer
  set_timer-InSync e key w s h d = ground (arith, law.find-insert w.timers e d key, s e, s d)

  event_del_timer-clears :
      (e : EvId) (w : World t.Tree EpollSet) → ((event_del_timer t e w).evs e).timer_set ≡ false
  unfolding event_del_timer
  event_del_timer-clears e w = rw (same_ev_refl e)

  -- Adding a timer keeps the tree and the events in agreement, whether the event had none, one that
  -- is near enough to be left, or one that is moved.
  pub event_add_timer-InSync :
      (e : EvId) (timer now : ℕ) (w : World t.Tree EpollSet)
      → InSync w
      → InSync (event_add_timer t e timer now w)
  unfolding event_add_timer
  event_add_timer-InSync e timer now w s = elim (Bool-cases (w.evs e).timer_set) [
    | inr unset ↦ rw unset (set_timer-InSync e _ w s unset)
    | inl set ↦
        rw set
          (elim (Bool-cases
            (ltb (abs32 (sub32 (u32 (now + timer)) (w.evs e).key)) timer_lazy_delay)) [
              | inl near ↦ rw near s
              | inr far ↦ rw far (
                  set_timer-InSync e _ (event_del_timer t e w) (event_del_timer-InSync e w s set)
                    (event_del_timer-clears e w))
            ])
  ]
