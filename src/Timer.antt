-- ===== src/Timer.antt =====
-- event_timer.h and event_timer.c over the tree of timers. Times are milliseconds in a `uint32_t`;
-- an argument `now` or `clock` stands for `gettimeofday`, already `tv_sec * 1000 + tv_usec / 1000`.
pub mod Sync
pub mod Wait
pub mod Expire
pub mod Cancel
pub mod Grows
use crawler.Base.{
  ◌==◌, ℕ, zero, suc, ◌+◌, ◌-◌, Bool, true, false, not, ◌&&◌, Option, none, some, ltb,
  if◌then◌else◌,
}
use crawler.Base.Word.{u32, u32_mod, sub32}
use crawler.Net.{Handler, EvId, Event, World, put_ev}
use crawler.Tree.{TimerTree}

abbrev pub timer_infinite : ℕ
timer_infinite = 4294967295

abbrev pub timer_lazy_delay : ℕ
timer_lazy_delay = 300

-- `(int32_t) d > 0`.
abbrev pub positive : ℕ → Bool
positive d = ltb 0 d && ltb d 2147483648

-- `abs((int32_t) d)`. At -2^31 C leaves it open; it is the worst case, where `abs` gives INT_MIN,
-- which is below every delay as 0 is, and so the timer is not moved.
abbrev pub abs32 : ℕ → ℕ
abs32 d = if d == 2147483648 then 0 else if ltb d 2147483648 then d else u32_mod - d

abbrev pub time_left : ℕ → Option (EvId × ℕ) → ℕ
time_left now none = timer_infinite
time_left now (some (e, key)) = let d = sub32 key now in if positive d then d else 0

module _ (t : TimerTree) {EpollSet : Type 0} where
  unfoldable pub event_timer_init : World t.Tree EpollSet → World t.Tree EpollSet
  event_timer_init w = record w { timers = t.empty }

  -- `rbtree_delete` also sets the key to 0.
  unfoldable pub event_del_timer : EvId → World t.Tree EpollSet → World t.Tree EpollSet
  event_del_timer e w =
      put_ev (record w { timers = t.delete e w.timers }) e
        (record (w.evs e) { key = 0; timer_set = false })

  -- The end of `event_add_timer`: the key is set and the node inserted.
  unfoldable pub set_timer : EvId → ℕ → World t.Tree EpollSet → World t.Tree EpollSet
  set_timer e key w =
      put_ev (record w { timers = t.insert e key w.timers }) e
        (record (w.evs e) { key = key; timer_set = true })

  unfoldable pub event_add_timer : EvId → ℕ → ℕ → World t.Tree EpollSet → World t.Tree EpollSet
  event_add_timer e timer now w =
      let key = u32 (now + timer) in
      if (w.evs e).timer_set
      then if ltb (abs32 (sub32 key (w.evs e).key)) timer_lazy_delay
        then w
        else set_timer e key (event_del_timer e w)
      else set_timer e key w

  unfoldable pub event_find_timer : ℕ → World t.Tree EpollSet → ℕ
  event_find_timer now w = time_left now (t.min w.timers)

  -- A timer that is taken out because it is due.
  unfoldable pub expired : EvId → World t.Tree EpollSet → World t.Tree EpollSet
  unfolding event_del_timer
  expired e w = let w' = event_del_timer e w in put_ev w' e (record (w'.evs e) { timedout = true })

  module _ (run : Handler → EvId → World t.Tree EpollSet → World t.Tree EpollSet) where
    -- One round, on the least node.
    abbrev pub expire_round :
        ℕ
        → World t.Tree EpollSet
        → (World t.Tree EpollSet → Option (World t.Tree EpollSet))
        → Option (EvId × ℕ)
        → Option (World t.Tree EpollSet)
    expire_round now w loop none = some w
    expire_round now w loop (some (e, key)) =
        if positive (sub32 key now) then some w else loop (run (w.evs e).handler e (expired e w))

    -- `event_expire_timers` with fuel; the n-th round reads `clock n`. `none` means that the fuel ran
    -- out.
    unfoldable pub event_expire_timers :
        (ℕ → ℕ) → ℕ → ℕ → World t.Tree EpollSet → Option (World t.Tree EpollSet)
    event_expire_timers clock zero n w = none
    event_expire_timers clock (suc fuel) n w =
        expire_round (clock n) w (λ w'. event_expire_timers clock fuel (suc n) w') (t.min w.timers)

    -- `event_cancel_timers` with fuel; the flag `timedout` is left.
    abbrev pub cancel_round :
        World t.Tree EpollSet
        → (World t.Tree EpollSet → Option (World t.Tree EpollSet))
        → Option (EvId × ℕ)
        → Option (World t.Tree EpollSet)
    cancel_round w loop none = some w
    cancel_round w loop (some (e, key)) = loop (run (w.evs e).handler e (event_del_timer e w))

    unfoldable pub event_cancel_timers : ℕ → World t.Tree EpollSet → Option (World t.Tree EpollSet)
    event_cancel_timers zero w = none
    event_cancel_timers (suc fuel) w =
        cancel_round w (λ w'. event_cancel_timers fuel w') (t.min w.timers)
