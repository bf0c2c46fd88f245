-- ===== src/Connect/Only.antt =====
-- Operations that change one event of event.c and event_timer.c, and the timers' agreement.
use mathlib.Core.Path.{subst}
use crawler.Base.{ℕ, ◌≡◌, refl, inl, inr, Bool, true, false, Option, none, some, Bool-cases}
use crawler.Net.{EvId, World, put_ev}
use crawler.Tree.{TimerTree, IsTimerTree}
use crawler.Timer.{expired, event_del_timer}
use crawler.Timer.Sync.{InSync}
use crawler.Epoll.{Mask, Epoll, done, after_ctl, event_add, event_del}
use crawler.Pool.Close.{OnlyEvent}
use crawler.Connect.Kept.{put_ev-InSync, done_eq}

module _ (t : TimerTree) (law : IsTimerTree t) (ep : Epoll) where
  -- Event e alone is changed, and the tree and the flags agree as before.
  pub record Steps (e : EvId) (w w' : World t.Tree ep.Set) : Type 0 where
    pub only : OnlyEvent t law ep e w w'
    pub sync : InSync t law w → InSync t law w'

  set_active-Steps :
      (e : EvId) (active : Bool) (s : ep.Set) (w : World t.Tree ep.Set)
      → Steps e w (put_ev (record w { epoll = s }) e (record (w.evs e) { active = active }))
  set_active-Steps e active s w = record {
    only = record { same_conns = refl; same_free = refl; same_n = refl; others = λ d o. rw o refl };
    sync = λ h d. put_ev-InSync t law ep e _ w refl h d;
  }

  after_ctl-Steps :
      (e : EvId) (active : Bool) (o : Option ep.Set) (w w' : World t.Tree ep.Set)
      → after_ctl ep w e active o ≡ done w'
      → Steps e w w'
  after_ctl-Steps e active none w w' h = absurd (cc h)
  after_ctl-Steps e active (some s) w w' h =
      subst (λ (x : World t.Tree ep.Set). Steps e w x) (done_eq t law ep w _ w' h)
        (set_active-Steps e active s w)

  pub event_add-Steps :
      (e : EvId) (i : ℕ) (event flags : Mask) (w w' : World t.Tree ep.Set)
      → event_add ep e i event flags w ≡ done w'
      → Steps e w w'
  unfolding event_add
  event_add-Steps e i event flags w w' h = after_ctl-Steps e true _ w w' h

  pub event_del-Steps :
      (e : EvId) (i : ℕ) (event flags : Mask) (w w' : World t.Tree ep.Set)
      → event_del ep e i event flags w ≡ done w'
      → Steps e w w'
  unfolding event_del
  event_del-Steps e i event flags w w' h = elim (Bool-cases flags.ep_in) [
    | inl close ↦
        subst (λ (x : World t.Tree ep.Set). Steps e w x) (done_eq t law ep w _ w' (rw close at h))
          (set_active-Steps e false w.epoll w)
    | inr stays ↦ after_ctl-Steps e false _ w w' (rw stays at h)
  ]

  pub expired-OnlyEvent :
      (e : EvId) (w : World t.Tree ep.Set) → OnlyEvent t law ep e w (expired t e w)
  unfolding expired event_del_timer
  expired-OnlyEvent e w = record {
    same_conns = refl;
    same_free = refl;
    same_n = refl;
    others = λ d o. rw o refl;
  }
