-- ===== src/Timer/Grows.antt =====
-- That `event_add_timer` and the calls of epoll take no event away and change no handler.
use mathlib.Core.Path.{subst}
use crawler.Base.{ℕ, ◌≡◌, refl, sym, ap, ◌∙◌, inl, inr, true, if◌then◌else◌, Bool-cases, ltb, ◌+◌}
use crawler.Base.Word.{u32, sub32}
use crawler.Net.{EvId, Event, World, same_ev}
use crawler.Tree.{TimerTree}
use crawler.Timer.{timer_lazy_delay, abs32, event_del_timer, set_timer, event_add_timer}
use crawler.Timer.Sync.{same_ev→eq}

-- No event stops being active, and no handler changes.
pub record Grows (f g : EvId → Event) : Type 0 where
  pub active : (d : EvId) → (f d).active ≡ true → (g d).active ≡ true
  pub handler : (d : EvId) → (g d).handler ≡ (f d).handler

pub Grows-refl : (f : EvId → Event) → Grows f f
Grows-refl f = record { active = λ d h. h; handler = λ d. refl }

pub Grows-trans : (f g h : EvId → Event) → Grows f g → Grows g h → Grows f h
Grows-trans f g h a b = record {
  active = λ d e. b.active d (a.active d e);
  handler = λ d. b.handler d ∙ a.handler d;
}

pub put_ev-Grows :
    (f : EvId → Event) (e : EvId) (v : Event)
    → ((f e).active ≡ true → v.active ≡ true)
    → v.handler ≡ (f e).handler
    → Grows f (λ d. if same_ev e d then v else f d)
put_ev-Grows f e v active handler = record {
  active = λ d h. elim (Bool-cases (same_ev e d)) [
    | inl here ↦ rw here (active (subst (λ x. (f x).active ≡ true) (sym (same_ev→eq e d here)) h))
    | inr other ↦ rw other h
  ];
  handler = λ d. elim (Bool-cases (same_ev e d)) [
    | inl here ↦ rw here (handler ∙ ap (λ x. (f x).handler) (same_ev→eq e d here))
    | inr other ↦ rw other refl
  ];
}

module _ (t : TimerTree) {Set : Type 0} (e : EvId) where
  -- What holds of a state, after a timer is put in and after one is taken out and put in again,
  -- holds after `event_add_timer`.
  event_add_timer-Cases :
      (P : World t.Tree Set → Type 0) (timer now : ℕ) (w : World t.Tree Set)
      → P w
      → ((key : ℕ) → P (set_timer t e key w))
      → ((key : ℕ) → P (set_timer t e key (event_del_timer t e w)))
      → P (event_add_timer t e timer now w)
  unfolding event_add_timer
  event_add_timer-Cases P timer now w stays sets resets = elim (Bool-cases (w.evs e).timer_set) [
    | inr unset ↦ rw unset (sets _)
    | inl set ↦
        rw set
          (elim (Bool-cases
            (ltb (abs32 (sub32 (u32 (now + timer)) (w.evs e).key)) timer_lazy_delay)) [
              | inl near ↦ rw near stays
              | inr far ↦ rw far (resets _)
            ])
  ]

  set_timer-Grows : (key : ℕ) (w : World t.Tree Set) → Grows w.evs (set_timer t e key w).evs
  unfolding set_timer
  set_timer-Grows key w = put_ev-Grows w.evs e _ (λ h. h) refl

  event_del_timer-Grows : (w : World t.Tree Set) → Grows w.evs (event_del_timer t e w).evs
  unfolding event_del_timer
  event_del_timer-Grows w = put_ev-Grows w.evs e _ (λ h. h) refl

  pub event_add_timer-Grows :
      (timer now : ℕ) (w : World t.Tree Set) → Grows w.evs (event_add_timer t e timer now w).evs
  event_add_timer-Grows timer now w =
      event_add_timer-Cases (λ v. Grows w.evs v.evs) timer now w (Grows-refl w.evs)
        (λ key. set_timer-Grows key w)
        (λ key.
          Grows-trans w.evs (event_del_timer t e w).evs _ (event_del_timer-Grows w)
            (set_timer-Grows key (event_del_timer t e w)))

  pub event_add_timer-conns :
      (timer now : ℕ) (w : World t.Tree Set) → (event_add_timer t e timer now w).conns ≡ w.conns
  unfolding event_del_timer set_timer
  event_add_timer-conns timer now w =
      event_add_timer-Cases (λ v. v.conns ≡ w.conns) timer now w refl (λ key. refl) (λ key. refl)
