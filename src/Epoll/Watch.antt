-- ===== src/Epoll/Watch.antt =====
-- The flags `active` of a connection, against what epoll watches for it.
use crawler.Base.{
  ℕ, ◌≡◌, inl, inr, Bool, true, false, ◌||◌, Option, none, some, arith, if◌then◌else◌, Option-cases,
  Bool-cases,
}
use crawler.Net.{EvId, read_of, write_of, World}
use crawler.Epoll.{
  Mask, no_bits, read_event, write_event, clear_event, Epoll, IsEpoll, CtlOp, ctl_add, ctl_mod,
  ctl_del, registered, done, after_ctl, ctl_fd, event_add, event_del,
}

-- The entry that is to be there.
abbrev pub bits_for : Bool → Bool → Option Mask
bits_for r w = if r || w then some (record no_bits { ep_in = r; rdhup = r; ep_out = w }) else none

abbrev pub but_et : Option Mask → Option Mask
but_et none = none
but_et (some m) = some (record m { et = false })

-- `READ_EVENT` goes with the read event of a connection, and `WRITE_EVENT` with the write event.
abbrev pub event_of : Bool → ℕ → EvId
event_of true i = read_of i
event_of false i = write_of i

abbrev pub mask_of : Bool → Mask
mask_of true = read_event
mask_of false = write_event

-- The entry to be there once the event is set or cleared.
abbrev wanted : {Tree Set : Type 0} → Bool → Bool → ℕ → World Tree Set → Option Mask
wanted true active i w = bits_for active (w.evs (write_of i)).active
wanted false active i w = bits_for (w.evs (read_of i)).active active

module _ (ep : Epoll) (law : IsEpoll ep) {Tree : Type 0} where
  -- Of the open connection i epoll watches what is active, and has no entry if nothing is.
  pub record Watched (i fd : ℕ) (w : World Tree ep.Set) : Type 0 where
    pub is_open : (w.conns i).fd ≡ some fd
    pub bits :
        but_et (ep.interest w.epoll fd)
        ≡ bits_for (w.evs (read_of i)).active (w.evs (write_of i)).active

  after_ctl-Watched :
      (reads active : Bool) (op : CtlOp) (m : Mask) (i fd : ℕ) (w w' : World Tree ep.Set)
      → Watched i fd w
      → but_et (registered op m) ≡ wanted reads active i w
      → after_ctl ep w (event_of reads i) active (ctl_fd ep w op (w.conns i).fd m) ≡ done w'
      → Watched i fd w' × ((w'.evs (event_of reads i)).active ≡ active)
  after_ctl-Watched true active op m i fd w w' v b e =
      elim (Option-cases (ep.ctl w.epoll op fd m)) [
        | inl f ↦ ground arith
        | inr (s, f) ↦ ground (arith, law.interest-ctl w.epoll s op fd fd m f)
      ]
  after_ctl-Watched false active op m i fd w w' v b e =
      elim (Option-cases (ep.ctl w.epoll op fd m)) [
        | inl f ↦ ground arith
        | inr (s, f) ↦ ground (arith, law.interest-ctl w.epoll s op fd fd m f)
      ]

  -- After a successful `event_add` epoll watches the event too, besides what it watched before.
  pub event_add-Watched :
      (reads edge : Bool) (i fd : ℕ) (w w' : World Tree ep.Set)
      → Watched i fd w
      → event_add ep (event_of reads i) i (mask_of reads) (if edge then clear_event else no_bits) w
        ≡ done w'
      → Watched i fd w' × ((w'.evs (event_of reads i)).active ≡ true)
  unfolding event_add
  event_add-Watched true edge i fd w w' v e = elim (Bool-cases (w.evs (write_of i)).active) [
    | inl b ↦ after_ctl-Watched true true ctl_mod _ i fd w w' v (ground arith) (rw b at e)
    | inr b ↦ after_ctl-Watched true true ctl_add _ i fd w w' v (ground arith) (rw b at e)
  ]
  event_add-Watched false edge i fd w w' v e = elim (Bool-cases (w.evs (read_of i)).active) [
    | inl b ↦ after_ctl-Watched false true ctl_mod _ i fd w w' v (ground arith) (rw b at e)
    | inr b ↦ after_ctl-Watched false true ctl_add _ i fd w w' v (ground arith) (rw b at e)
  ]

  -- After a successful `event_del` without `CLOSE_EVENT` epoll watches what is left, and has no
  -- entry if nothing is.
  pub event_del-Watched :
      (reads edge : Bool) (i fd : ℕ) (w w' : World Tree ep.Set)
      → Watched i fd w
      → event_del ep (event_of reads i) i (mask_of reads) (if edge then clear_event else no_bits) w
        ≡ done w'
      → Watched i fd w' × ((w'.evs (event_of reads i)).active ≡ false)
  unfolding event_del
  event_del-Watched true edge i fd w w' v e =
      let f : (if edge then clear_event else no_bits).ep_in ≡ false = ground arith in
      elim (Bool-cases (w.evs (write_of i)).active) [
        | inl b ↦ after_ctl-Watched true false ctl_mod _ i fd w w' v (ground arith) (rw (f, b) at e)
        | inr b ↦ after_ctl-Watched true false ctl_del _ i fd w w' v (ground arith) (rw (f, b) at e)
      ]
  event_del-Watched false edge i fd w w' v e =
      let f : (if edge then clear_event else no_bits).ep_in ≡ false = ground arith in
      elim (Bool-cases (w.evs (read_of i)).active) [
        | inl b ↦
            after_ctl-Watched false false ctl_mod _ i fd w w' v (ground arith) (rw (f, b) at e)
        | inr b ↦
            after_ctl-Watched false false ctl_del _ i fd w w' v (ground arith) (rw (f, b) at e)
      ]
