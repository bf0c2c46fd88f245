-- ===== src/Epoll.antt =====
-- event.c: `event_add` and `event_del` over epoll, and the dispatch of `event_process`.
-- epoll is a parameter. A set of event bits is a record of the bits that the code uses.
pub mod Init
pub mod Watch
pub mod Dispatch
use crawler.Base.{
  ℕ, Bool, true, false, not, ◌&&◌, ◌||◌, Option, none, some, List, [], ◌∷◌, ◌≡◌, ◌==◌,
  if◌then◌else◌,
}
use crawler.Net.{Handler, EvId, read_of, write_of, Event, Conn, World, put_ev}

-- EPOLLIN, EPOLLOUT, EPOLLRDHUP, EPOLLERR, EPOLLHUP, EPOLLET.
pub record Mask : Type 0 where
  pub ep_in : Bool
  pub ep_out : Bool
  pub rdhup : Bool
  pub ep_err : Bool
  pub hup : Bool
  pub et : Bool

abbrev pub no_bits : Mask
no_bits = record {
  ep_in = false;
  ep_out = false;
  rdhup = false;
  ep_err = false;
  hup = false;
  et = false;
}

abbrev pub read_event : Mask
read_event = record no_bits { ep_in = true; rdhup = true }

abbrev pub write_event : Mask
write_event = record no_bits { ep_out = true }

abbrev pub clear_event : Mask
clear_event = record no_bits { et = true }

-- CLOSE_EVENT is 1, the bit of EPOLLIN.
abbrev pub close_event : Mask
close_event = record no_bits { ep_in = true }

infixl 30 ◌or_bits◌
abbrev pub ◌or_bits◌ : Mask → Mask → Mask
a or_bits b = record {
  ep_in = a.ep_in || b.ep_in;
  ep_out = a.ep_out || b.ep_out;
  rdhup = a.rdhup || b.rdhup;
  ep_err = a.ep_err || b.ep_err;
  hup = a.hup || b.hup;
  et = a.et || b.et;
}

abbrev pub same_bit : Bool → Bool → Bool
same_bit true b = b
same_bit false b = not b

abbrev pub same_bits : Mask → Mask → Bool
same_bits a b =
    same_bit a.ep_in b.ep_in
    && same_bit a.ep_out b.ep_out
    && same_bit a.rdhup b.rdhup
    && same_bit a.ep_err b.ep_err
    && same_bit a.hup b.hup
    && same_bit a.et b.et

pub data CtlOp : Type 0 where
  ctl_add ctl_mod ctl_del : CtlOp

-- `epoll_ctl`; `none` is -1. `interest` is what is registered for a descriptor.
pub record Epoll : Type 1 where
  pub Set : Type 0
  pub ctl : Set → CtlOp → ℕ → Mask → Option Set
  pub interest : Set → ℕ → Option Mask

abbrev pub registered : CtlOp → Mask → Option Mask
registered ctl_del m = none
registered _ m = some m

-- What the manual says: a call that succeeds changes the one entry; ADD wants it to be absent.
pub record IsEpoll (ep : Epoll) : Type 0 where
  pub interest-ctl :
      (s s' : ep.Set) (op : CtlOp) (fd g : ℕ) (m : Mask)
      → ep.ctl s op fd m ≡ some s'
      → ep.interest s' g ≡ (if fd == g then registered op m else ep.interest s g)
  pub add_absent :
      (s s' : ep.Set) (fd : ℕ) (m : Mask)
      → ep.ctl s ctl_add fd m ≡ some s'
      → ep.interest s fd ≡ none

-- 0 with the new state, or -1 with the state unchanged.
pub data Rc (W : Type 0) : Type 0 where
  done : W → Rc W
  failed : Rc W

-- `e` and `prev`: the other event of the connection, and its bits.
abbrev pub other_of : ℕ → Mask → EvId
other_of i event = if same_bits event read_event then write_of i else read_of i

abbrev pub prev_of : Mask → Mask
prev_of event = if same_bits event read_event then write_event else read_event

module _ (ep : Epoll) {Tree : Type 0} where
  abbrev pub after_ctl : World Tree ep.Set → EvId → Bool → Option ep.Set → Rc (World Tree ep.Set)
  after_ctl w e active none = failed
  after_ctl w e active (some s) =
      done (put_ev (record w { epoll = s }) e (record (w.evs e) { active = active }))

  -- `epoll_ctl` on the descriptor of a connection; that of -1 fails.
  abbrev pub ctl_fd : World Tree ep.Set → CtlOp → Option ℕ → Mask → Option ep.Set
  ctl_fd w op none m = none
  ctl_fd w op (some fd) m = ep.ctl w.epoll op fd m

  -- `event_add(ev, event, flags)` where `ev->data` is connection i.
  unfoldable pub event_add : EvId → ℕ → Mask → Mask → World Tree ep.Set → Rc (World Tree ep.Set)
  event_add ev i event flags w =
      let both = (w.evs (other_of i event)).active in
      let op = if both then ctl_mod else ctl_add in
      let events = if both then event or_bits prev_of event else event in
      after_ctl w ev true (ctl_fd w op (w.conns i).fd (events or_bits flags))

  -- `event_del(ev, event, flags)`.
  unfoldable pub event_del : EvId → ℕ → Mask → Mask → World Tree ep.Set → Rc (World Tree ep.Set)
  event_del ev i event flags w =
      if flags.ep_in
      then done (put_ev w ev (record (w.evs ev) { active = false }))
      else let both = (w.evs (other_of i event)).active in
        let op = if both then ctl_mod else ctl_del in
        let events = if both then prev_of event or_bits flags else no_bits in
        after_ctl w ev false (ctl_fd w op (w.conns i).fd events)
