-- ===== src/Epoll/Dispatch.antt =====
-- `event_process` of event.c, from the array that `epoll_wait` fills.
use crawler.Base.{
  ℕ, ◌≡◌, refl, inl, inr, Bool, true, false, not, ◌&&◌, ◌||◌, Option, none, some, List, [], ◌∷◌,
  arith, if◌then◌else◌, Bool-cases,
}
use crawler.Net.{Handler, EvId, read_of, write_of, query_of, World, put_ev}
use crawler.Epoll.{Mask}
use crawler.Timer.Sync.{same_ev_refl}

abbrev pub is_open : Option ℕ → Bool
is_open none = false
is_open (some fd) = true

-- `(revents & (EPOLLERR|EPOLLHUP)) && (revents & (EPOLLIN|EPOLLOUT)) == 0`: the bits to be added.
unfoldable pub with_errors : Mask → Mask
with_errors m =
    if (m.ep_err || m.hup) && not (m.ep_in || m.ep_out)
    then record m { ep_in = true; ep_out = true }
    else m

-- `epoll_wait` fails with an error that may be EINTR, or gives the entries.
pub data Waited : Type 0 where
  interrupted wait_failed : Waited
  events : List (ℕ × Mask) → Waited

module _ {Tree Set : Type 0} (run : Handler → EvId → World Tree Set → World Tree Set) where
  unfoldable pub on_read : ℕ → Mask → World Tree Set → World Tree Set
  on_read i m w =
      let rev = w.evs (read_of i) in
      if m.ep_in && rev.active
      then run rev.handler (read_of i) (
          put_ev w (read_of i)
            (record rev { pending_eof = if m.rdhup then true else rev.pending_eof; ready = true }))
      else w

  unfoldable pub on_write : ℕ → Mask → World Tree Set → World Tree Set
  on_write i m w =
      let wev = w.evs (write_of i) in
      if m.ep_out && wev.active
      then if is_open (w.conns i).fd
        then run wev.handler (write_of i) (put_ev w (write_of i) (record wev { ready = true }))
        else w
      else w

  -- One entry of the array: connection i and its bits.
  unfoldable pub on_event : ℕ → Mask → World Tree Set → World Tree Set
  unfolding with_errors
  on_event i m w =
      if is_open (w.conns i).fd
      then (let m' = with_errors m in on_write i m' (on_read i m' w))
      else w

  unfoldable pub event_loop : List (ℕ × Mask) → World Tree Set → World Tree Set
  event_loop [] w = w
  event_loop ((i, m) ∷ rest) w = event_loop rest (on_event i m w)

  -- 0 or -1; `forever` is a timeout of -1.
  unfoldable pub event_process : Bool → Waited → World Tree Set → Bool × World Tree Set
  event_process forever interrupted w = (true, w)
  event_process forever wait_failed w = (false, w)
  event_process forever (events []) w = (not forever, w)
  event_process forever (events (e ∷ es)) w = (true, event_loop (e ∷ es) w)

-- The connection of an event of a connection.
abbrev pub owner : EvId → Option ℕ
owner (read_of i) = some i
owner (write_of i) = some i
owner (query_of q) = none

module _ {Tree Set : Type 0} where
  -- The event e is active and ready, and its connection is open: its handler may run.
  pub record MayRun (e : EvId) (i : ℕ) (w : World Tree Set) : Type 0 where
    pub owned : owner e ≡ some i
    pub is_active : (w.evs e).active ≡ true
    pub is_ready : (w.evs e).ready ≡ true
    pub open_still : is_open (w.conns i).fd ≡ true

module _ {Tree Set : Type 0} (run : Handler → EvId → World Tree Set → World Tree Set)
    (P : World Tree Set → Type 0)
    (flags : (e : EvId) (eof : Bool) (w : World Tree Set)
      → P w
      → P (put_ev w e (record (w.evs e) { pending_eof = eof; ready = true })))
    (handlers : (e : EvId) (i : ℕ) (w : World Tree Set)
      → P w
      → MayRun e i w
      → P (run (w.evs e).handler e w)) where
  run-keeps :
      (e : EvId) (i : ℕ) (eof : Bool) (w : World Tree Set)
      → owner e ≡ some i
      → (w.evs e).active ≡ true
      → is_open (w.conns i).fd ≡ true
      → P w
      → P (
          run
            (w.evs e).handler
            e
            (put_ev w e (record (w.evs e) { pending_eof = eof; ready = true })))
  run-keeps e i eof w own a o p =
      let same = same_ev_refl e in
      let q =
        handlers e i _ (flags e eof w p) (record {
          owned = own;
          is_active = rw same a;
          is_ready = rw same refl;
          open_still = o;
        }) in
      rw same at q

  on_read-keeps :
      (i : ℕ) (m : Mask) (w : World Tree Set)
      → is_open (w.conns i).fd ≡ true
      → P w
      → P (on_read run i m w)
  unfolding on_read
  on_read-keeps i m w o p = elim (Bool-cases (m.ep_in && (w.evs (read_of i)).active)) [
    | inr skip ↦ rw skip p
    | inl due ↦ rw due (run-keeps (read_of i) i _ w refl (ground arith) o p)
  ]

  on_write-keeps : (i : ℕ) (m : Mask) (w : World Tree Set) → P w → P (on_write run i m w)
  unfolding on_write
  on_write-keeps i m w p = elim (Bool-cases (m.ep_out && (w.evs (write_of i)).active)) [
    | inr skip ↦ rw skip p
    | inl due ↦ elim (Bool-cases (is_open (w.conns i).fd)) [
      | inr shut ↦ rw (due, shut) p
      | inl o ↦ rw (due, o) (run-keeps (write_of i) i _ w refl (ground arith) o p)
    ]
  ]

  on_event-keeps : (i : ℕ) (m : Mask) (w : World Tree Set) → P w → P (on_event run i m w)
  unfolding on_event
  on_event-keeps i m w p = elim (Bool-cases (is_open (w.conns i).fd)) [
    | inr shut ↦ rw shut p
    | inl o ↦ rw o (on_write-keeps i (with_errors m) _ (on_read-keeps i (with_errors m) w o p))
  ]

  event_loop-keeps : (l : List (ℕ × Mask)) (w : World Tree Set) → P w → P (event_loop run l w)
  unfolding event_loop
  event_loop-keeps [] w p = p
  event_loop-keeps ((i, m) ∷ rest) w p =
      event_loop-keeps rest (on_event run i m w) (on_event-keeps i m w p)

  -- Whatever the entries of `epoll_wait` are, `event_process` keeps every property that setting the
  -- flags `ready` and `pending_eof` keeps, and that a handler keeps where it runs for an event
  -- that is active and ready and whose connection is open: it runs no handler in another state,
  -- even if the read handler closes the connection, or one entry's handlers that of a later entry.
  pub event_process-keeps :
      (forever : Bool) (waited : Waited) (w : World Tree Set)
      → P w
      → P (event_process run forever waited w).1
  unfolding event_process
  event_process-keeps forever interrupted w p = p
  event_process-keeps forever wait_failed w p = p
  event_process-keeps forever (events []) w p = p
  event_process-keeps forever (events (e ∷ es)) w p = event_loop-keeps (e ∷ es) w p
