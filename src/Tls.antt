-- ===== src/Tls.antt =====
-- connection.c: `ssl_recv`, `ssl_handle_recv`, `ssl_send` and the two handlers that a renegotiation
-- puts in place. OpenSSL is what the calls of `SSL_read` or `SSL_write` are to find, first one
-- first; where nothing is left, `SSL_read` wants to read. The size of a read is not 0. The queue of
-- errors that is emptied before a call is only printed.
pub mod Late
pub mod Handshake
use crawler.Base.{
  ℕ, zero, suc, ◌+◌, ◌-◌, Bool, true, false, Option, none, some, List, [], ◌∷◌, ◌++◌, ltb,
  if◌then◌else◌, length, take, drop,
}
use crawler.Net.{Handler, EvId, read_of, write_of, Event, Conn, World, put_conn, put_ev}
use crawler.Epoll.{Epoll, Rc, done, failed, read_event, write_event, clear_event, event_add}
use crawler.Socket.{Ret, count, again, fail}
use crawler.Socket.Send.{SendRet, sent, not_ready, send_failed, smaller}

-- 0, -4, -1 and -EAGAIN of `ssl->last`.
pub data Last : Type 0 where
  last_ok last_closed last_failed last_again : Last

pub record SslConnection : Type 0 where
  pub saved_read_handler : Option Handler
  pub saved_write_handler : Option Handler
  pub last : Last
  pub handshaked : Bool

-- At least one byte; SSL_ERROR_WANT_READ or WANT_WRITE; the end, or no error in the queue; or another
-- error.
pub data SslRead : Type 0 where
  plain : ℕ → List ℕ → SslRead
  want_read want_write closed ssl_fault : SslRead

-- `SSL_write` takes `suc n` bytes, if there are so many, or fails in one of three ways.
pub data SslWrite : Type 0 where
  takes : ℕ → SslWrite
  write_wants_read write_wants_write write_fault : SslWrite

pub record Tls (Tree Set : Type 0) : Type 0 where
  pub world : World Tree Set
  pub ssl : SslConnection

pub record SslReceived (S : Type 0) : Type 0 where
  pub ret : Ret
  pub stream : List SslRead
  pub tls : S

module _ {Tree Set : Type 0} (i : ℕ) where
  abbrev pub change_read : (Event → Event) → Tls Tree Set → Tls Tree Set
  change_read f s = record s { world = put_ev s.world (read_of i) (f (s.world.evs (read_of i))) }

  abbrev pub change_write : (Event → Event) → Tls Tree Set → Tls Tree Set
  change_write f s = record s { world = put_ev s.world (write_of i) (f (s.world.evs (write_of i))) }

  -- After bytes: the write handler that was put aside comes back.
  abbrev pub restore_write : Option Handler → Tls Tree Set → Tls Tree Set
  restore_write none s = s
  restore_write (some h) s =
      change_write (λ v. record v { handler = h; ready = true })
        (record s { ssl = record s.ssl { saved_write_handler = none } })

  abbrev pub put_aside_write : Option Handler → Tls Tree Set → Tls Tree Set
  put_aside_write (some h) s = s
  put_aside_write none s =
      change_write (λ v. record v { handler = Handler.ssl_write_handler })
        (record s {
          ssl = record s.ssl { saved_write_handler = some (s.world.evs (write_of i)).handler };
        })

  abbrev pub restore_read : Option Handler → Tls Tree Set → Tls Tree Set
  restore_read none s = s
  restore_read (some h) s =
      change_read (λ v. record v { handler = h; ready = true })
        (record s { ssl = record s.ssl { saved_read_handler = none } })

  abbrev pub put_aside_read : Option Handler → Tls Tree Set → Tls Tree Set
  put_aside_read (some h) s = s
  put_aside_read none s =
      change_read (λ v. record v { handler = Handler.ssl_read_handler })
        (record s {
          ssl = record s.ssl { saved_read_handler = some (s.world.evs (read_of i)).handler };
        })

  -- `ssl_write_handler` and `ssl_read_handler`: the other handler is run.
  unfoldable pub ssl_write_handler :
      (Handler → EvId → World Tree Set → World Tree Set) → World Tree Set → World Tree Set
  ssl_write_handler run w = run (w.evs (read_of i)).handler (read_of i) w

  unfoldable pub ssl_read_handler :
      (Handler → EvId → World Tree Set → World Tree Set) → World Tree Set → World Tree Set
  ssl_read_handler run w = run (w.evs (write_of i)).handler (write_of i) w

abbrev pub is_again : Last → Bool
is_again last_again = true
is_again _ = false

-- What `SSL_read` leaves of the bytes.
abbrev pub left_plain : List ℕ → List SslRead → List SslRead
left_plain [] p = p
left_plain (c ∷ cs) p = plain c cs ∷ p

module _ (ep : Epoll) {Tree : Type 0} (i : ℕ) where
  abbrev pub after_watch_write : Tls Tree ep.Set → Rc (World Tree ep.Set) → Last × Tls Tree ep.Set
  after_watch_write s failed = (last_failed, s)
  after_watch_write s (done w) =
      let s' = record s { world = w } in
      (last_again, put_aside_write i s'.ssl.saved_write_handler s')

  abbrev pub wants_write : Tls Tree ep.Set → Last × Tls Tree ep.Set
  wants_write s =
      let s' = change_write i (λ v. record v { ready = false }) s in
      after_watch_write s' (
        if (s'.world.evs (write_of i)).active
        then done s'.world
        else event_add ep (write_of i) i write_event clear_event s'.world)

  unfoldable pub ssl_handle_recv : SslRead → Tls Tree ep.Set → Last × Tls Tree ep.Set
  ssl_handle_recv (plain c cs) s = (last_ok, restore_write i s.ssl.saved_write_handler s)
  ssl_handle_recv want_write s = wants_write s
  ssl_handle_recv closed s = (last_closed, s)
  ssl_handle_recv ssl_fault s = (last_failed, s)
  ssl_handle_recv want_read s = (last_again, change_read i (λ v. record v { ready = false }) s)

  abbrev pub set_last : Last → Tls Tree ep.Set → Tls Tree ep.Set
  set_last l s = record s { ssl = record s.ssl { last = l } }

  -- What is returned without bytes.
  abbrev pub report : List SslRead → Last → Tls Tree ep.Set → SslReceived (Tls Tree ep.Set)
  report p last_closed s = record {
    ret = count [];
    stream = p;
    tls = change_read i (λ v. record v { ready = false; eof = true }) s;
  }
  report p last_failed s = record {
    ret = fail;
    stream = p;
    tls = change_read i (λ v. record v { error = true }) s;
  }
  report p _ s = record { ret = again; stream = p; tls = s }

  -- The end of the loop, with the bytes that were read.
  abbrev pub stop_read :
      List ℕ → List SslRead → Last × Tls Tree ep.Set → SslReceived (Tls Tree ep.Set)
  stop_read [] p (l, s) = report p l (set_last l s)
  stop_read (c ∷ cs) p (l, s) = record {
    ret = count (c ∷ cs);
    stream = p;
    tls =
        if is_again l
        then set_last l s
        else change_read i (λ v. record v { ready = true }) (set_last l s);
  }

  -- The buffer is full.
  abbrev pub full_read : List ℕ → List SslRead → Tls Tree ep.Set → SslReceived (Tls Tree ep.Set)
  full_read bytes p s = record {
    ret = count bytes;
    stream = p;
    tls = change_read i (λ v. record v { ready = true }) s;
  }

  unfoldable pub ssl_loop :
      ℕ → List ℕ → List SslRead → Tls Tree ep.Set → SslReceived (Tls Tree ep.Set)
  ssl_loop size bytes [] s = stop_read bytes [] (ssl_handle_recv want_read s)
  ssl_loop size bytes (plain c cs ∷ p) s =
      let (l, taken) = ssl_handle_recv (plain c cs) s in
      let s' = set_last l taken in
      let rest = ssl_loop (size - length (c ∷ cs)) (bytes ++ (c ∷ cs)) p s' in
      if ltb (length (c ∷ cs)) size
      then rest
      else full_read (bytes ++ take size (c ∷ cs)) (left_plain (drop size (c ∷ cs)) p) s'
  ssl_loop size bytes (x ∷ p) s = stop_read bytes p (ssl_handle_recv x s)

  abbrev pub by_last : ℕ → List SslRead → Tls Tree ep.Set → Last → SslReceived (Tls Tree ep.Set)
  by_last size p s last_failed = report p last_failed s
  by_last size p s last_closed = report p last_closed s
  by_last size p s _ = ssl_loop size [] p s

  unfoldable pub ssl_recv : ℕ → List SslRead → Tls Tree ep.Set → SslReceived (Tls Tree ep.Set)
  ssl_recv size p s = by_last size p s s.ssl.last

  abbrev pub after_watch_read : Tls Tree ep.Set → Rc (World Tree ep.Set) → SendRet × Tls Tree ep.Set
  after_watch_read s failed = (send_failed, s)
  after_watch_read s (done w) =
      let s' = record s { world = w } in (not_ready, put_aside_read i s'.ssl.saved_read_handler s')

  -- `ssl_send`, on what `SSL_write` finds.
  unfoldable pub ssl_send : ℕ → SslWrite → Tls Tree ep.Set → SendRet × Tls Tree ep.Set
  ssl_send size (takes n) s =
      let s' = restore_read i s.ssl.saved_read_handler s in
      let k = smaller size (suc n) in
      let c = s'.world.conns i in
      (sent k, record s' { world = put_conn s'.world i (record c { sent = c.sent + k }) })
  ssl_send size write_wants_write s =
      (not_ready, change_write i (λ v. record v { ready = false }) s)
  ssl_send size write_wants_read s =
      let s' = change_read i (λ v. record v { ready = false }) s in
      after_watch_read s' (
        if (s'.world.evs (read_of i)).active
        then done s'.world
        else event_add ep (read_of i) i read_event clear_event s'.world)
  ssl_send size write_fault s = (send_failed, change_write i (λ v. record v { error = true }) s)
