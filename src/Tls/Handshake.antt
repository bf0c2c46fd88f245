-- ===== src/Tls/Handshake.antt =====
-- http_client.c: `ssl_create`, `http_ssl_handshake` and `ssl_handshake_handler`. What OpenSSL does
-- is an argument. Memory that is freed is not kept account of.
pub mod Secured
use crawler.Base.{ℕ, Bool, true, false, ◌&&◌, none, if◌then◌else◌}
use crawler.Net.{Handler, EvId, read_of, write_of, World, put_conn, put_ev}
use crawler.Tree.{TimerTree}
use crawler.Timer.{event_add_timer}
use crawler.Epoll.{read_event, write_event, clear_event, Epoll, Rc, done, failed, event_add}
use crawler.Tls.{last_ok, SslConnection, Tls}

-- `calloc`, `SSL_CTX_new`, `SSL_new` and `SSL_set_fd` succeed.
pub record SslSetup : Type 0 where
  pub memory : Bool
  pub context : Bool
  pub connection : Bool
  pub descriptor : Bool

-- `SSL_connect` returns 1; or it fails with SSL_ERROR_WANT_READ or WANT_WRITE; or otherwise.
pub data SslConnect : Type 0 where
  secured wants_more handshake_fault : SslConnect

-- 0, EAGAIN or -1.
pub data HandshakeRet : Type 0 where
  shaken shaking unshaken : HandshakeRet

-- `secure_io`: the fields `recv` and `send` of the connection are `ssl_recv` and `ssl_send`.
pub record Shake (Tree Set : Type 0) : Type 0 where
  pub tls : Tls Tree Set
  pub secure_io : Bool

-- What `calloc` leaves.
abbrev pub zero_ssl : SslConnection
zero_ssl = record {
  saved_read_handler = none;
  saved_write_handler = none;
  last = last_ok;
  handshaked = false;
}

abbrev pub set_handler : {Tree Set : Type 0} → EvId → Handler → World Tree Set → World Tree Set
set_handler e h w = put_ev w e (record (w.evs e) { handler = h })

module _ (ep : Epoll) {Tree : Type 0} (i : ℕ) where
  abbrev pub own_ssl : Tls Tree ep.Set → Rc (World Tree ep.Set) → Bool × Tls Tree ep.Set
  own_ssl s failed = (false, s)
  own_ssl s (done w) =
      (true, record { world = put_conn w i (record (w.conns i) { ssl = true }); ssl = zero_ssl })

  abbrev pub watch_read : Tls Tree ep.Set → Rc (World Tree ep.Set) → Bool × Tls Tree ep.Set
  watch_read s failed = (false, s)
  watch_read s (done w) =
      own_ssl (record s { world = w })
        (if (w.evs (read_of i)).active
          then done w
          else event_add ep (read_of i) i read_event clear_event w)

  -- `ssl_create`: `true` for 0, `false` for -1.
  unfoldable pub ssl_create : SslSetup → Tls Tree ep.Set → Bool × Tls Tree ep.Set
  ssl_create k s =
      if k.memory && k.context && k.connection && k.descriptor
      then (let w =
            set_handler (write_of i) Handler.ssl_handshake_handler
              (set_handler (read_of i) Handler.ssl_handshake_handler s.world) in
          watch_read (record s { world = w })
            (if (w.evs (write_of i)).active
              then done w
              else event_add ep (write_of i) i write_event clear_event w))
      else (false, s)

  abbrev pub on_connected : Shake Tree ep.Set → SslConnect → HandshakeRet × Shake Tree ep.Set
  on_connected s secured = (
    shaken,
    record {
      tls = record s.tls { ssl = record s.tls.ssl { handshaked = true } };
      secure_io = true;
    },
  )
  on_connected s wants_more = (shaking, s)
  on_connected s handshake_fault = (unshaken, s)

  abbrev pub after_create :
      SslConnect → Shake Tree ep.Set → Bool × Tls Tree ep.Set → HandshakeRet × Shake Tree ep.Set
  after_create x s (true, tls) = on_connected (record s { tls = tls }) x
  after_create x s (false, tls) = (unshaken, record s { tls = tls })

  unfoldable pub http_ssl_handshake :
      SslSetup → SslConnect → Shake Tree ep.Set → HandshakeRet × Shake Tree ep.Set
  http_ssl_handshake k x s =
      if (s.tls.world.conns i).ssl then on_connected s x else after_create x s (ssl_create k s.tls)

module _ (t : TimerTree) (ep : Epoll) (now i : ℕ) where
  abbrev pub put_timer : ℕ → Shake t.Tree ep.Set → Shake t.Tree ep.Set
  put_timer timeout s = record s {
    tls = record s.tls { world = event_add_timer t (write_of i) timeout now s.tls.world };
  }

  abbrev pub to_write : Shake t.Tree ep.Set → Shake t.Tree ep.Set
  to_write s = record s {
    tls = record s.tls {
      world = set_handler (write_of i) Handler.http_write_event_process s.tls.world;
    };
  }

  -- With whether the handler of the client is called.
  abbrev pub on_shake : HandshakeRet × Shake t.Tree ep.Set → Bool × Shake t.Tree ep.Set
  on_shake (shaking, s) = (false, put_timer 10000 s)
  on_shake (unshaken, s) = (true, s)
  on_shake (shaken, s) = (false, if s.tls.ssl.handshaked then put_timer 5000 (to_write s) else s)

  -- `ssl_handshake_handler` for one of the two events of connection i.
  unfoldable pub ssl_handshake_handler :
      EvId → SslSetup → SslConnect → Shake t.Tree ep.Set → Bool × Shake t.Tree ep.Set
  ssl_handshake_handler e k x s =
      if (s.tls.world.evs e).timedout then (true, s) else on_shake (http_ssl_handshake ep i k x s)
