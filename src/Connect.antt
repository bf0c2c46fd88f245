-- ===== src/Connect.antt =====
-- http_client.c: `http_conn`, `http_client_create`, `http_client_retrieve` and
-- `http_write_event_process` without TLS. The calls of the system are arguments; `shut` is `close`.
-- Memory that is freed is not kept account of.
pub mod Kept
pub mod Only
pub mod Pooled
pub mod Written
pub mod Runs
use crawler.Base.{
  ℕ, suc, ◌+◌, ◌-◌, ◌*◌, ◌/◌, ◌%◌, Bool, true, false, not, ◌&&◌, Option, none, some, List, [], ◌∷◌,
  ◌==◌, if◌then◌else◌,
}
use crawler.Head.Fields.{codes, equal}
use crawler.Buffer.{HttpBuf}
use crawler.Net.{Handler, EvId, read_of, write_of, Event, to_client, World, put_conn, put_ev}
use crawler.Tree.{TimerTree}
use crawler.Timer.{event_del_timer, event_add_timer}
use crawler.Epoll.{
  Mask, read_event, write_event, clear_event, no_bits, Epoll, Rc, done, failed, event_add,
  event_del,
}
use crawler.Pool.{drop_timer, get_connection, close_connection}
use crawler.Socket.Send.{Room, SendRet, sent, not_ready, send_failed, unix_send}
use crawler.Client.{ClientStatus, http_conn_done, http_req_done, HttpClient}
use crawler.Request.{pack_req_buf}
use crawler.Dns.Resolver.{HttpUrl}

-- What `connect` does: it succeeds, fails with EINPROGRESS, or fails.
pub data Connecting : Type 0 where
  connected in_progress connect_failed : Connecting

-- `socket`, `nonblocking`, `connect` and the clock.
pub record SocketCalls : Type 0 where
  pub socket : Option ℕ
  pub nonblocking : Bool
  pub connect : Connecting
  pub now : ℕ

pub record Sockaddr : Type 0 where
  pub sin_port : ℕ
  pub sin_addr : ℕ

-- A client without memory; one with its connection; or one for which `http_conn` gave -1, and whose
-- handler is called.
pub data Created : Type 0 where
  no_client : Created
  client_on : HttpClient → Sockaddr → ℕ → Created
  client_handled : HttpClient → Sockaddr → Created

abbrev pub new_client : Bool → HttpClient
new_client ssl = record {
  status = http_conn_done;
  req = none;
  recv = none;
  head = none;
  html = none;
  ssl_flag = ssl;
}

-- `htons` on a machine with the low byte first.
abbrev pub htons : ℕ → ℕ
htons port = port % 256 * 256 + port / 256 % 256

pub record WriteEnd (W : Type 0) : Type 0 where
  pub client : HttpClient
  pub world : W
  pub kernel : List Room
  pub handled : Bool

module _ (t : TimerTree) (ep : Epoll) (shut : ℕ → ep.Set → ep.Set) where
  abbrev pub give_up : ℕ → World t.Tree ep.Set → Option ℕ × World t.Tree ep.Set
  give_up i w = (none, close_connection t ep shut i w)

  abbrev pub on_connect :
      SocketCalls → ℕ → World t.Tree ep.Set → Connecting → Option ℕ × World t.Tree ep.Set
  on_connect k i w connected = (some i, w)
  on_connect k i w in_progress = (some i, event_add_timer t (write_of i) 5000 k.now w)
  on_connect k i w connect_failed = give_up i w

  abbrev pub on_write_added :
      SocketCalls
      → ℕ
      → World t.Tree ep.Set
      → Rc (World t.Tree ep.Set)
      → Option ℕ × World t.Tree ep.Set
  on_write_added k i w failed = give_up i w
  on_write_added k i w (done w') = on_connect k i w' k.connect

  -- `wev->handler` and `c->data`.
  abbrev pub prepare : Bool → ℕ → ℕ → World t.Tree ep.Set → World t.Tree ep.Set
  prepare ssl client i w =
      put_ev (put_conn w i (record (w.conns i) { data_ptr = to_client client })) (write_of i)
        (record (w.evs (write_of i)) {
          handler = if ssl then Handler.ssl_handshake_handler else Handler.http_write_event_process;
        })

  abbrev pub on_got :
      SocketCalls → Bool → ℕ → ℕ → Option ℕ × World t.Tree ep.Set → Option ℕ × World t.Tree ep.Set
  on_got k ssl client fd (none, w) = (none, record w { epoll = shut fd w.epoll })
  on_got k ssl client fd (some i, w) =
      if k.nonblocking
      then (let w' = prepare ssl client i w in
          on_write_added k i w' (event_add ep (write_of i) i write_event clear_event w'))
      else give_up i w

  abbrev pub on_fd :
      SocketCalls → Bool → ℕ → World t.Tree ep.Set → Option ℕ → Option ℕ × World t.Tree ep.Set
  on_fd k ssl client w none = (none, w)
  on_fd k ssl client w (some fd) = on_got k ssl client fd (get_connection fd w)

  -- `http_conn` for a client with the number `client`: its connection, or `none` for -1.
  unfoldable pub http_conn :
      SocketCalls → Bool → ℕ → World t.Tree ep.Set → Option ℕ × World t.Tree ep.Set
  http_conn k ssl client w = on_fd k ssl client w k.socket

  abbrev pub after_conn :
      HttpClient → Sockaddr → Option ℕ × World t.Tree ep.Set → Created × World t.Tree ep.Set
  after_conn c sa (none, w) = (client_handled c sa, w)
  after_conn c sa (some i, w) = (client_on c sa i, w)

  -- The first two arguments say whether the two calls of `calloc` give memory.
  unfoldable pub http_client_create :
      Bool
      → Bool
      → SocketCalls
      → HttpUrl
      → ℕ
      → ℕ
      → World t.Tree ep.Set
      → Created × World t.Tree ep.Set
  http_client_create client_ok sa_ok k url sin_addr client w =
      if client_ok && sa_ok
      then (let ssl = equal (codes "https") url.schema in
          after_conn (new_client ssl) (record { sin_port = htons url.port; sin_addr = sin_addr })
            (http_conn k ssl client w))
      else (no_client, w)

  -- `http_client_retrieve`, of which the connection is kept account.
  unfoldable pub http_client_retrieve : Option ℕ → World t.Tree ep.Set → World t.Tree ep.Set
  http_client_retrieve none w = w
  http_client_retrieve (some i) w =
      close_connection t ep shut i (put_conn w i (record (w.conns i) { ssl = false }))

  module _ (now : ℕ) (i : ℕ) where
    abbrev pub write_failed :
        HttpClient → List Room → World t.Tree ep.Set → WriteEnd (World t.Tree ep.Set)
    write_failed c kernel w = record { client = c; world = w; kernel = kernel; handled = true }

    -- The read event is watched, and its timer set.
    abbrev pub await_response :
        HttpClient
        → List Room
        → World t.Tree ep.Set
        → Rc (World t.Tree ep.Set)
        → WriteEnd (World t.Tree ep.Set)
    await_response c kernel w failed = write_failed c kernel w
    await_response c kernel w (done w') = record {
      client = record c { status = http_req_done };
      world = event_add_timer t (read_of i) 20000 now w';
      kernel = kernel;
      handled = false;
    }

    abbrev pub to_read : World t.Tree ep.Set → World t.Tree ep.Set
    to_read w =
        put_ev w (read_of i)
          (record (w.evs (read_of i)) { handler = Handler.http_read_event_process })

    abbrev pub on_write_removed :
        HttpClient
        → List Room
        → World t.Tree ep.Set
        → Rc (World t.Tree ep.Set)
        → WriteEnd (World t.Tree ep.Set)
    on_write_removed c kernel w failed = write_failed c kernel w
    on_write_removed c kernel w (done w') =
        let w2 = to_read w' in
        await_response c kernel w2 (
          if (w2.evs (read_of i)).active
          then done w2
          else event_add ep (read_of i) i read_event clear_event w2)

    -- From the comment "trans end"; where not all is sent the code falls through to `failed`.
    abbrev pub trans_end :
        HttpClient → HttpBuf → List Room → World t.Tree ep.Set → WriteEnd (World t.Tree ep.Set)
    trans_end c b kernel w =
        if b.pos == b.last
        then (let w1 = drop_timer t ep (write_of i) w in
            on_write_removed c kernel w1 (
              if (w1.evs (write_of i)).active
              then event_del ep (write_of i) i write_event no_bits w1
              else done w1))
        else write_failed c kernel w

    abbrev pub on_send_ret :
        HttpClient
        → HttpBuf
        → List Room
        → World t.Tree ep.Set
        → SendRet
        → WriteEnd (World t.Tree ep.Set)
    on_send_ret c b kernel w send_failed = write_failed c kernel w
    on_send_ret c b kernel w not_ready =
        trans_end c b kernel (event_add_timer t (write_of i) 5000 now w)
    on_send_ret c b kernel w (sent n) =
        let b' = record b { pos = b.pos + n } in trans_end (record c { req = some b' }) b' kernel w

    -- `c->send(c, b->pos, size)` if there is something to send, and room.
    abbrev pub send_request :
        HttpClient
        → List Room
        → World t.Tree ep.Set
        → Option HttpBuf
        → WriteEnd (World t.Tree ep.Set)
    send_request c kernel w none = write_failed c kernel w
    send_request c kernel w (some b) =
        let c' = record c { req = some b } in
        let r = unix_send (b.last - b.pos) kernel (w.evs (write_of i)) (w.conns i).sent in
        let w' = put_ev (put_conn w i (record (w.conns i) { sent = r.total })) (write_of i) r.wev in
        if not (b.last - b.pos == 0) && (w.evs (write_of i)).ready
        then on_send_ret c' b r.kernel w' r.ret
        else trans_end c' b kernel w

    abbrev pub open_req : Bool → Bool → HttpUrl → Option HttpBuf → Option HttpBuf
    open_req struct_ok bytes_ok url (some b) = some b
    open_req struct_ok bytes_ok url none = pack_req_buf struct_ok bytes_ok url.path url.host

    -- `http_write_event_process` for connection i; the first two arguments say whether the calls of
    -- `calloc` for the request give memory.
    unfoldable pub http_write_event_process :
        Bool
        → Bool
        → HttpUrl
        → HttpClient
        → List Room
        → World t.Tree ep.Set
        → WriteEnd (World t.Tree ep.Set)
    http_write_event_process struct_ok bytes_ok url c kernel w =
        if (w.evs (write_of i)).timedout
        then write_failed c kernel w
        else send_request c kernel w (open_req struct_ok bytes_ok url c.req)
