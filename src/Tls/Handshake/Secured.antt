-- ===== src/Tls/Handshake/Secured.antt =====
-- `ssl_handshake_handler` of http_client.c: that a handshake goes on, is done, or is given up.
use crawler.Base.{
  ℕ, ◌≡◌, refl, ap, ◌∙◌, ◌⊎◌, inl, inr, Bool, true, false, ◌&&◌, Option, none, some, if◌then◌else◌,
  Bool-cases, arith,
}
use crawler.Net.{Handler, EvId, read_of, write_of, Event, Conn, World}
use crawler.Tree.{TimerTree}
use crawler.Timer.{event_add_timer}
use crawler.Timer.Sync.{same_ev_refl}
use crawler.Timer.Grows.{
  Grows, Grows-refl, put_ev-Grows, event_add_timer-Grows, event_add_timer-conns,
}
use crawler.Timer.Wait.{event_add_timer_sets}
use crawler.Epoll.{
  Mask, read_event, write_event, clear_event, Epoll, Rc, done, failed, after_ctl, event_add,
}
use crawler.Tls.{Tls}
use crawler.Tls.Handshake.{
  SslSetup, SslConnect, secured, wants_more, handshake_fault, Shake, set_handler, own_ssl,
  watch_read, ssl_create, on_connected, after_create, http_ssl_handshake, on_shake,
  ssl_handshake_handler,
}

module _ {Tree Set : Type 0} where
  set_handler-handler :
      (e : EvId) (h : Handler) (w : World Tree Set) → ((set_handler e h w).evs e).handler ≡ h
  set_handler-handler e h w = rw (same_ev_refl e) refl

module _ (i : ℕ) where
  abbrev Both : (EvId → Event) → Type 0
  Both f =
      ((f (read_of i)).handler ≡ Handler.ssl_handshake_handler)
      × ((f (write_of i)).handler ≡ Handler.ssl_handshake_handler)

  Grows-Both : (f g : EvId → Event) → Grows f g → Both f → Both g
  Grows-Both f g a (r, w) = (a.handler (read_of i) ∙ r, a.handler (write_of i) ∙ w)

  handshake_handlers-Both :
      {Tree Set : Type 0} (w : World Tree Set)
      → Both
          (set_handler
            (write_of i)
            Handler.ssl_handshake_handler
            (set_handler (read_of i) Handler.ssl_handshake_handler w)).evs
  handshake_handlers-Both w = (
    set_handler-handler (read_of i) Handler.ssl_handshake_handler w,
    set_handler-handler (write_of i) Handler.ssl_handshake_handler
        (set_handler (read_of i) Handler.ssl_handshake_handler w),
  )

module _ (ep : Epoll) {Tree : Type 0} (i : ℕ) where
  -- The TLS part of the connection is there, and both its events are watched for the handshake.
  pub record Shaking (w : World Tree ep.Set) : Type 0 where
    pub ssl : (w.conns i).ssl ≡ true
    pub read_active : (w.evs (read_of i)).active ≡ true
    pub write_active : (w.evs (write_of i)).active ≡ true
    pub read_handler : (w.evs (read_of i)).handler ≡ Handler.ssl_handshake_handler
    pub write_handler : (w.evs (write_of i)).handler ≡ Handler.ssl_handshake_handler

  -- A step that fails, or that makes the event active and changes nothing else of the events.
  abbrev Watches : EvId → (EvId → Event) → Rc (World Tree ep.Set) → Type 0
  Watches e f failed = Unit {0}
  Watches e f (done w) = Grows f w.evs × ((w.evs e).active ≡ true)

  after_ctl-Watches :
      (e : EvId) (w : World Tree ep.Set) (o : Option ep.Set)
      → Watches e w.evs (after_ctl ep w e true o)
  after_ctl-Watches e w none = tt
  after_ctl-Watches e w (some s) =
      (put_ev-Grows w.evs e _ (λ h. refl) refl, rw (same_ev_refl e) refl)

  watched-Watches :
      (e : EvId) (event : Mask) (w : World Tree ep.Set)
      → Watches e w.evs (if (w.evs e).active then done w else event_add ep e i event clear_event w)
  unfolding event_add
  watched-Watches e event w = elim (Bool-cases (w.evs e).active) [
    | inl a ↦ rw (a) (Grows-refl w.evs, a)
    | inr a ↦ rw a (after_ctl-Watches e w _)
  ]

  -- A run of `ssl_create` that fails, or after which the handshake can go on.
  abbrev Makes : Bool × Tls Tree ep.Set → Type 0
  Makes (false, s) = Unit {0}
  Makes (true, s) = Shaking s.world

  own_ssl-Makes :
      (s : Tls Tree ep.Set) (f : EvId → Event) (rc : Rc (World Tree ep.Set))
      → Both i f
      → (f (write_of i)).active ≡ true
      → Watches (read_of i) f rc
      → Makes (own_ssl ep i s rc)
  own_ssl-Makes s f failed both a h = tt
  own_ssl-Makes s f (done w) both a (g, r) =
      let (hr, hw) = Grows-Both i f w.evs g both in
      record {
        ssl = ground arith;
        read_active = r;
        write_active = g.active (write_of i) a;
        read_handler = hr;
        write_handler = hw;
      }

  watch_read-Makes :
      (s : Tls Tree ep.Set) (f : EvId → Event) (rc : Rc (World Tree ep.Set))
      → Both i f
      → Watches (write_of i) f rc
      → Makes (watch_read ep i s rc)
  watch_read-Makes s f failed both h = tt
  watch_read-Makes s f (done w) both (g, a) =
      own_ssl-Makes _ w.evs _ (Grows-Both i f w.evs g both) a
        (watched-Watches (read_of i) read_event w)

  ssl_create-Makes : (k : SslSetup) (s : Tls Tree ep.Set) → Makes (ssl_create ep i k s)
  unfolding ssl_create
  ssl_create-Makes k s = elim (Bool-cases (k.memory && k.context && k.connection && k.descriptor)) [
    | inr short ↦ rw short tt
    | inl all ↦
        let w : World Tree ep.Set =
          set_handler (write_of i) Handler.ssl_handshake_handler
            (set_handler (read_of i) Handler.ssl_handshake_handler s.world) in
        rw all (
          watch_read-Makes _ w.evs _ (handshake_handlers-Both i s.world)
            (watched-Watches (write_of i) write_event w))
  ]

module _ (t : TimerTree) (ep : Epoll) (now i : ℕ) where
  -- TLS is in place, and the request is written next, for which a timer runs.
  pub record Secured (s : Shake t.Tree ep.Set) : Type 0 where
    pub ssl : (s.tls.world.conns i).ssl ≡ true
    pub handshaked : s.tls.ssl.handshaked ≡ true
    pub secure_io : s.secure_io ≡ true
    pub handler : (s.tls.world.evs (write_of i)).handler ≡ Handler.http_write_event_process
    pub timer : (s.tls.world.evs (write_of i)).timer_set ≡ true

  -- The handshake goes on, and a timer runs.
  abbrev pub GoesOn : Shake t.Tree ep.Set → Type 0
  GoesOn s = Shaking ep i s.tls.world × ((s.tls.world.evs (write_of i)).timer_set ≡ true)

  -- What the result of `SSL_connect` leads to, with whether the handler of the client is called.
  abbrev pub Outcome : SslConnect → Bool × Shake t.Tree ep.Set → Type 0
  Outcome secured r = (r.0 ≡ false) × Secured r.1
  Outcome wants_more r = (r.0 ≡ false) × GoesOn r.1
  Outcome handshake_fault r = r.0 ≡ true

  -- The client is given up before `SSL_connect`: the event has timed out, or there was no TLS part
  -- and none could be made.
  abbrev pub GivenUp : EvId → SslSetup → Shake t.Tree ep.Set → Type 0
  GivenUp e k s =
      ((s.tls.world.evs e).timedout ≡ true)
      ⊎ (((s.tls.world.conns i).ssl ≡ false) × ((ssl_create ep i k s.tls).0 ≡ false))

  put_timer-Shaking :
      (timer : ℕ) (w : World t.Tree ep.Set)
      → Shaking ep i w
      → Shaking ep i (event_add_timer t (write_of i) timer now w)
  put_timer-Shaking timer w h =
      let g = event_add_timer-Grows t (write_of i) timer now w in
      record {
        ssl =
            ap (λ (c : ℕ → Conn). (c i).ssl) (event_add_timer-conns t (write_of i) timer now w)
            ∙ h.ssl;
        read_active = g.active (read_of i) h.read_active;
        write_active = g.active (write_of i) h.write_active;
        read_handler = g.handler (read_of i) ∙ h.read_handler;
        write_handler = g.handler (write_of i) ∙ h.write_handler;
      }

  on_connected-Ends :
      (x : SslConnect) (s : Shake t.Tree ep.Set)
      → Shaking ep i s.tls.world
      → Outcome x (on_shake t ep now i (on_connected ep i s x))
  on_connected-Ends handshake_fault s h = refl
  on_connected-Ends wants_more s h = (
    refl,
    (
      put_timer-Shaking 10000 s.tls.world h,
      event_add_timer_sets t (write_of i) 10000 now s.tls.world,
    ),
  )
  on_connected-Ends secured s h =
      let w = set_handler (write_of i) Handler.http_write_event_process s.tls.world in
      (
        refl,
        record {
          ssl =
              ap (λ (c : ℕ → Conn). (c i).ssl) (event_add_timer-conns t (write_of i) 5000 now w)
              ∙ h.ssl;
          handshaked = refl;
          secure_io = refl;
          handler =
              (event_add_timer-Grows t (write_of i) 5000 now w).handler (write_of i)
              ∙ set_handler-handler (write_of i) Handler.http_write_event_process s.tls.world;
          timer = event_add_timer_sets t (write_of i) 5000 now w;
        },
      )

  after_create-Ends :
      (x : SslConnect) (s : Shake t.Tree ep.Set) (r : Bool × Tls t.Tree ep.Set)
      → Makes ep i r
      → let made = on_shake t ep now i (after_create ep i x s r) in
        ((made.0 ≡ true) × (r.0 ≡ false)) ⊎ Outcome x made
  after_create-Ends x s (false, tls) h = inl (refl, refl)
  after_create-Ends x s (true, tls) h = inr (on_connected-Ends x (record s { tls = tls }) h)

  -- A connection whose TLS part is there is watched for the handshake; one whose part is not there
  -- may be in any state. Unless the client is given up before, because the event has timed out or
  -- no TLS part could be made, the result of `SSL_connect` decides: on success the connection reads
  -- and writes through TLS, and the request is written next, under a timer; where it wants to read
  -- or to write, the TLS part is there, both events are watched for the handshake, and a timer
  -- runs; and on a fault, as where the client is given up, the handler of the client is called, and
  -- else not.
  pub ssl_handshake_handler-Ends :
      (e : EvId) (k : SslSetup) (x : SslConnect) (s : Shake t.Tree ep.Set)
      → ((s.tls.world.conns i).ssl ≡ true → Shaking ep i s.tls.world)
      → let r = ssl_handshake_handler t ep now i e k x s in
        ((r.0 ≡ true) × GivenUp e k s) ⊎ Outcome x r
  unfolding ssl_handshake_handler http_ssl_handshake
  ssl_handshake_handler-Ends e k x s h = elim (Bool-cases (s.tls.world.evs e).timedout) [
    | inl late ↦ rw late (inl (refl, inl refl))
    | inr on_time ↦ rw on_time (elim (Bool-cases (s.tls.world.conns i).ssl) [
      | inl there ↦ rw there (inr (on_connected-Ends x s (h there)))
      | inr absent ↦
          rw absent
            (elim (after_create-Ends x s (ssl_create ep i k s.tls)
              (ssl_create-Makes ep i k s.tls)) [
                | inl (handled, none_made) ↦ inl (handled, inr (refl, none_made))
                | inr ends ↦ inr ends
              ])
    ])
  ]
