-- ===== src/Connect/Written.antt =====
-- `http_write_event_process` of http_client.c: when a request is on its way.
use crawler.Socket.Send.{send_interrupt, send_fault, room_for}
use crawler.Timer.{event_add_timer}
use crawler.Net.{Event, put_ev, put_conn}
use crawler.Base.{suc, ◌∷◌, [], ◌-◌, arith}
use crawler.Timer.Grows.{event_add_timer-conns}
use crawler.Timer.{event_del_timer}
use mathlib.Core.Path.{subst}
use crawler.Base.{
  ℕ, ◌-◌, ◌≡◌, refl, ◌∙◌, ◌⊎◌, inl, inr, Bool, true, false, not, ◌&&◌, Option, none, some, List,
  ◌==◌, ==_iff, if◌then◌else◌, Bool-cases, ◌+◌, sym, ap,
}
use crawler.Buffer.{HttpBuf}
use crawler.Net.{read_of, write_of, World, EvId, Conn}
use crawler.Tree.{TimerTree}
use crawler.Timer.Sync.{same_ev_refl}
use crawler.Timer.Wait.{event_add_timer_sets, event_add_timer-active}
use crawler.Epoll.{
  read_event, clear_event, Epoll, Rc, done, failed, after_ctl, event_add, write_event, no_bits,
  event_del,
}
use crawler.Pool.{drop_timer}
use crawler.Socket.Send.{smaller, Room, SendRet, sent, not_ready, send_failed, unix_send}
use crawler.Client.{http_req_done, HttpClient}
use crawler.Dns.Resolver.{HttpUrl}
use crawler.Connect.{
  WriteEnd, to_read, await_response, on_write_removed, trans_end, on_send_ret, send_request,
  open_req, http_write_event_process,
}

module _ (t : TimerTree) (ep : Epoll) (shut : ℕ → ep.Set → ep.Set) (now i : ℕ) where
  -- The bytes of the request b0 from `pos` on have been given to the socket, which the
  -- counter `sent` of the connection has counted, and no others; and the response is waited for.
  pub record Written (b0 : HttpBuf) (total : ℕ) (r : WriteEnd (World t.Tree ep.Set)) : Type 0 where
    pub status : r.client.status ≡ http_req_done
    pub size : ℕ
    pub to_end : b0.pos + size ≡ b0.last
    pub counted : (r.world.conns i).sent ≡ total + size
    pub req : r.client.req ≡ some (record b0 { pos = b0.last })
    pub active : (r.world.evs (read_of i)).active ≡ true
    pub timer : (r.world.evs (read_of i)).timer_set ≡ true
    pub unhandled : r.handled ≡ false

  -- A step that leaves the counter, and after which the read event is active.
  abbrev Activates : ℕ → Rc (World t.Tree ep.Set) → Type 0
  Activates total failed = Unit {0}
  Activates total (done w) = ((w.evs (read_of i)).active ≡ true) × ((w.conns i).sent ≡ total)

  after_ctl-Activates :
      (w : World t.Tree ep.Set) (o : Option ep.Set)
      → Activates (w.conns i).sent (after_ctl ep w (read_of i) true o)
  after_ctl-Activates w none = tt
  after_ctl-Activates w (some s) = rw (same_ev_refl (read_of i)) (refl, refl)

  watched-Activates :
      (w : World t.Tree ep.Set)
      → Activates (w.conns i).sent (
          if (w.evs (read_of i)).active
          then done w
          else event_add ep (read_of i) i read_event clear_event w)
  unfolding event_add
  watched-Activates w = elim (Bool-cases (w.evs (read_of i)).active) [
    | inl a ↦ rw (a, a) (refl, refl)
    | inr a ↦ rw a (after_ctl-Activates w _)
  ]

  -- A step that leaves the counter.
  abbrev Keeps : ℕ → Rc (World t.Tree ep.Set) → Type 0
  Keeps total failed = Unit {0}
  Keeps total (done w) = (w.conns i).sent ≡ total

  unwatched-Keeps :
      (w : World t.Tree ep.Set)
      → Keeps (w.conns i).sent (
          if (w.evs (write_of i)).active
          then event_del ep (write_of i) i write_event no_bits w
          else done w)
  unfolding event_del
  unwatched-Keeps w = elim (Bool-cases (w.evs (write_of i)).active) [
    | inr a ↦ rw a refl
    | inl a ↦ rw a (removed _)
  ]
    where
      removed : (o : Option ep.Set) → Keeps (w.conns i).sent (after_ctl ep w (write_of i) false o)
      removed none = tt
      removed (some s) = refl

  drop_timer_sent :
      (e : EvId) (w : World t.Tree ep.Set) → ((drop_timer t ep e w).conns i).sent ≡ (w.conns i).sent
  unfolding drop_timer event_del_timer
  drop_timer_sent e w = elim (Bool-cases (w.evs e).timer_set) [
    | inl set ↦ rw set refl
    | inr unset ↦ rw unset refl
  ]

  -- What the request and the counter stand at: a number of the bytes of b0 have been
  -- counted, and `pos` is behind them.
  record Sends (b0 : HttpBuf) (total : ℕ) (b : HttpBuf) (w : World t.Tree ep.Set) : Type 0 where
    so_far : ℕ
    from_start : b ≡ record b0 { pos = b0.pos + so_far }
    counted_is : (w.conns i).sent ≡ total + so_far

  abbrev Ends : HttpBuf → ℕ → WriteEnd (World t.Tree ep.Set) → Type 0
  Ends b0 total r = (r.handled ≡ true) ⊎ Written b0 total r

  await_response-Ends :
      (b0 : HttpBuf) (total : ℕ) (c : HttpClient) (b : HttpBuf) (kernel : List Room) (k : ℕ)
      (rc : Rc (World t.Tree ep.Set)) (w : World t.Tree ep.Set)
      → c.req ≡ some b
      → b ≡ record b0 { pos = b0.pos + k }
      → b.pos ≡ b.last
      → Activates (total + k) rc
      → Ends b0 total (await_response t ep shut now i c kernel w rc)
  await_response-Ends b0 total c b kernel k failed w req from all a = inl refl
  await_response-Ends b0 total c b kernel k (done w') w req from all (a, s) =
      let whole : b0.pos + k ≡ b0.last =
        ap (λ (x : HttpBuf). x.pos) (sym from) ∙ all ∙ ap (λ (x : HttpBuf). x.last) from in
      inr (record {
        status = refl;
        size = k;
        to_end = whole;
        counted =
            ap (λ (f : ℕ → Conn). (f i).sent) (event_add_timer-conns t (read_of i) 20000 now w')
            ∙ s;
        req = req ∙ ap some (from ∙ ap (λ n. record b0 { pos = n }) whole);
        active = event_add_timer-active t (read_of i) 20000 now w' ∙ a;
        timer = event_add_timer_sets t (read_of i) 20000 now w';
        unhandled = refl;
      })

  on_write_removed-Ends :
      (b0 : HttpBuf) (total : ℕ) (c : HttpClient) (b : HttpBuf) (kernel : List Room) (k : ℕ)
      (rc : Rc (World t.Tree ep.Set)) (w : World t.Tree ep.Set)
      → c.req ≡ some b
      → b ≡ record b0 { pos = b0.pos + k }
      → b.pos ≡ b.last
      → Keeps (total + k) rc
      → Ends b0 total (on_write_removed t ep shut now i c kernel w rc)
  on_write_removed-Ends b0 total c b kernel k failed w req from all s = inl refl
  on_write_removed-Ends b0 total c b kernel k (done w') w req from all s =
      let w2 = to_read t ep shut now i w' in
      let watches =
        subst
          (λ n. Activates n (
            if (w2.evs (read_of i)).active
            then done w2
            else event_add ep (read_of i) i read_event clear_event w2))
          s (watched-Activates w2) in
      await_response-Ends b0 total c b kernel k _ w2 req from all watches

  trans_end-Ends :
      (b0 : HttpBuf) (total : ℕ) (c : HttpClient) (b : HttpBuf) (kernel : List Room)
      (w : World t.Tree ep.Set)
      → c.req ≡ some b
      → Sends b0 total b w
      → Ends b0 total (trans_end t ep shut now i c b kernel w)
  trans_end-Ends b0 total c b kernel w req h = elim (Bool-cases (b.pos == b.last)) [
    | inr more ↦ rw more (inl refl)
    | inl all ↦
        let w1 = drop_timer t ep (write_of i) w in
        let keeps =
          subst
            (λ n. Keeps n (
              if (w1.evs (write_of i)).active
              then event_del ep (write_of i) i write_event no_bits w1
              else done w1))
            (drop_timer_sent (write_of i) w ∙ h.counted_is) (unwatched-Keeps w1) in
        rw all (
          on_write_removed-Ends b0 total c b kernel h.so_far _ w1 req h.from_start
            ((==_iff b.pos b.last).0 all) keeps)
  ]

  -- What one call of `unix_send` does to the counter.
  abbrev CountedAs : ℕ → SendRet → ℕ → Type 0
  CountedAs total (sent n) after = after ≡ total + n
  CountedAs total not_ready after = after ≡ total
  CountedAs total send_failed after = Unit {0}

  unix_send-CountedAs :
      (size : ℕ) (kernel : List Room) (wev : Event) (total : ℕ)
      → let r = unix_send size kernel wev total in CountedAs total r.ret r.total
  unfolding unix_send
  unix_send-CountedAs size [] wev total = refl
  unix_send-CountedAs size (room_for room ∷ k) wev total =
      elim (Bool-cases (smaller size (suc room) == 0)) [
        | inl z ↦ rw z (omega arith)
        | inr some_bytes ↦ rw some_bytes refl
      ]
  unix_send-CountedAs size (send_interrupt ∷ k) wev total =
      unix_send-CountedAs size k (record wev { ready = false }) total
  unix_send-CountedAs size (send_fault ∷ k) wev total = tt

  plus_zero : (n : ℕ) → n + 0 ≡ n
  plus_zero n = omega arith

  none_sent : (b : HttpBuf) (w : World t.Tree ep.Set) → Sends b (w.conns i).sent b w
  none_sent b w = record {
    so_far = 0;
    from_start = ap (λ n. record b { pos = n }) (sym (plus_zero b.pos));
    counted_is = sym (plus_zero (w.conns i).sent);
  }

  on_send_ret-Ends :
      (b0 : HttpBuf) (total : ℕ) (c : HttpClient) (kernel : List Room) (w : World t.Tree ep.Set)
      (ret : SendRet)
      → c.req ≡ some b0
      → CountedAs total ret (w.conns i).sent
      → Ends b0 total (on_send_ret t ep shut now i c b0 kernel w ret)
  on_send_ret-Ends b0 total c kernel w send_failed req s = inl refl
  on_send_ret-Ends b0 total c kernel w not_ready req s =
      let w1 = event_add_timer t (write_of i) 5000 now w in
      trans_end-Ends b0 total c b0 kernel w1 req (
        subst (λ n. Sends b0 n b0 w1)
          (ap (λ (f : ℕ → Conn). (f i).sent) (event_add_timer-conns t (write_of i) 5000 now w) ∙ s)
          (none_sent b0 w1))
  on_send_ret-Ends b0 total c kernel w (sent n) req s =
      trans_end-Ends b0 total _ _ kernel w refl
        (record { so_far = n; from_start = refl; counted_is = s })

  send_request-Ends :
      (c : HttpClient) (kernel : List Room) (w : World t.Tree ep.Set) (b : HttpBuf)
      → Ends b (w.conns i).sent (send_request t ep shut now i c kernel w (some b))
  send_request-Ends c kernel w b =
      let r = unix_send (b.last - b.pos) kernel (w.evs (write_of i)) (w.conns i).sent in
      let w' = put_ev (put_conn w i (record (w.conns i) { sent = r.total })) (write_of i) r.wev in
      let counted : (w'.conns i).sent ≡ r.total = rw ((==_iff i i).1 refl) refl in
      elim (Bool-cases (not (b.last - b.pos == 0) && (w.evs (write_of i)).ready)) [
        | inl tries ↦ rw tries (
            on_send_ret-Ends b (w.conns i).sent _ r.kernel w' r.ret refl (
              subst (CountedAs (w.conns i).sent r.ret) (sym counted) (
                unix_send-CountedAs (b.last - b.pos) kernel (w.evs (write_of i)) (w.conns i).sent)))
        | inr idle ↦ rw idle (trans_end-Ends b (w.conns i).sent _ b kernel w refl (none_sent b w))
      ]

  -- Whatever the socket does, the write handler calls the handler of the client, or it had a
  -- request, the one packed before or one packed now, and of it the bytes from `pos` on, all of
  -- them, have been taken by the socket, as its counter `sent` tells, and nothing else has; the
  -- status says that the response is awaited, and the read event is active and has a timer.
  pub http_write_event_process-Written :
      (struct_ok bytes_ok : Bool) (url : HttpUrl) (c : HttpClient) (kernel : List Room)
      (w : World t.Tree ep.Set)
      → let r = http_write_event_process t ep shut now i struct_ok bytes_ok url c kernel w in
        (r.handled ≡ true)
        ⊎ ((b0 : HttpBuf) × (open_req t ep shut now i struct_ok bytes_ok url c.req ≡ some b0)
            × Written b0 (w.conns i).sent r)
  unfolding http_write_event_process
  http_write_event_process-Written struct_ok bytes_ok url c kernel w =
      elim (Bool-cases (w.evs (write_of i)).timedout) [
        | inl late ↦ rw late (inl refl)
        | inr on_time ↦ rw on_time (sends (open_req t ep shut now i struct_ok bytes_ok url c.req))
      ]
    where
      sends :
          (o : Option HttpBuf)
          → let r = send_request t ep shut now i c kernel w o in
            (r.handled ≡ true) ⊎ ((b0 : HttpBuf) × (o ≡ some b0) × Written b0 (w.conns i).sent r)
      sends none = inl refl
      sends (some b) = elim (send_request-Ends c kernel w b) [
        | inl fails ↦ inl fails
        | inr writes ↦ inr (b, refl, writes)
      ]
