-- ===== src/Tls/Late.antt =====
-- connection.c: `ssl_recv` where the end of the stream comes behind bytes.
use mathlib.Core.Path.{subst}
use crawler.Base.{
  ℕ, ◌-◌, ◌<◌, ◌≡◌, refl, ap, ◌∙◌, sym, true, List, [], ◌∷◌, ◌++◌, append_assoc, append-nil, ltb,
  length, length-append, arith,
}
use crawler.Epoll.{Epoll}
use crawler.Socket.{Ret, count, fail}
use crawler.Tls.{
  Last, last_ok, last_closed, last_failed, last_again, SslRead, plain, closed, ssl_fault, Tls,
  restore_write, ssl_handle_recv, set_last, stop_read, SslReceived, by_last, ssl_loop, ssl_recv,
}

pub data Finish : Type 0 where
  by_close by_fault : Finish

abbrev pub read_of_end : Finish → SslRead
read_of_end by_close = closed
read_of_end by_fault = ssl_fault

abbrev pub last_of_end : Finish → Last
last_of_end by_close = last_closed
last_of_end by_fault = last_failed

abbrev pub ret_of_end : Finish → Ret
ret_of_end by_close = count []
ret_of_end by_fault = fail

-- Pieces that are not empty.
abbrev pub bytes_of : List (ℕ × List ℕ) → List ℕ
bytes_of [] = []
bytes_of ((c, cs) ∷ ps) = (c ∷ cs) ++ bytes_of ps

abbrev pub plains : List (ℕ × List ℕ) → List SslRead → List SslRead
plains [] p = p
plains ((c, cs) ∷ ps) p = plain c cs ∷ plains ps p

-- Nothing is kept from an earlier call.
abbrev pub Fresh : Last → Type 0
Fresh last_ok = Unit
Fresh last_again = Unit
Fresh _ = ⊥

module _ (ep : Epoll) {Tree : Type 0} (i : ℕ) where
  ssl_loop-plains :
      (ps : List (ℕ × List ℕ)) (size : ℕ) (bytes : List ℕ) (f : Finish) (rest : List SslRead)
      (s : Tls Tree ep.Set)
      → length (bytes_of ps) < size
      → (s' : Tls Tree ep.Set) × (ssl_loop ep i size bytes (plains ps (read_of_end f ∷ rest)) s
          ≡ stop_read ep i (bytes ++ bytes_of ps) rest (last_of_end f, s'))
  unfolding ssl_loop ssl_handle_recv
  ssl_loop-plains [] size bytes by_close rest s h = (s, rw (append-nil bytes) refl)
  ssl_loop-plains [] size bytes by_fault rest s h = (s, rw (append-nil bytes) refl)
  ssl_loop-plains ((c, cs) ∷ ps) size bytes f rest s h =
      let whole = length-append (c ∷ cs) (bytes_of ps) in
      let fits : ltb (length (c ∷ cs)) size ≡ true = ground (arith, whole) in
      let (s', e) =
        ssl_loop-plains ps (size - length (c ∷ cs)) (bytes ++ (c ∷ cs)) f rest
          (set_last ep i last_ok (restore_write i s.ssl.saved_write_handler s))
          (omega (arith, whole)) in
      (
        s',
        rw fits (
            e
            ∙ ap (λ l. stop_read ep i l rest (last_of_end f, s'))
                (append_assoc bytes (c ∷ cs) (bytes_of ps))),
      )

  -- The state after calls of a size each, in each of which `SSL_read` would find a list.
  abbrev pub after_calls : List (ℕ × List SslRead) → Tls Tree ep.Set → Tls Tree ep.Set
  after_calls [] s = s
  after_calls ((size, q) ∷ calls) s = after_calls calls (ssl_recv ep i size q s).tls

  -- The bytes are returned; every later call, however many there were before it, whatever its size
  -- and whatever `SSL_read` would find, reads nothing and reports the end or the fault.
  pub record ToldLater (bytes : List ℕ) (f : Finish) (rest : List SslRead)
      (r : SslReceived (Tls Tree ep.Set)) : Type 0 where
    pub ret : r.ret ≡ count bytes
    pub stream : r.stream ≡ rest
    pub later_ret :
        (calls : List (ℕ × List SslRead)) (size : ℕ) (q : List SslRead)
        → (ssl_recv ep i size q (after_calls calls r.tls)).ret ≡ ret_of_end f
    pub later_stream :
        (calls : List (ℕ × List SslRead)) (size : ℕ) (q : List SslRead)
        → (ssl_recv ep i size q (after_calls calls r.tls)).stream ≡ q

  -- A call that finds the end or the fault of an earlier one.
  record Told (f : Finish) (q : List SslRead) (r : SslReceived (Tls Tree ep.Set)) : Type 0 where
    told_ret : r.ret ≡ ret_of_end f
    told_stream : r.stream ≡ q
    still : r.tls.ssl.last ≡ last_of_end f

  by_last-Told :
      (f : Finish) (size : ℕ) (q : List SslRead) (s : Tls Tree ep.Set)
      → s.ssl.last ≡ last_of_end f
      → Told f q (by_last ep i size q s (last_of_end f))
  by_last-Told by_close size q s h = record { told_ret = refl; told_stream = refl; still = h }
  by_last-Told by_fault size q s h = record { told_ret = refl; told_stream = refl; still = h }

  ssl_recv-Told :
      (f : Finish) (size : ℕ) (q : List SslRead) (s : Tls Tree ep.Set)
      → s.ssl.last ≡ last_of_end f
      → Told f q (ssl_recv ep i size q s)
  unfolding ssl_recv
  ssl_recv-Told f size q s h =
      subst (λ l. Told f q (by_last ep i size q s l)) (sym h) (by_last-Told f size q s h)

  after_calls-last :
      (f : Finish) (calls : List (ℕ × List SslRead)) (s : Tls Tree ep.Set)
      → s.ssl.last ≡ last_of_end f
      → (after_calls calls s).ssl.last ≡ last_of_end f
  after_calls-last f [] s h = h
  after_calls-last f ((size, q) ∷ calls) s h =
      after_calls-last f calls (ssl_recv ep i size q s).tls (ssl_recv-Told f size q s h).still

  stop_read_last :
      (c : ℕ) (cs : List ℕ) (f : Finish) (rest : List SslRead) (s : Tls Tree ep.Set)
      → (stop_read ep i (c ∷ cs) rest (last_of_end f, s)).tls.ssl.last ≡ last_of_end f
  stop_read_last c cs by_close rest s = refl
  stop_read_last c cs by_fault rest s = refl

  stop_read-ToldLater :
      (c : ℕ) (cs : List ℕ) (f : Finish) (rest : List SslRead) (s : Tls Tree ep.Set)
      → ToldLater (c ∷ cs) f rest (stop_read ep i (c ∷ cs) rest (last_of_end f, s))
  stop_read-ToldLater c cs f rest s =
      let r = stop_read ep i (c ∷ cs) rest (last_of_end f, s) in
      let kept = λ (calls : List (ℕ × List SslRead)).
        after_calls-last f calls r.tls (stop_read_last c cs f rest s) in
      record {
        ret = refl;
        stream = refl;
        later_ret = λ calls size q.
            (ssl_recv-Told f size q (after_calls calls r.tls) (kept calls)).told_ret;
        later_stream = λ calls size q.
            (ssl_recv-Told f size q (after_calls calls r.tls) (kept calls)).told_stream;
      }

  by_last-Fresh :
      (l : Last) (size : ℕ) (p : List SslRead) (s : Tls Tree ep.Set)
      → Fresh l
      → by_last ep i size p s l ≡ ssl_loop ep i size [] p s
  by_last-Fresh last_ok size p s h = refl
  by_last-Fresh last_again size p s h = refl
  by_last-Fresh last_closed size p s h = absurd h
  by_last-Fresh last_failed size p s h = absurd h

  -- Bytes are followed by the end of the stream or by a fault, and leave room in the buffer; an
  -- earlier call has kept neither. The call returns the bytes and consumes the end or the fault,
  -- and every later call, however many there were before it, whatever its size and whatever
  -- `SSL_read` would find, reads nothing and reports that end or that fault.
  pub ssl_recv-ToldLater :
      (c : ℕ) (cs : List ℕ) (ps : List (ℕ × List ℕ)) (size : ℕ) (f : Finish) (rest : List SslRead)
      (s : Tls Tree ep.Set)
      → Fresh s.ssl.last
      → length (bytes_of ((c, cs) ∷ ps)) < size
      → ToldLater
          (bytes_of ((c, cs) ∷ ps))
          f
          rest
          (ssl_recv ep i size (plains ((c, cs) ∷ ps) (read_of_end f ∷ rest)) s)
  unfolding ssl_recv
  ssl_recv-ToldLater c cs ps size f rest s fresh h =
      let p = plains ((c, cs) ∷ ps) (read_of_end f ∷ rest) in
      let (s', e) = ssl_loop-plains ((c, cs) ∷ ps) size [] f rest s h in
      subst (λ r. ToldLater (bytes_of ((c, cs) ∷ ps)) f rest r)
        (sym (by_last-Fresh s.ssl.last size p s fresh ∙ e))
        (stop_read-ToldLater c (cs ++ bytes_of ps) f rest s')
