-- ===== src/Dns/Datagrams/Drained.antt =====
-- `dns_process_event` of async_dns.c: that it ends, and leaves nothing behind.
use crawler.Base.{
  ℕ, zero, suc, ◌<◌, ◌≡◌, refl, inl, inr, ◌⊎◌, Bool, true, false, Option, none, some, List, [], ◌∷◌,
  ltb, length, Bool-cases, arith,
}
use crawler.Net.{read_of, Event, World}
use crawler.Tree.{TimerTree}
use crawler.Socket.Send.{
  Datagram, datagram, udp_interrupt, udp_fault, UdpRet, packet, udp_again, udp_failed,
  unix_udp_recv,
}
use crawler.Dns.{dns_udp_size}
use crawler.Dns.Resolver.{HttpUrl, Resolver}
use crawler.Dns.Datagrams.{
  Heard, heard, heard_undefined, put_rev, then_read, on_received, dns_process_event,
}

abbrev pub faultless : List Datagram → Bool
faultless [] = true
faultless (udp_fault ∷ q) = false
faultless (_ ∷ q) = faultless q

-- What one call of `unix_udp_recv` leaves.
abbrev Leaves : List Datagram → UdpRet → List Datagram → Type 0
Leaves q (packet pkt) q' = (length q' < length q) × (faultless q ≡ faultless q')
Leaves q udp_again q' = q' ≡ []
Leaves q udp_failed q' = faultless q ≡ false

Leaves-interrupt :
    (q : List Datagram) (ret : UdpRet) (q' : List Datagram)
    → Leaves q ret q'
    → Leaves (udp_interrupt ∷ q) ret q'
Leaves-interrupt q (packet pkt) q' (shorter, same) = (omega arith, same)
Leaves-interrupt q udp_again q' h = h
Leaves-interrupt q udp_failed q' h = h

unix_udp_recv-Leaves :
    (size : ℕ) (q : List Datagram) (rev : Event)
    → let r = unix_udp_recv size q rev in Leaves q r.ret r.queue
unfolding unix_udp_recv
unix_udp_recv-Leaves size [] rev = refl
unix_udp_recv-Leaves size (datagram bytes ∷ q) rev = (omega arith, refl)
unix_udp_recv-Leaves size (udp_fault ∷ q) rev = refl
unix_udp_recv-Leaves size (udp_interrupt ∷ q) rev =
    let r = unix_udp_recv size q rev in
    Leaves-interrupt q r.ret r.queue (unix_udp_recv-Leaves size q rev)

module _ (t : TimerTree) {Set : Type 0} (dns_conn : ℕ)
    (handler : HttpUrl → ℕ → World t.Tree Set → World t.Tree Set) (clock : ℕ → ℕ)
    (calloc_ok : ℕ → Bool) where
  -- The handler has returned, and what it leaves on the socket stands behind a fault; or it came to
  -- what C leaves open.
  abbrev pub Drained : Bool → Heard (Resolver t.Tree Set) → Type 0
  Drained clean r =
      ((s : Resolver t.Tree Set) × (rest : List Datagram) × (r ≡ heard s rest)
        × (clean ≡ true → rest ≡ []))
      ⊎ (r ≡ heard_undefined)

  then_read-Drained :
      (q : List Datagram) (loop : Resolver t.Tree Set → Heard (Resolver t.Tree Set))
      (o : Option (Resolver t.Tree Set))
      → ((s : Resolver t.Tree Set) → Drained (faultless q) (loop s))
      → Drained (faultless q) (then_read t dns_conn handler clock calloc_ok loop o)
  then_read-Drained q loop none h = inr refl
  then_read-Drained q loop (some s) h = h s

  on_received-Drained :
      (n : ℕ) (q q' : List Datagram) (s : Resolver t.Tree Set)
      (loop : List Datagram → Resolver t.Tree Set → Heard (Resolver t.Tree Set)) (ret : UdpRet)
      → Leaves q ret q'
      → (length q' < length q → (s' : Resolver t.Tree Set) → Drained (faultless q') (loop q' s'))
      → Drained (faultless q) (on_received t dns_conn handler clock calloc_ok n s loop ret q')
  on_received-Drained n q q' s loop udp_again l h = inl (s, q', refl, λ clean. l)
  on_received-Drained n q q' s loop udp_failed l h = inl (s, q', refl, λ clean. cc)
  on_received-Drained n q q' s loop (packet pkt) (shorter, same) h =
      elim (Bool-cases (ltb (length pkt) 14)) [
        | inl short ↦ rw (short, same) (h shorter s)
        | inr long ↦ rw (long, same) (then_read-Drained q' _ _ (h shorter))
      ]

  -- For every queue and every content of the datagrams, one round more than there are entries on the
  -- socket is enough: the handler returns, and if no call of `recv` failed the socket is empty, as an
  -- edge-triggered event needs; or a response made it do what C leaves open.
  pub dns_process_event-Drained :
      (fuel n : ℕ) (q : List Datagram) (s : Resolver t.Tree Set)
      → length q < fuel
      → Drained (faultless q) (dns_process_event t dns_conn handler clock calloc_ok fuel n q s)
  unfolding dns_process_event
  dns_process_event-Drained zero n q s h = absurd (omega arith)
  dns_process_event-Drained (suc fuel) n q s h =
      let rev = s.world.evs (read_of dns_conn) in
      let r = unix_udp_recv dns_udp_size q rev in
      on_received-Drained n q r.queue (put_rev t dns_conn handler clock calloc_ok r.rev s)
        (dns_process_event t dns_conn handler clock calloc_ok fuel (suc n)) r.ret
        (unix_udp_recv-Leaves dns_udp_size q rev)
        (λ shorter s'. dns_process_event-Drained fuel (suc n) r.queue s' (omega arith))
