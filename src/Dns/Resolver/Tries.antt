-- ===== src/Dns/Resolver/Tries.antt =====
-- async_dns.c: a query that is not answered.
use mathlib.Core.Path.{subst}
use crawler.Base.{
  ℕ, suc, ◌+◌, ◌≡◌, refl, sym, ap, ◌∙◌, inl, inr, true, false, Option, none, some, List, [], ◌∷◌,
  ◌==◌, ==_iff, ltb, if◌then◌else◌, Bool-cases, some-eq, arith,
}
use crawler.Net.{query_of, Event, World}
use crawler.Tree.{TimerTree}
use crawler.Timer.{expired, event_del_timer, event_add_timer, set_timer}
use crawler.Timer.Sync.{same_ev_refl}
use crawler.Socket.Send.{Room, room_for, smaller, unix_send, SendRet, sent, not_ready, send_failed}
use crawler.Base.Word.{u32}
use crawler.Dns.Resolver.{
  Query, Resolver, remove_query, count_try, send_on, arm, try_again, dns_timeout_handler,
}

unfoldable pub find_number : ℕ → List Query → Option Query
find_number n [] = none
find_number n (q ∷ qs) = if q.number == n then some q else find_number n qs

pub find_number-remove_query : (n : ℕ) (qs : List Query) → find_number n (remove_query n qs) ≡ none
unfolding find_number remove_query
find_number-remove_query n [] = refl
find_number-remove_query n (q ∷ qs) = elim (Bool-cases (q.number == n)) [
  | inl same ↦ rw same (find_number-remove_query n qs)
  | inr other ↦ rw (other, other) (find_number-remove_query n qs)
]

pub find_number-other :
    (m n : ℕ) (qs : List Query)
    → (m == n) ≡ false
    → find_number m (remove_query n qs) ≡ find_number m qs
unfolding find_number remove_query
find_number-other m n [] differs = refl
find_number-other m n (q ∷ qs) differs = elim (Bool-cases (q.number == n)) [
  | inl gone ↦
      let unlike : (q.number == m) ≡ false = ground arith in
      rw (gone, unlike) (find_number-other m n qs differs)
  | inr stays ↦
      rw stays (ap (λ o. if q.number == m then some q else o) (find_number-other m n qs differs))
]

pub find_number-count_try :
    (n : ℕ) (qs : List Query) (q : Query)
    → find_number n qs ≡ some q
    → find_number n (count_try n qs) ≡ some (record q { trytimes = suc q.trytimes })
unfolding find_number count_try
find_number-count_try n [] q h = absurd (cc h)
find_number-count_try n (p ∷ qs) q h = elim (Bool-cases (p.number == n)) [
  | inl same ↦
      let first : some p ≡ some q =
        subst (λ b. (if b then some p else find_number n qs) ≡ some q) same h in
      rw (same, same)
        (ap (λ (x : Query). some (record x { trytimes = suc x.trytimes })) (some-eq first))
  | inr other ↦
      let rest : find_number n qs ≡ some q =
        subst (λ b. (if b then some p else find_number n qs) ≡ some q) other h in
      rw (other, other) (find_number-count_try n qs q rest)
]

pub find_number-number :
    (n : ℕ) (qs : List Query) (q : Query) → find_number n qs ≡ some q → q.number ≡ n
unfolding find_number
find_number-number n [] q h = absurd (cc h)
find_number-number n (p ∷ qs) q h = elim (Bool-cases (p.number == n)) [
  | inl same ↦
      let first : some p ≡ some q =
        subst (λ b. (if b then some p else find_number n qs) ≡ some q) same h in
      sym (ap (λ (x : Query). x.number) (some-eq first)) ∙ (==_iff p.number n).0 same
  | inr other ↦
      find_number-number n qs q
        (subst (λ b. (if b then some p else find_number n qs) ≡ some q) other h)
]

module _ (t : TimerTree) {Set : Type 0} (dns_conn : ℕ) where
  abbrev on_expiry : ℕ → Resolver t.Tree Set → Option Query → Resolver t.Tree Set
  on_expiry now s none = s
  on_expiry now s (some q) = dns_timeout_handler t dns_conn now q s

  -- The timer of the n-th query expires, if it is set: `event_expire_timers` takes it out and runs
  -- the handler.
  unfoldable pub time_out : ℕ → ℕ → Resolver t.Tree Set → Resolver t.Tree Set
  time_out now n s =
      let s' = record s { world = expired t (query_of n) s.world } in
      if (s.world.evs (query_of n)).timer_set
      then on_expiry now s' (find_number n s'.query_queue)
      else s

  -- The query is in the queue, as q, and its timer is set, with this key.
  pub record Waits (n key : ℕ) (q : Query) (s : Resolver t.Tree Set) : Type 0 where
    pub found : find_number n s.query_queue ≡ some q
    pub set : (s.world.evs (query_of n)).timer_set ≡ true
    pub due : (s.world.evs (query_of n)).key ≡ key

  -- What a call of `unix_send` that finds room leaves.
  pub record SentOne (ks : List Room) (s : Resolver t.Tree Set) (p : SendRet × Resolver t.Tree Set)
      : Type 0 where
    pub count : ℕ
    pub ret : p.0 ≡ sent count
    pub kernel : p.1.kernel ≡ ks
    pub queue : p.1.query_queue ≡ s.query_queue
    pub others : (n : ℕ) → p.1.world.evs (query_of n) ≡ s.world.evs (query_of n)

  pub send_on-SentOne :
      (len a : ℕ) (ks : List Room) (s : Resolver t.Tree Set)
      → s.kernel ≡ room_for a ∷ ks
      → SentOne ks s (send_on t dns_conn len s)
  unfolding send_on unix_send
  send_on-SentOne len a ks s h = elim (Bool-cases (smaller len (suc a) == 0)) [
    | inl nothing ↦
        rw (h, nothing)
          (record { count = 0; ret = refl; kernel = refl; queue = refl; others = λ n. refl })
    | inr some_bytes ↦
        rw (h, some_bytes)
          (record {
            count = smaller len (suc a);
            ret = refl;
            kernel = refl;
            queue = refl;
            others = λ n. refl;
          })
  ]

  expired_evs :
      (n : ℕ) (w : World t.Tree Set)
      → let v = (expired t (query_of n) w).evs (query_of n) in
        (v.timedout ≡ true) × (v.timer_set ≡ false)
  unfolding expired event_del_timer
  expired_evs n w = rw (same_ev_refl (query_of n)) (refl, refl)

  -- After `arm`, for a timer that was not set.
  arm-Waits :
      (now n : ℕ) (ks : List Room) (q : Query) (s : Resolver t.Tree Set)
      (p : SendRet × Resolver t.Tree Set)
      → SentOne ks s p
      → find_number n s.query_queue ≡ some q
      → (s.world.evs (query_of n)).timer_set ≡ false
      → Waits n (u32 (now + 5000)) q (arm t dns_conn now n p)
        × ((arm t dns_conn now n p).kernel ≡ ks)
  unfolding event_add_timer set_timer
  arm-Waits now n ks q s (not_ready, s') one found unset = absurd (cc (one.ret))
  arm-Waits now n ks q s (send_failed, s') one found unset = absurd (cc (one.ret))
  arm-Waits now n ks q s (sent k, s') one found unset =
      let off : (s'.world.evs (query_of n)).timer_set ≡ false =
        ap (λ (v : Event). v.timer_set) (one.others n) ∙ unset in
      (
        record {
          found = ap (find_number n) one.queue ∙ found;
          set = rw (off, same_ev_refl (query_of n)) refl;
          due = rw (off, same_ev_refl (query_of n)) refl;
        },
        one.kernel,
      )

  time_out-arm :
      (now n key : ℕ) (q : Query) (s : Resolver t.Tree Set)
      → Waits n key q s
      → ltb 1 q.trytimes ≡ false
      → time_out now n s
        ≡ arm t dns_conn now n (
            send_on t dns_conn q.len (record s {
              world = expired t (query_of n) s.world;
              query_queue = count_try n s.query_queue;
            }))
  unfolding time_out dns_timeout_handler try_again
  time_out-arm now n key q s waits more =
      let (late, unset) = expired_evs n s.world in
      rw (waits.set, waits.found, find_number-number n s.query_queue q waits.found, late, more) refl

  -- An expiry of a query that has tries left, where the packet can be sent.
  time_out-Waits :
      (now n key a : ℕ) (ks : List Room) (q : Query) (s : Resolver t.Tree Set)
      → Waits n key q s
      → ltb 1 q.trytimes ≡ false
      → s.kernel ≡ room_for a ∷ ks
      → Waits n (u32 (now + 5000)) (record q { trytimes = suc q.trytimes }) (time_out now n s)
        × ((time_out now n s).kernel ≡ ks)
  time_out-Waits now n key a ks q s waits more room =
      let s1 : Resolver t.Tree Set = record s {
        world = expired t (query_of n) s.world;
        query_queue = count_try n s.query_queue;
      } in
      subst
        (λ x.
          Waits n (u32 (now + 5000)) (record q { trytimes = suc q.trytimes }) x × (x.kernel ≡ ks))
        (sym (time_out-arm now n key q s waits more))
        (arm-Waits now n ks _ s1 (send_on t dns_conn q.len s1) (send_on-SentOne q.len a ks s1 room)
          (find_number-count_try n s.query_queue q waits.found) (expired_evs n s.world).1)

  -- The expiry of a query that was tried twice more.
  time_out-gone :
      (now n key : ℕ) (q : Query) (s : Resolver t.Tree Set)
      → Waits n key q s
      → ltb 1 q.trytimes ≡ true
      → (find_number n (time_out now n s).query_queue ≡ none)
        × (((time_out now n s).world.evs (query_of n)).timer_set ≡ false)
  unfolding time_out dns_timeout_handler try_again
  time_out-gone now n key q s waits last =
      let (late, unset) = expired_evs n s.world in
      rw (waits.set, waits.found, find_number-number n s.query_queue q waits.found, late, last)
        (find_number-remove_query n s.query_queue, unset)

  -- A new query waits under its timer, and the socket has room for two packets. At the first and at
  -- the second expiry of its timer it is sent again, counted, and stays in the queue under a timer
  -- of 5 seconds; at the third it leaves the queue and has no timer.
  pub time_outs_leave :
      (now1 now2 now3 n key a b : ℕ) (ks : List Room) (q : Query) (s : Resolver t.Tree Set)
      → Waits n key (record q { trytimes = 0 }) s
      → s.kernel ≡ room_for a ∷ room_for b ∷ ks
      → let s1 = time_out now1 n s in
        let s2 = time_out now2 n s1 in
        let s3 = time_out now3 n s2 in
        (Waits n (u32 (now1 + 5000)) (record q { trytimes = 1 }) s1 × (s1.kernel ≡ room_for b ∷ ks))
        × (Waits n (u32 (now2 + 5000)) (record q { trytimes = 2 }) s2 × (s2.kernel ≡ ks))
        × (find_number n s3.query_queue ≡ none)
        × ((s3.world.evs (query_of n)).timer_set ≡ false)
  time_outs_leave now1 now2 now3 n key a b ks q s first room =
      let (once, k1) = time_out-Waits now1 n key a (room_for b ∷ ks) _ s first refl room in
      let (twice, k2) = time_out-Waits now2 n (u32 (now1 + 5000)) b ks _ _ once refl k1 in
      let (gone, off) = time_out-gone now3 n (u32 (now2 + 5000)) _ _ twice refl in
      ((once, k1), (twice, k2), gone, off)
