-- ===== src/Socket/Receive.antt =====
-- The receive loop of `http_read_event_process` against the bytes that are on the socket.
use mathlib.Core.Path.{subst}
use crawler.Base.{
  ℕ, zero, suc, ◌+◌, ◌-◌, ◌<◌, ◌≤◌, ◌≡◌, refl, sym, ap, ◌∙◌, inl, inr, Bool, true, false, Option,
  none, some, List, [], ◌∷◌, ◌++◌, append_assoc, append-nil, arith, length, take, drop, ◌==◌,
  length-append, length-take, Bool-cases, take-append_length,
}
use crawler.Net.{Event}
use crawler.Buffer.{HttpBuf, IsRealloc, grown, resize_temp_buf}
use crawler.Buffer.Grow.{IsSound, resize_temp_buf-IsSound}
use crawler.Gzip.{write_at, store}
use crawler.Gzip.Bounds.{length-write_at, stores-room}
use crawler.Socket.{
  Waiting, bytes_in, interrupt, fault, end_of_stream, Ret, count, again, fail, left_over, unix_recv,
  Receipt, received, then_again, on_ret, room_in, then_recv, receive_loop,
}

-- The bytes before the socket is empty, at its end or broken.
abbrev pub pending : List Waiting → List ℕ
pending [] = []
pending (bytes_in c cs ∷ s) = c ∷ (cs ++ pending s)
pending (interrupt ∷ s) = pending s
pending (_ ∷ s) = []

-- No error comes before the socket is empty or at its end.
abbrev pub clean : List Waiting → Bool
clean [] = true
clean (bytes_in c cs ∷ s) = clean s
clean (interrupt ∷ s) = clean s
clean (fault ∷ s) = false
clean (end_of_stream ∷ s) = true

-- What one call gives on such a socket, for a size that is not 0.
abbrev Reads : ℕ → List Waiting → Ret → List Waiting → Type 0
Reads size s (count []) s' = pending s ≡ []
Reads size s (count (c ∷ cs)) s' =
    (length (c ∷ cs) ≤ size) × (pending s ≡ (c ∷ cs) ++ pending s') × (clean s' ≡ true)
Reads size s again s' = pending s ≡ []
Reads size s fail s' = ⊥

take-fits : (n : ℕ) (xs : List ℕ) → length (take n xs) ≤ n
take-fits zero xs = omega arith
take-fits (suc n) [] = omega arith
take-fits (suc n) (x ∷ xs) = omega (arith, take-fits n xs)

pending-left_over :
    (n : ℕ) (xs : List ℕ) (s : List Waiting)
    → xs ++ pending s ≡ take n xs ++ pending (left_over (drop n xs) s)
pending-left_over zero [] s = refl
pending-left_over zero (x ∷ xs) s = refl
pending-left_over (suc n) [] s = refl
pending-left_over (suc n) (x ∷ xs) s = ap (λ l. x ∷ l) (pending-left_over n xs s)

clean-left_over : (xs : List ℕ) (s : List Waiting) → clean (left_over xs s) ≡ clean s
clean-left_over [] s = refl
clean-left_over (x ∷ xs) s = refl

unix_recv-Reads :
    (n : ℕ) (s : List Waiting) (rev : Event)
    → clean s ≡ true
    → let r = unix_recv (suc n) s rev in Reads (suc n) s r.ret r.socket
unfolding unix_recv
unix_recv-Reads n [] rev h = refl
unix_recv-Reads n (bytes_in c cs ∷ s) rev h = (
  omega (arith, take-fits n cs),
  ap (λ l. c ∷ l) (pending-left_over n cs s),
  clean-left_over (drop n cs) s ∙ h,
)
unix_recv-Reads n (interrupt ∷ s) rev h = unix_recv-Reads n s rev h
unix_recv-Reads n (fault ∷ s) rev h = ground arith
unix_recv-Reads n (end_of_stream ∷ s) rev h = refl

-- Memory is always given.
abbrev pub Gives : (List ℕ → ℕ → Option (List ℕ)) → Type 0
Gives realloc = (mem : List ℕ) (n : ℕ) → (mem' : List ℕ) × (realloc mem n ≡ some mem')

module _ (realloc : List ℕ → ℕ → Option (List ℕ)) (law : IsRealloc realloc)
    (gives : Gives realloc) where
  -- The loop has broken with what was there and then the bytes, inside the memory.
  pub record TookIn (b : HttpBuf) (bytes : List ℕ) (r : Receipt) : Type 0 where
    pub buf : HttpBuf
    pub rev : Event
    pub socket : List Waiting
    pub reset_time : Bool
    pub returns : r ≡ received buf rev socket reset_time
    pub holds : take buf.last buf.mem ≡ take b.last b.mem ++ bytes
    pub within : IsSound buf
    pub same_pos : buf.pos ≡ b.pos

  -- A buffer with room that holds the same.
  record Roomy (b : HttpBuf) (o : Option HttpBuf) : Type 0 where
    now : HttpBuf
    there : o ≡ some now
    room : now.last < length now.mem
    kept : take now.last now.mem ≡ take b.last b.mem
    kept_pos : now.pos ≡ b.pos

  resized :
      (b : HttpBuf) (mem' : List ℕ)
      → realloc b.mem (grown (length b.mem)) ≡ some mem'
      → resize_temp_buf realloc b ≡ some (record b { mem = mem' })
  unfolding resize_temp_buf
  resized b mem' e =
      ap
        (λ (o : Option (List ℕ)). elim o as (λ x. Option HttpBuf) [
          | none ↦ none
          | some mem ↦ some (record b { mem = mem })
        ])
        e

  room_in-Roomy : (b : HttpBuf) → IsSound b → 0 < length b.mem → Roomy b (room_in realloc b)
  room_in-Roomy b sound pos = elim (Bool-cases (b.last == length b.mem)) [
    | inr free ↦
        rw free
          (record { now = b; there = refl; room = ground arith; kept = refl; kept_pos = refl })
    | inl full ↦
        let (mem', e) = gives b.mem (grown (length b.mem)) in
        let b' = record b { mem = mem' } in
        let r = resize_temp_buf-IsSound realloc law b b' sound pos (resized b mem' e) in
        rw (full, resized b mem' e)
          (record { now = b'; there = refl; room = r.0; kept = r.1; kept_pos = refl })
  ]

  take-store :
      (b : HttpBuf) (bytes : List ℕ)
      → b.last ≤ length b.mem
      → take (b.last + length bytes) (write_at b.mem b.last bytes) ≡ take b.last b.mem ++ bytes
  take-store b bytes h =
      let front = take b.last b.mem ++ bytes in
      let behind = drop (b.last + length bytes) b.mem in
      let n : b.last + length bytes ≡ length front =
        omega (arith, length-append (take b.last b.mem) bytes, length-take b.last b.mem h) in
      ap (λ k. take k (write_at b.mem b.last bytes)) n
      ∙ ap (take (length front)) (sym (append_assoc (take b.last b.mem) bytes behind))
      ∙ take-append_length front behind

  on_ret-TookIn :
      (b : HttpBuf) (s s' : List Waiting) (rev : Event) (reset_time : Bool) (ret : Ret)
      (loop : HttpBuf → Event → List Waiting → Receipt)
      → b.last < length b.mem
      → Reads (length b.mem - b.last) s ret s'
      → ((b' : HttpBuf) (rev' : Event)
          → IsSound b'
          → 0 < length b'.mem
          → clean s' ≡ true
          → length (pending s') < length (pending s)
          → TookIn b' (pending s') (loop b' rev' s'))
      → TookIn b (pending s) (on_ret b reset_time loop ret s' rev)
  on_ret-TookIn b s s' rev reset_time (count []) loop room reads rest = record {
    buf = b;
    rev = rev;
    socket = s';
    reset_time = reset_time;
    returns = refl;
    holds = rw (reads, append-nil) refl;
    within = omega arith;
    same_pos = refl;
  }
  on_ret-TookIn b s s' rev reset_time again loop room reads rest = record {
    buf = b;
    rev = rev;
    socket = s';
    reset_time = reset_time;
    returns = refl;
    holds = rw (reads, append-nil) refl;
    within = omega arith;
    same_pos = refl;
  }
  on_ret-TookIn b s s' rev reset_time fail loop room reads rest = absurd reads
  on_ret-TookIn b s s' rev reset_time (count (c ∷ cs)) loop room (fits, split, more) rest =
      let bytes : List ℕ = c ∷ cs in
      let len = length-write_at b.mem b.last bytes (omega arith) in
      let short : length (pending s') < length (pending s) =
        omega (arith, ap length split, length-append bytes (pending s')) in
      let t = rest (store b bytes) rev (omega (arith, len)) (omega (arith, len)) more short in
      record {
        buf = t.buf;
        rev = t.rev;
        socket = t.socket;
        reset_time = t.reset_time;
        returns =
            ap (then_again (λ b'. loop b' rev s')) (stores-room b bytes (omega arith)) ∙ t.returns;
        holds =
            t.holds
            ∙ ap (λ l. l ++ pending s') (take-store b bytes (omega arith))
            ∙ append_assoc (take b.last b.mem) bytes (pending s')
            ∙ ap (λ l. take b.last b.mem ++ l) (sym split);
        within = t.within;
        same_pos = t.same_pos;
      }

  -- `last` of a buffer that is not empty is inside its memory, memory is given, and no error comes
  -- before the socket is empty or at its end. Then the receive loop ends with all the bytes that
  -- had come, behind those that were there and in order; it never writes past the end of the
  -- memory, and takes a round for each byte at most, and one.
  pub receive_loop-TookIn :
      (fuel : ℕ) (b : HttpBuf) (rev : Event) (s : List Waiting) (reset_time : Bool)
      → IsSound b
      → 0 < length b.mem
      → clean s ≡ true
      → length (pending s) < fuel
      → TookIn b (pending s) (receive_loop realloc fuel b rev s reset_time)
  unfolding receive_loop
  receive_loop-TookIn zero b rev s reset_time sound pos h enough = absurd (omega arith)
  receive_loop-TookIn (suc fuel) b rev s reset_time sound pos h enough =
      let q = room_in-Roomy b sound pos in
      let n = length q.now.mem - q.now.last in
      let e : suc (n - 1) ≡ n = let r = q.room in omega arith in
      let r = unix_recv n s rev in
      let reads : Reads n s r.ret r.socket =
        subst (λ k. let r' = unix_recv k s rev in Reads k s r'.ret r'.socket) e
          (unix_recv-Reads (n - 1) s rev h) in
      let t =
        on_ret-TookIn q.now s r.socket r.rev reset_time r.ret
          (λ b' rev' s'. receive_loop realloc fuel b' rev' s' true) q.room reads
          (λ b' rev' sound' pos' h' less.
            receive_loop-TookIn fuel b' rev' r.socket true sound' pos' h' (omega arith)) in
      record {
        buf = t.buf;
        rev = t.rev;
        socket = t.socket;
        reset_time = t.reset_time;
        returns =
            ap
              (then_recv realloc b rev s reset_time
                (λ b' rev' s'. receive_loop realloc fuel b' rev' s' true))
              q.there
            ∙ t.returns;
        holds = t.holds ∙ ap (λ l. l ++ pending s) q.kept;
        within = t.within;
        same_pos = t.same_pos ∙ q.kept_pos;
      }
