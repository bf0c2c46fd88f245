-- ===== src/Socket.antt =====
-- connection.c: `unix_recv`, and the loop of `http_read_event_process` in http_client.c that fills
-- the receive buffer with it. The socket is what the calls of `recv` are to find, first one first.
pub mod Receive
pub mod Send
use crawler.Base.{
  ℕ, zero, suc, ◌+◌, ◌-◌, Bool, true, false, Option, none, some, List, [], ◌∷◌, ◌==◌, ltb,
  if◌then◌else◌, length, take, drop,
}
use crawler.Net.{Event}
use crawler.Buffer.{HttpBuf, resize_temp_buf}
use crawler.Gzip.{stores}

-- Bytes that have come (at least one), an interruption (EINTR), another error than EAGAIN, or the
-- end of the stream. Behind them, and where nothing is, `recv` fails with EAGAIN.
pub data Waiting : Type 0 where
  bytes_in : ℕ → List ℕ → Waiting
  interrupt fault end_of_stream : Waiting

-- The bytes that were received, -EAGAIN, or -1.
pub data Ret : Type 0 where
  count : List ℕ → Ret
  again fail : Ret

pub record Received : Type 0 where
  pub ret : Ret
  pub socket : List Waiting
  pub rev : Event

-- What `recv` leaves of the bytes.
abbrev pub left_over : List ℕ → List Waiting → List Waiting
left_over [] s = s
left_over (c ∷ cs) s = bytes_in c cs ∷ s

-- `n == 0`, or `n > 0`.
abbrev pub on_bytes : ℕ → List ℕ → List Waiting → Event → Received
on_bytes size [] s rev = record {
  ret = count [];
  socket = s;
  rev = record rev { ready = false; eof = true };
}
on_bytes size (c ∷ cs) s rev = record {
  ret = count (c ∷ cs);
  socket = s;
  rev = if ltb (length (c ∷ cs)) size then record rev { ready = false } else rev;
}

unfoldable pub unix_recv : ℕ → List Waiting → Event → Received
unix_recv size [] rev = record { ret = again; socket = []; rev = record rev { ready = false } }
unix_recv size (bytes_in c cs ∷ s) rev =
    on_bytes size (take size (c ∷ cs)) (left_over (drop size (c ∷ cs)) s) rev
unix_recv size (interrupt ∷ s) rev = unix_recv size s rev
unix_recv size (fault ∷ s) rev = record {
  ret = fail;
  socket = s;
  rev = record rev { ready = false; error = true };
}
unix_recv size (end_of_stream ∷ s) rev = on_bytes size [] (end_of_stream ∷ s) rev

-- The loop breaks with the buffer, the event, the socket and `reset_time`; or jumps to `failed`;
-- `overran` where `recv` writes past the end of the memory.
pub data Receipt : Type 0 where
  received : HttpBuf → Event → List Waiting → Bool → Receipt
  broken : HttpBuf → Event → Receipt
  overran : Receipt
  exhausted : Receipt

abbrev pub then_again : (HttpBuf → Receipt) → Option HttpBuf → Receipt
then_again loop none = overran
then_again loop (some b) = loop b

abbrev pub on_ret :
    HttpBuf
    → Bool
    → (HttpBuf → Event → List Waiting → Receipt)
    → Ret
    → List Waiting
    → Event
    → Receipt
on_ret b reset_time loop (count []) s rev = received b rev s reset_time
on_ret b reset_time loop (count (c ∷ cs)) s rev =
    then_again (λ b'. loop b' rev s) (stores b (c ∷ cs))
on_ret b reset_time loop again s rev = received b rev s reset_time
on_ret b reset_time loop fail s rev = broken b rev

module _ (realloc : List ℕ → ℕ → Option (List ℕ)) where
  -- `if (b->last == b->end) resize_temp_buf(b)`.
  abbrev pub room_in : HttpBuf → Option HttpBuf
  room_in b = if b.last == length b.mem then resize_temp_buf realloc b else some b

  abbrev pub then_recv :
      HttpBuf
      → Event
      → List Waiting
      → Bool
      → (HttpBuf → Event → List Waiting → Receipt)
      → Option HttpBuf
      → Receipt
  then_recv b rev s reset_time loop none = broken b rev
  then_recv b rev s reset_time loop (some b') =
      let r = unix_recv (length b'.mem - b'.last) s rev in
      on_ret b' reset_time loop r.ret r.socket r.rev

  -- The `for ( ;; )` loop, with fuel.
  unfoldable pub receive_loop : ℕ → HttpBuf → Event → List Waiting → Bool → Receipt
  receive_loop zero b rev s reset_time = exhausted
  receive_loop (suc fuel) b rev s reset_time =
      then_recv b rev s reset_time (λ b' rev' s'. receive_loop fuel b' rev' s' true) (room_in b)
