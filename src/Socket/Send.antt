-- ===== src/Socket/Send.antt =====
-- connection.c: `unix_send` and `unix_udp_recv`. The kernel is what the calls of `send` or `recv`
-- are to find, first one first; behind it they fail with EAGAIN.
use crawler.Base.{ℕ, suc, ◌+◌, true, false, List, [], ◌∷◌, ◌==◌, ltb, if◌then◌else◌, take}
use crawler.Net.{Event}

-- `send` has room for at least one byte, for `suc room` in all; takes nothing; or fails.
pub data Room : Type 0 where
  room_for : ℕ → Room
  send_interrupt send_fault : Room

-- n ≥ 0, -EAGAIN, or -1.
pub data SendRet : Type 0 where
  sent : ℕ → SendRet
  not_ready : SendRet
  send_failed : SendRet

-- The result, the kernel, the write event of the connection, and its field `sent`.
pub record Sending : Type 0 where
  pub ret : SendRet
  pub kernel : List Room
  pub wev : Event
  pub total : ℕ

abbrev pub smaller : ℕ → ℕ → ℕ
smaller a b = if ltb a b then a else b

-- `n == 0`, or `n > 0`.
abbrev pub on_sent : ℕ → ℕ → List Room → Event → ℕ → Sending
on_sent size n kernel wev total =
    if n == 0
    then record { ret = sent 0; kernel = kernel; wev = record wev { ready = false }; total = total }
    else record {
      ret = sent n;
      kernel = kernel;
      wev = if ltb n size then record wev { ready = false } else wev;
      total = total + n;
    }

unfoldable pub unix_send : ℕ → List Room → Event → ℕ → Sending
unix_send size [] wev total = record {
  ret = not_ready;
  kernel = [];
  wev = record wev { ready = false };
  total = total;
}
unix_send size (room_for room ∷ k) wev total = on_sent size (smaller size (suc room)) k wev total
unix_send size (send_interrupt ∷ k) wev total =
    unix_send size k (record wev { ready = false }) total
unix_send size (send_fault ∷ k) wev total = record {
  ret = send_failed;
  kernel = k;
  wev = record wev { error = true };
  total = total;
}

-- What a call of `recv` on the datagram socket finds.
pub data Datagram : Type 0 where
  datagram : List ℕ → Datagram
  udp_interrupt udp_fault : Datagram

pub data UdpRet : Type 0 where
  packet : List ℕ → UdpRet
  udp_again udp_failed : UdpRet

pub record UdpReceived : Type 0 where
  pub ret : UdpRet
  pub queue : List Datagram
  pub rev : Event

-- `recv` cuts a datagram off at the size.
unfoldable pub unix_udp_recv : ℕ → List Datagram → Event → UdpReceived
unix_udp_recv size [] rev = record {
  ret = udp_again;
  queue = [];
  rev = record rev { ready = false };
}
unix_udp_recv size (datagram bytes ∷ q) rev = record {
  ret = packet (take size bytes);
  queue = q;
  rev = rev;
}
unix_udp_recv size (udp_interrupt ∷ q) rev = unix_udp_recv size q rev
unix_udp_recv size (udp_fault ∷ q) rev = record {
  ret = udp_failed;
  queue = q;
  rev = record rev { ready = false; error = true };
}
