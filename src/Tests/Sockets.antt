-- ===== src/Tests/Sockets.antt =====
-- A request, and a response that arrives in two pieces with an interruption in between.
use crawler.Base.{◌≡◌, refl, true, false, some, List, [], ◌∷◌, ◌++◌, arith, length}
use crawler.Net.{zero_event}
use crawler.Buffer.{HttpBuf}
use crawler.Head.Fields.{codes}
use crawler.Socket.{Waiting, bytes_in, interrupt, receive_loop}
use crawler.Socket.Receive.{pending, TookIn, receive_loop-TookIn}
use crawler.Client.Read.{http_read_event_process}
use crawler.Client.Delivered.{Delivers, http_read_event_process-Delivers}
use crawler.Request.{request, req_buf_len, pack_req_buf}
use crawler.Request.Length.{pack_req_buf-request}
use crawler.Samples.Memory.{moved, moved-IsRealloc, moved-Gives, plain_zlib}
use crawler.Tests.Response.{
  given, ver, reason, headers, chunks, plain, fit, are_chunks, is_chunked, is_plain, waiting,
}

abbrev socket : List Waiting
socket =
    bytes_in b'H' (codes "TTP/1.1 2")
    ∷ interrupt
    ∷ bytes_in b'0' (
        codes
          "0 OK\r\nTransfer-Encoding: chunked\r\nDate: Thu, 26 Nov 2026 18:00:00 GMT\r\n\r\n3\r\nabc\r\n2\r\nde\r\n0\r\n")
    ∷ []

abbrev small_buf : HttpBuf
small_buf = record { mem = codes "ab"; pos = 0; last = 1 }

receive_loop-TookIn_example :
    TookIn moved moved-IsRealloc moved-Gives small_buf
      (pending socket)
      (receive_loop moved 199 small_buf zero_event socket false)
receive_loop-TookIn_example =
    receive_loop-TookIn moved moved-IsRealloc moved-Gives 199 small_buf zero_event socket false
      (omega arith) (omega arith) refl (omega arith)

http_read_event_process-Delivers_example :
    Delivers
      (http_read_event_process given plain_zlib moved 9 199 waiting zero_event socket)
      (codes "abcde")
http_read_event_process-Delivers_example =
    http_read_event_process-Delivers given (λ s n. refl) plain_zlib moved moved-IsRealloc
      moved-Gives 9 ver reason headers chunks [] 199 waiting zero_event socket plain fit are_chunks
      (omega arith) is_chunked is_plain refl refl refl refl refl refl refl (omega arith)

pack_req_buf-request_example :
    (req_buf_len (codes "/") (codes "a.org")
      ≡ length (request (codes "/") (codes "a.org") ++ (0 ∷ [])))
    × (pack_req_buf true true (codes "/") (codes "a.org")
        ≡ some (record {
          mem = request (codes "/") (codes "a.org") ++ (0 ∷ []);
          pos = 0;
          last = length (request (codes "/") (codes "a.org") ++ (0 ∷ []));
        }))
pack_req_buf-request_example = pack_req_buf-request (codes "/") (codes "a.org")
