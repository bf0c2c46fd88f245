-- ===== src/Request.antt =====
-- `pack_req_buf` of http_client.c. A string is the list of its bytes, without the NUL.
pub mod Length
use crawler.Base.{ℕ, ◌+◌, Bool, Option, none, some, List, [], ◌∷◌, ◌++◌, length, drop, take}
use crawler.Buffer.{HttpBuf, create_temp_buf}
use crawler.Gzip.{write_at}
use crawler.Head.Fields.{codes}

abbrev pub line0 : List ℕ
line0 = codes "GET  HTTP/1.1\r\n"

abbrev pub line1 : List ℕ
line1 = codes "Host: \r\n"

unfoldable pub line2 : List ℕ
line2 =
    codes "Connection: keep-alive\r\n"
    ++ (codes "Upgrade-Insecure-Requests: 1\r\n"
        ++ (codes "Cache-Control: max-age=0\r\n"
            ++ (codes
                  "Accept: text/html,application/xhtml+xml,application/xml;q=0.9,image/webp,*/*;q=0.8\r\n"
                ++ (codes
                      "User-Agent: Mozilla/5.0 (Windows NT 10.0; Win64; x64) AppleWebKit/537.36 (KHTML, like Gecko) "
                    ++ (codes "Chrome/54.0.2840.71 Safari/537.36\r\n"
                        ++ (codes "Accept-Encoding: gzip, deflate, sdch\r\n"
                            ++ (codes "Accept-Language: en-US,en;q=0.8,zh-CN;q=0.6,zh;q=0.4\r\n"
                                ++ codes "\r\n")))))))

-- What `sprintf` writes, without the NUL.
unfoldable pub request : List ℕ → List ℕ → List ℕ
request path host =
    codes "GET "
    ++ (path ++ (codes " HTTP/1.1\r\n" ++ (codes "Host: " ++ (host ++ (codes "\r\n" ++ line2)))))

unfoldable pub req_buf_len : List ℕ → List ℕ → ℕ
req_buf_len path host = length line0 + length line1 + length line2 + length host + length path + 1

-- `sprintf` into the buffer, and `b->last += req_buf_len`.
abbrev pub written : List ℕ → ℕ → Option HttpBuf → Option HttpBuf
written text n none = none
written text n (some b) =
    some (record b { mem = write_at b.mem 0 (text ++ (0 ∷ [])); last = b.last + n })

-- The new `client->req`, or `none` for -1. The arguments say whether the two calls of `calloc` give
-- memory.
unfoldable pub pack_req_buf : Bool → Bool → List ℕ → List ℕ → Option HttpBuf
pack_req_buf struct_ok bytes_ok path host =
    written (request path host) (req_buf_len path host)
      (create_temp_buf struct_ok bytes_ok (req_buf_len path host))
