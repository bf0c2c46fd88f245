-- ===== src/Tests/Reading.antt =====
-- http_client.c on buffers, pieces of a response, and single parts of it.
use mathlib.Core.Option
use crawler.Base.{ℕ, ◌<◌, ◌≡◌, ◌≢◌, refl, some, List, [], ◌∷◌, ◌++◌, arith, take}
use crawler.Buffer.{HttpBuf, grown, resize_temp_buf}
use crawler.Buffer.Grow.{resize_temp_buf-IsSound}
use crawler.Head.{scan, step}
use crawler.Head.Fields.{codes, read_headers}
use crawler.Head.Meaning.{fitting_texts, summary, read_headers-summary}
use crawler.Html.{returned, exhausted, chunk_loop, joined}
use crawler.Html.Chunks.{is_hex, AreHex, print_chunks}
use crawler.Html.Body.{Ends}
use crawler.Html.Ends.{chunk_loop-ne-exhausted, chunk_loop_forgets_size}
use crawler.Client.{HttpClient, at_chunk, ok, http_parse_head, new_html}
use crawler.Client.Pieces.{http_parse_head_pieces}
use crawler.Client.Whole.{fresh_head}
use crawler.Samples.Memory.{moved, moved-IsRealloc}
use crawler.Tests.Response.{given, waiting, chunks}

-- Four bytes of memory, all filled.
abbrev full : HttpBuf
full = record { mem = codes "abcd"; pos = 1; last = 4 }

abbrev full_grown : HttpBuf
full_grown = record { mem = codes "abcd" ++ (0 ∷ 0 ∷ 0 ∷ 0 ∷ []); pos = 1; last = 4 }

resize_full : resize_temp_buf moved full ≡ some full_grown
unfolding resize_temp_buf grown
resize_full = refl

resize_temp_buf-IsSound_example :
    (4 < 8)
    × (take 4 full_grown.mem ≡ take 4 full.mem)
    × (full_grown.pos ≡ full.pos)
    × (full_grown.last ≡ full.last)
resize_temp_buf-IsSound_example =
    resize_temp_buf-IsSound moved moved-IsRealloc full full_grown (omega arith) (omega arith)
      resize_full

read_headers-summary_example :
    read_headers
      (codes "a: b\r\n")
      (record { key = 0; key_len = 1; value = 3; value_len = 1 } ∷ [])
      fresh_head
    ≡ Option.map (summary fresh_head) (
        fitting_texts
          (codes "a: b\r\n")
          (record { key = 0; key_len = 1; value = 3; value_len = 1 } ∷ []))
read_headers-summary_example =
    read_headers-summary (codes "a: b\r\n")
      (record { key = 0; key_len = 1; value = 3; value_len = 1 } ∷ []) fresh_head

abbrev body : List ℕ
body = print_chunks chunks []

nothing_yet : (mem : List ℕ) → joined mem [] ≡ some []
unfolding joined
nothing_yet mem = refl

chunk_loop-ne-exhausted_example :
    chunk_loop (given at_chunk) 5 (codes "zz\r\n") 4 0 (new_html 0) ≢ exhausted
chunk_loop-ne-exhausted_example =
    chunk_loop-ne-exhausted (given at_chunk) 5 (codes "zz\r\n") 4 0 (new_html 0) (omega arith)

one_digit : AreHex (codes "3")
unfolding is_hex
one_digit = (refl, tt)

chunk_loop_forgets_size_example :
    (chunk_loop (given at_chunk) 9 (codes "3" ++ []) 1 0 (new_html 0) ≡ returned 1 (new_html 0))
    × Ends (given at_chunk) (λ n. refl) (codes "3\r\nabc\r\n") [] 9 1 (new_html 0) []
chunk_loop_forgets_size_example =
    chunk_loop_forgets_size (given at_chunk) (λ n. refl) (codes "3") [] (codes "3\r\nabc\r\n") []
      (codes "3") (codes "abc\r\n") [] 8 0 (new_html 0) refl
      (nothing_yet (codes "3\r\nabc\r\n" ++ [])) refl one_digit (λ e. cc) refl refl

abbrev room : HttpBuf
room = record { mem = 0 ∷ 0 ∷ []; pos = 0; last = 0 }

abbrev two_bytes : HttpBuf
two_bytes = record { mem = codes "HTTP"; pos = 0; last = 2 }

abbrev four_bytes : HttpBuf
four_bytes = record { mem = codes "HTTP"; pos = 0; last = 4 }

abbrev reading : HttpClient
reading = record waiting { head = some fresh_head; recv = some (record two_bytes { pos = 2 }) }

read_two : http_parse_head given waiting two_bytes ≡ ok reading
unfolding http_parse_head scan step
read_two = refl

http_parse_head_pieces_example :
    http_parse_head given reading (record four_bytes { pos = 2 })
    ≡ http_parse_head given waiting (record four_bytes { pos = 0 })
http_parse_head_pieces_example =
    http_parse_head_pieces given waiting reading two_bytes four_bytes (codes "HT") (codes "TP") refl
      refl refl read_two
