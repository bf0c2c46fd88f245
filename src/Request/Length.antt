-- ===== src/Request/Length.antt =====
-- The length that `pack_req_buf` counts, against the request.
use crawler.Base.{
  ℕ, ◌+◌, ◌≡◌, refl, ap, ◌∙◌, sym, true, some, List, [], ◌∷◌, ◌++◌, append-nil, arith, length, drop,
  replicate, length-append,
}
use crawler.Buffer.{create_temp_buf}
use crawler.Gzip.{write_at}
use crawler.Head.Fields.{codes}
use crawler.Request.{line2, request, req_buf_len, pack_req_buf}

length-request :
    (path host : List ℕ) → length (request path host ++ (0 ∷ [])) ≡ req_buf_len path host
unfolding request req_buf_len
length-request path host = omega (
  arith,
  length-append (request path host) (0 ∷ []),
  length-append path
      (codes " HTTP/1.1\r\n" ++ (codes "Host: " ++ (host ++ (codes "\r\n" ++ line2)))),
  length-append host (codes "\r\n" ++ line2),
)

drop-replicate_all : (n : ℕ) → drop {A = ℕ} n (replicate n 0) ≡ []
drop-replicate_all ℕ.zero = refl
drop-replicate_all (ℕ.suc n) = drop-replicate_all n

-- The length that `pack_req_buf` counts and allocates is that of the request and its NUL; where
-- memory is given the buffer holds just these, and `last` is behind the NUL, which is sent too.
pub pack_req_buf-request :
    (path host : List ℕ)
    → (req_buf_len path host ≡ length (request path host ++ (0 ∷ [])))
      × (pack_req_buf true true path host
          ≡ some (record {
            mem = request path host ++ (0 ∷ []);
            pos = 0;
            last = length (request path host ++ (0 ∷ []));
          }))
unfolding pack_req_buf create_temp_buf
pack_req_buf-request path host =
    let text : List ℕ = request path host ++ (0 ∷ []) in
    let n = length-request path host in
    let zero_plus : 0 + length text ≡ length text = omega arith in
    let m : write_at (replicate (length text) 0) 0 text ≡ text =
      ap (λ k. text ++ drop k (replicate (length text) 0)) zero_plus
      ∙ ap (λ l. text ++ l) (drop-replicate_all (length text))
      ∙ append-nil text in
    (
      sym n,
      ap (λ k. some (record { mem = write_at (replicate k 0) 0 text; pos = 0; last = 0 + k }))
            (sym n)
          ∙ ap (λ l. some (record { mem = l; pos = 0; last = 0 + length text })) m
          ∙ ap (λ k. some (record { mem = text; pos = 0; last = k })) zero_plus,
    )
