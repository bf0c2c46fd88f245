-- ===== src/Html/Body.antt =====
-- A whole chunked body in the buffer.
use crawler.Base.{
  ℕ, zero, suc, ◌+◌, ◌<◌, ◌≡◌, ◌≢◌, refl, ap, ◌∙◌, inl, inr, Bool, true, false, some, List, [], ◌∷◌,
  ◌++◌, arith, ◌==◌, leb, length, drop, replicate, length-append, length-replicate, append_assoc,
  append-nil, take-append_length, drop-drop,
}
use crawler.Base.Word.{u32, add32, u32_mod}
use crawler.Buffer.{HttpBuf, create_temp_buf}
use crawler.Html.{
  len_done, HtmlCache, fine, joined, set_status, finish_chunks, add_chunk, chunk_loop, hex_digit,
}
use native.Mathlib.Nat.{add_assoc}
use crawler.Html.Chunks.{
  is_hex, AreHex, hex_number, crlf, Chunk, print_chunks, content, AreChunks, drop-append, drop-lt,
  joined-append, append-cons-ne, chunk_loop-size,
}

drop-skip : (xs ys : List ℕ) → drop (length xs + 2) (xs ++ crlf ys) ≡ ys
drop-skip [] ys = refl
drop-skip (x ∷ xs) ys =
    let e : suc (length xs) + 2 ≡ suc (length xs + 2) = omega arith in
    ap (λ n. drop n (x ∷ (xs ++ crlf ys))) e ∙ drop-skip xs ys

drop-replicate : (n : ℕ) → drop {A = ℕ} n (replicate n 0) ≡ []
drop-replicate zero = refl
drop-replicate (suc n) = drop-replicate n

pub length-pos : (xs : List ℕ) → xs ≢ [] → 0 < length xs
length-pos [] ne = absurd (ne refl)
length-pos (x ∷ xs) ne = omega arith

-- A chunk in the visible bytes is shorter than they are.
chunk_fits :
    (ds bytes next vis : List ℕ) (pos : ℕ)
    → drop pos vis ≡ ds ++ crlf (bytes ++ crlf next)
    → length bytes + 2 < length vis
chunk_fits ds bytes next vis pos at = elim (drop-lt pos vis _ at) [
  | inr nil ↦ absurd (append-cons-ne ds _ _ nil)
  | inl len ↦
      omega (arith, length-append ds (crlf (bytes ++ crlf next)), length-append bytes (crlf next))
]

-- What the buffer `chunks` holds in the end; `last` is one byte too far.
abbrev pub filled : List ℕ → HttpBuf
filled bytes = record { mem = bytes; pos = 0; last = length bytes + 1 }

module _ (calloc_ok : ℕ → Bool) (all_ok : (n : ℕ) → calloc_ok n ≡ true) where
  pub finish_chunks-filled :
      (mem acc : List ℕ) (pos : ℕ) (mc : HtmlCache)
      → joined mem mc.chunk_queue ≡ some acc
      → mc.chunk_sum ≡ length acc
      → finish_chunks calloc_ok mem pos mc
        ≡ fine pos (record mc { chunks = some (filled acc); allocs = mc.allocs + 2 })
  unfolding finish_chunks create_temp_buf
  finish_chunks-filled mem acc pos mc j s =
      let l : leb (length acc) (length acc) ≡ true = ground arith in
      let n : length (replicate (length acc) 0) ≡ length acc =
        length-replicate {A = ℕ} (length acc) 0 in
      rw (j, s, all_ok mc.allocs, all_ok (mc.allocs + 1), n, l, drop-replicate, append-nil)

  module _ (vis spare : List ℕ) where
    abbrev pub Ends : ℕ → ℕ → HtmlCache → List ℕ → Type 0
    Ends fuel pos mc bytes =
        (p : ℕ) × (m : HtmlCache) × (chunk_loop calloc_ok fuel (vis ++ spare) (length vis) pos mc
          ≡ fine p m)
        × (m.chunks ≡ some (filled bytes))
        × (m.chunk_sum ≡ length bytes)

    chunk_loop_last :
        (rest acc : List ℕ) (fuel pos : ℕ) (mc : HtmlCache)
        → mc.status ≡ len_done
        → joined (vis ++ spare) mc.chunk_queue ≡ some acc
        → mc.chunk_sum ≡ length acc
        → drop pos vis ≡ b'0' ∷ crlf rest
        → Ends (suc fuel) pos mc acc
    unfolding is_hex hex_digit
    chunk_loop_last rest acc fuel pos mc e j s at = (
      pos + 1 + 2,
      _,
      chunk_loop-size calloc_ok vis spare fuel pos (b'0' ∷ []) rest mc e (refl, tt) (omega arith) at
          ∙ finish_chunks-filled (vis ++ spare) acc (pos + 1 + 2) (set_status mc len_done) j s,
      refl,
      s,
    )

    -- What one chunk leads to.
    record Round (fuel pos : ℕ) (mc : HtmlCache) (acc bytes next : List ℕ) : Type 0 where
      p : ℕ
      m : HtmlCache
      loops :
          chunk_loop calloc_ok (suc fuel) (vis ++ spare) (length vis) pos mc
          ≡ chunk_loop calloc_ok fuel (vis ++ spare) (length vis) p m
      between : m.status ≡ len_done
      bytes_are : joined (vis ++ spare) m.chunk_queue ≡ some (acc ++ bytes)
      sum_is : m.chunk_sum ≡ length (acc ++ bytes)
      stands : drop p vis ≡ next

    joined-add_chunk :
        (p n : ℕ) (bytes next acc : List ℕ) (mc : HtmlCache)
        → joined (vis ++ spare) mc.chunk_queue ≡ some acc
        → length vis < u32_mod
        → drop p vis ≡ bytes ++ crlf next
        → n ≡ length bytes
        → joined (vis ++ spare) (add_chunk calloc_ok p n mc).chunk_queue ≡ some (acc ++ bytes)
    unfolding add_chunk joined
    joined-add_chunk p n bytes next acc mc j lv at en = elim (drop-lt p vis _ at) [
      | inr nil ↦ absurd (append-cons-ne bytes _ _ nil)
      | inl len ↦
          let small : u32 p ≡ p = omega arith in
          let there = drop-append p vis (bytes ++ crlf next) spare at (append-cons-ne bytes _ _) in
          let inside : leb (p + length bytes) (length (vis ++ spare)) ≡ true =
            ground (arith, length-append bytes (crlf next), length-append vis spare) in
          rw (
            joined-append, j, small, en, inside, there, append_assoc, take-append_length,
            append-nil,
          )
    ]

    chunk_loop-Round :
        (ds bytes next acc : List ℕ) (fuel pos : ℕ) (mc : HtmlCache)
        → mc.status ≡ len_done
        → joined (vis ++ spare) mc.chunk_queue ≡ some acc
        → mc.chunk_sum ≡ length acc
        → length vis < u32_mod
        → length acc + length bytes < u32_mod
        → AreHex ds
        → hex_number 0 ds ≡ length bytes
        → bytes ≢ []
        → drop pos vis ≡ ds ++ crlf (bytes ++ crlf next)
        → Round fuel pos mc acc bytes next
    unfolding add_chunk
    chunk_loop-Round ds bytes next acc fuel pos mc e j s lv la hd hn ne at =
        let at1 : drop (pos + length ds + 2) vis ≡ bytes ++ crlf next =
          ap (λ n. drop n vis) (add_assoc pos (length ds) 2)
          ∙ drop-drop pos (length ds + 2) vis
          ∙ ap (drop (length ds + 2)) at
          ∙ drop-skip ds (bytes ++ crlf next) in
        let n2 : pos + length ds + 2 + add32 (hex_number 0 ds) 2
            ≡ pos + length ds + 2 + (length bytes + 2) =
          omega (arith, chunk_fits ds bytes next vis pos at) in
        let nz : (hex_number 0 ds == 0) ≡ false = ground (arith, length-pos bytes ne) in
        record {
          p = pos + length ds + 2 + add32 (hex_number 0 ds) 2;
          m = add_chunk calloc_ok (pos + length ds + 2) (hex_number 0 ds) (set_status mc len_done);
          loops =
              chunk_loop-size calloc_ok vis spare fuel pos ds _ mc e hd (omega arith) at
              ∙ rw (nz, all_ok mc.allocs);
          between = refl;
          bytes_are = joined-add_chunk _ _ bytes next acc (set_status mc len_done) j lv at1 hn;
          sum_is = omega (arith, length-append acc bytes);
          stands =
              ap (λ n. drop n vis) n2
              ∙ drop-drop (pos + length ds + 2) (length bytes + 2) vis
              ∙ ap (drop (length bytes + 2)) at1
              ∙ drop-skip bytes next;
        }

    -- A chunked body that has come whole is put together: the buffer gets the bytes of the chunks, in
    -- order and no others.
    pub chunk_loop-print_chunks :
        (cs : List Chunk) (rest acc : List ℕ) (fuel pos : ℕ) (mc : HtmlCache)
        → mc.status ≡ len_done
        → joined (vis ++ spare) mc.chunk_queue ≡ some acc
        → mc.chunk_sum ≡ length acc
        → length vis < u32_mod
        → length acc + length (content cs) < u32_mod
        → AreChunks cs
        → drop pos vis ≡ print_chunks cs rest
        → length (print_chunks cs rest) < fuel
        → Ends fuel pos mc (acc ++ content cs)
    chunk_loop-print_chunks [] rest acc zero pos mc e j s lv la h at lf = absurd (omega arith)
    chunk_loop-print_chunks ((ds, bytes) ∷ cs) rest acc zero pos mc e j s lv la h at lf =
        absurd (omega arith)
    chunk_loop-print_chunks [] rest acc (suc fuel) pos mc e j s lv la h at lf =
        rw append-nil (chunk_loop_last rest acc fuel pos mc e j s at)
    chunk_loop-print_chunks ((ds, bytes) ∷ cs) rest acc (suc fuel) pos mc e j s lv la h at lf =
        let n = length-append bytes (content cs) in
        let n' = length-append ds (crlf (bytes ++ crlf (print_chunks cs rest))) in
        let n'' = length-append bytes (crlf (print_chunks cs rest)) in
        let r =
          chunk_loop-Round ds bytes (print_chunks cs rest) acc fuel pos mc e j s lv (omega arith)
            h.0 h.1 h.2 at in
        let (p, m, ran, got, sum) =
          chunk_loop-print_chunks cs rest (acc ++ bytes) fuel r.p r.m r.between r.bytes_are r.sum_is
            lv (omega (arith, length-append acc bytes)) h.3 r.stands (omega arith) in
        (
          p,
          m,
          r.loops ∙ ran,
          got ∙ ap (λ l. some (filled l)) (append_assoc acc bytes (content cs)),
          sum ∙ ap length (append_assoc acc bytes (content cs)),
        )
