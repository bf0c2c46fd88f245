-- ===== src/Html/Ends.antt =====
-- The rounds of the loop over the chunks; and a size that arrives in two pieces.
use crawler.Base.{
  ℕ, zero, suc, ◌+◌, ◌-◌, ◌*◌, ◌<◌, ◌≡◌, ◌≢◌, refl, ap, ◌∙◌, inl, inr, Bool, true, Option, none,
  some, List, [], ◌∷◌, ◌++◌, arith, ◌==◌, leb, ltb, length, drop, Bool-cases, take-append_length,
  ◌||◌,
}
use crawler.Base.Word.{u32}
use crawler.Buffer.{HttpBuf}
use crawler.Html.{
  LenStatus, len_done, len_half, HtmlCache, hex_digit, SizeLine, starved, malformed, size,
  size_line, Parsed, returned, exhausted, on_cr, on_lf, fill, set_status, new_buf, finish_chunks,
  after_size, chunk_loop, joined,
}
use crawler.Html.Chunks.{AreHex, crlf, drop-lt, is_hex, chunk_loop-size}
use crawler.Html.Body.{finish_chunks-filled, Ends, length-pos}

-- A size line takes at least one byte.
abbrev Advances : ℕ → SizeLine → Type 0
Advances pos (size p n mc) = pos < p
Advances pos _ = Unit {0}

Advances-later : (pos : ℕ) (r : SizeLine) → Advances (pos + 1) r → Advances pos r
Advances-later pos (starved _ _) h = tt
Advances-later pos (malformed _ _) h = tt
Advances-later pos (size p _ _) h = omega arith

on_cr-Advances :
    (s : LenStatus) (pos : ℕ) (mc : HtmlCache) (loop : HtmlCache → SizeLine)
    → Advances (pos + 1) (loop (set_status mc len_half))
    → Advances pos (on_cr s (pos + 1) mc loop)
on_cr-Advances len_done pos mc loop h = Advances-later pos _ h
on_cr-Advances len_half pos mc loop h = tt

on_lf-Advances :
    (s : LenStatus) (pos n : ℕ) (mc : HtmlCache) (loop : HtmlCache → SizeLine)
    → Advances (pos + 1) (loop mc)
    → Advances pos (on_lf s (pos + 1) n mc loop)
on_lf-Advances len_done pos n mc loop h = Advances-later pos _ h
on_lf-Advances len_half pos n mc loop h = omega arith

size_line-Advances :
    (cs : List ℕ) (pos n : ℕ) (mc : HtmlCache) → Advances pos (size_line cs pos n mc)
unfolding size_line
size_line-Advances [] pos n mc = tt
size_line-Advances (c ∷ cs) pos n mc = elim (Bool-cases (c == b' ' || c == b'\t')) [
  | inl e ↦ rw e (Advances-later pos _ (size_line-Advances cs (pos + 1) n mc))
  | inr e ↦ rw e (elim (Bool-cases (c == b'\r')) [
    | inl e ↦ rw e (
        on_cr-Advances mc.status pos mc _
          (size_line-Advances cs (pos + 1) n (set_status mc len_half)))
    | inr e ↦ rw e (elim (Bool-cases (c == b'\n')) [
      | inl e ↦ rw e (on_lf-Advances mc.status pos n mc _ (size_line-Advances cs (pos + 1) n mc))
      | inr e ↦
          rw e
            (Advances-later pos _ (size_line-Advances cs (pos + 1) (u32 (n * 16 + hex_digit c)) mc))
    ])
  ])
]

module _ (calloc_ok : ℕ → Bool) where
  fill-ne-exhausted :
      (bytes : Option (List ℕ)) (pos : ℕ) (mc : HtmlCache) (b : Option HttpBuf)
      → fill bytes pos mc b ≢ exhausted
  fill-ne-exhausted bytes pos mc none = λ e. cc
  fill-ne-exhausted none pos mc (some b) = λ e. cc
  fill-ne-exhausted (some bytes) pos mc (some b) =
      elim (Bool-cases (leb (length bytes) (length b.mem))) [
        | inl e ↦ rw e (λ x. cc)
        | inr e ↦ rw e (λ x. cc)
      ]

  after_size-ne-exhausted :
      (mem : List ℕ) (last pos : ℕ) (loop : ℕ → HtmlCache → Parsed) (r : SizeLine)
      → pos < last
      → Advances pos r
      → ((p : ℕ) (m : HtmlCache) → last - p < last - pos → loop p m ≢ exhausted)
      → after_size calloc_ok mem loop r ≢ exhausted
  unfolding finish_chunks
  after_size-ne-exhausted mem last pos loop (starved p m) lt a h = λ x. cc
  after_size-ne-exhausted mem last pos loop (malformed p m) lt a h = λ x. cc
  after_size-ne-exhausted mem last pos loop (size p n m) lt a h = elim (Bool-cases (n == 0)) [
    | inl e ↦
        rw e (fill-ne-exhausted (joined mem m.chunk_queue) p _ (new_buf calloc_ok m m.chunk_sum))
    | inr e ↦ rw e (elim (Bool-cases (calloc_ok m.allocs)) [
      | inl e ↦ rw e (h _ _ (omega arith))
      | inr e ↦ rw e (λ x. cc)
    ])
  ]

  -- The loop ends within one round for each byte that is left.
  pub chunk_loop-ne-exhausted :
      (fuel : ℕ) (mem : List ℕ) (last pos : ℕ) (mc : HtmlCache)
      → last - pos < fuel
      → chunk_loop calloc_ok fuel mem last pos mc ≢ exhausted
  unfolding chunk_loop
  chunk_loop-ne-exhausted zero mem last pos mc lt = absurd (omega arith)
  chunk_loop-ne-exhausted (suc fuel) mem last pos mc lt = elim (Bool-cases (ltb pos last)) [
    | inr e ↦ rw e (λ x. cc)
    | inl e ↦
        let less : pos < last = ground arith in
        rw e (
          after_size-ne-exhausted mem last pos _ _ less (size_line-Advances _ pos 0 mc)
            (λ p m h. chunk_loop-ne-exhausted fuel mem last p m (omega arith)))
  ]

size_line_digits :
    (ds : List ℕ) (pos n : ℕ) (mc : HtmlCache)
    → AreHex ds
    → size_line ds pos n mc ≡ starved (pos + length ds) mc
unfolding size_line is_hex
size_line_digits [] pos n mc h = let e : pos ≡ pos + 0 = omega arith in ap (λ p. starved p mc) e
size_line_digits (d ∷ ds) pos n mc h =
    let e : pos + 1 + length ds ≡ pos + suc (length ds) = omega arith in
    ground (arith, size_line_digits ds (pos + 1) (u32 (n * 16 + hex_digit d)) mc h.1)

module _ (calloc_ok : ℕ → Bool) (all_ok : (n : ℕ) → calloc_ok n ≡ true) where
  -- The digits of a size that stand at the end of what has come are forgotten: the call that reads
  -- them returns, and the call after it takes the line end for a chunk of size 0, and ends the body
  -- with the chunks before it. Memory is given.
  pub chunk_loop_forgets_size :
      (vis spare vis' spare' ds rest acc : List ℕ) (fuel pos : ℕ) (mc : HtmlCache)
      → mc.status ≡ len_done
      → joined (vis' ++ spare') mc.chunk_queue ≡ some acc
      → mc.chunk_sum ≡ length acc
      → AreHex ds
      → ds ≢ []
      → drop pos vis ≡ ds
      → drop (pos + length ds) vis' ≡ crlf rest
      → (chunk_loop calloc_ok (suc fuel) (vis ++ spare) (length vis) pos mc
          ≡ returned (pos + length ds) mc)
        × Ends calloc_ok all_ok vis' spare' (suc fuel) (pos + length ds) mc acc
  unfolding chunk_loop
  chunk_loop_forgets_size vis spare vis' spare' ds rest acc fuel pos mc e j s hd ne at at' = (
    elim (drop-lt pos vis ds at) [
      | inr nil ↦ absurd (ne nil)
      | inl len ↦
          let t : ltb pos (length vis) ≡ true = ground (arith, length-pos ds ne) in
          rw (t, take-append_length, at, size_line_digits ds pos 0 mc hd)
    ],
    (
      pos + length ds + 0 + 2,
      _,
      chunk_loop-size calloc_ok vis' spare' fuel (pos + length ds) [] rest mc e tt (omega arith) at'
          ∙ finish_chunks-filled calloc_ok all_ok (vis' ++ spare') acc _ (set_status mc len_done) j
              s,
      refl,
      s,
    ),
  )
