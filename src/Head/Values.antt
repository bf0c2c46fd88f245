-- ===== src/Head/Values.antt =====
-- The loop of `http_parse_head` on the value of a header: its spaces.
use crawler.Base.{
  ℕ, ◌+◌, ◌-◌, ◌<◌, Bool, true, Option, List, [], ◌∷◌, ◌++◌, ◌≡◌, refl, ap, ◌∙◌, arith, length,
  Bool-cases, inl, inr, if◌then◌else◌, ◌==◌, false, ==_iff,
}
use crawler.Base.Word.{u32, u32_mod}
use crawler.Head.{vsr_stat, key_done, HeadCache, step, scan}
use crawler.Head.Print.{inert, AllInert, kept, kept-spaceless, has_space, length-kept-le}
use crawler.Head.Steps.{step-inert, scan-step, step-space}

-- `start` behind the bytes of a value from `pos` on: each space moves it behind itself.
abbrev pub value_start : ℕ → ℕ → List ℕ → ℕ
value_start start pos [] = start
value_start start pos (c ∷ cs) =
    value_start (if c == b' ' then u32 (pos + 1) else start) (pos + 1) cs

pub value_start-spaces :
    (v : List ℕ) (start pos : ℕ)
    → pos + length v < u32_mod
    → value_start start pos v ≡ (if has_space v then pos + (length v - length (kept v)) else start)
value_start-spaces [] start pos lt = refl
value_start-spaces (c ∷ cs) start pos lt =
    let next_start = if c == b' ' then u32 (pos + 1) else start in
    value_start-spaces cs next_start (pos + 1) (omega arith) ∙ elim (Bool-cases (has_space cs)) [
      | inl spaced ↦ elim (Bool-cases (c == b' ')) [
        | inl space ↦ rw (spaced, space) (omega (arith, length-kept-le cs))
        | inr other ↦ rw (spaced, other) (omega (arith, length-kept-le cs))
      ]
      | inr none_left ↦ elim (Bool-cases (c == b' ')) [
        | inl space ↦ rw (none_left, space) (omega (arith, ap length (kept-spaceless cs none_left)))
        | inr other ↦ rw (none_left, other) refl
      ]
    ]

pub value_start-kept :
    (v : List ℕ) (pos : ℕ)
    → pos + length v < u32_mod
    → value_start (u32 pos) pos v ≡ pos + (length v - length (kept v))
value_start-kept v pos lt =
    value_start-spaces v (u32 pos) pos lt ∙ elim (Bool-cases (has_space v)) [
      | inl spaced ↦ rw spaced refl
      | inr none_left ↦ rw none_left (omega (arith, ap length (kept-spaceless v none_left)))
    ]

module _ (calloc_ok : ℕ → Bool) where
  pub inert_value :
      (c : ℕ) → inert vsr_stat c ≡ true → (c == b' ') ≡ false → inert key_done c ≡ true
  unfolding inert
  inert_value c h other = ground arith

  pub scan_value :
      (v rest : List ℕ) (pos : ℕ) (hc : HeadCache) (kv : Option ℕ)
      → hc.status ≡ key_done
      → AllInert vsr_stat v
      → scan calloc_ok (v ++ rest) pos hc kv
        ≡ scan calloc_ok rest (pos + length v) (record hc { start = value_start hc.start pos v }) kv
  scan_value [] rest pos hc kv e h = ap (λ n. scan calloc_ok rest n hc kv) (omega arith)
  scan_value (c ∷ cs) rest pos hc kv e h = elim (Bool-cases (c == b' ')) [
    | inl space ↦
        let moved : HeadCache = record hc { start = u32 (pos + 1) } in
        rw space (
          scan-step calloc_ok c pos hc moved kv kv (cs ++ rest) (
            ap (λ x. step calloc_ok x (pos + 1) hc kv) ((==_iff c b' ').0 space)
            ∙ step-space calloc_ok (pos + 1) hc kv e)
          ∙ scan_value cs rest (pos + 1) moved kv e h.1
          ∙ ap
              (λ n.
                scan calloc_ok rest n
                  (record hc { start = value_start (u32 (pos + 1)) (pos + 1) cs }) kv)
              (omega arith))
    | inr other ↦ rw other (
        scan-step calloc_ok c pos hc hc kv kv (cs ++ rest)
          (step-inert calloc_ok key_done c (pos + 1) hc kv e (inert_value c h.0 other))
        ∙ scan_value cs rest (pos + 1) hc kv e h.1
        ∙ ap
            (λ n.
              scan calloc_ok rest n (record hc { start = value_start hc.start (pos + 1) cs }) kv)
            (omega arith))
  ]
