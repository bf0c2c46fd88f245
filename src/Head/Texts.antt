-- ===== src/Head/Texts.antt =====
-- The texts at the offsets of a printed head.
use crawler.Base.{
  ℕ, ◌+◌, ◌<◌, true, false, some, List, [], ◌∷◌, ◌++◌, ◌≡◌, ◌≢◌, refl, ap, ◌∙◌, arith, ltb, length,
  drop, drop-drop, drop-append_length, take-append_length, append_assoc, Bool-cases, inl, inr, ◌-◌,
  suc,
}
use crawler.Head.Fields.{cstr, field}
use crawler.Head.Meaning.{Headers, texts}
use crawler.Head.Print.{
  print_lines, layout, after_lines, kept, has_space, kept_values, length-kept-le,
}
use crawler.Head.StatusLine.{print_head, first_line}
use native.Mathlib.Nat.{add_assoc}

abbrev pub NoNul : List ℕ → Type 0
NoNul [] = Unit {0}
NoNul (c ∷ cs) = (c ≢ 0) × NoNul cs

-- A text that fits an array of 1024 bytes.
abbrev pub IsText : List ℕ → Type 0
IsText s = NoNul s × (length s < 1024)

abbrev pub AreTexts : Headers → Type 0
AreTexts [] = Unit {0}
AreTexts ((k, v) ∷ hs) = IsText k × IsText v × AreTexts hs

cstr-NoNul : (s : List ℕ) → NoNul s → cstr s ≡ s
unfolding cstr
cstr-NoNul [] h = refl
cstr-NoNul (c ∷ cs) h = ground (arith, cstr-NoNul cs h.1)

pub field-IsText :
    (mem : List ℕ) (off : ℕ) (s rest : List ℕ)
    → drop off mem ≡ s ++ rest
    → IsText s
    → field mem off (length s) ≡ some s
unfolding field
field-IsText mem off s rest e h =
    let n : ltb 1024 (length s) ≡ false = ground arith in
    let m : ltb (length s) 1024 ≡ true = ground arith in
    rw (e, take-append_length, cstr-NoNul s h.0, n, m)

module _ (mem k v : List ℕ) (hs : Headers) (p : ℕ) (rest : List ℕ)
    (e : drop p mem ≡ print_lines ((k, v) ∷ hs) rest) where
  drop_value : drop (p + length k + 2) mem ≡ v ++ (b'\r' ∷ b'\n' ∷ print_lines hs rest)
  drop_value =
      ap (λ n. drop n mem) (add_assoc p (length k) 2)
      ∙ drop-drop p (length k + 2) mem
      ∙ ap (drop (length k + 2)) e
      ∙ drop-drop (length k) 2 _
      ∙ ap (drop 2) (drop-append_length k _)

  drop_line : drop (p + length k + length v + 4) mem ≡ print_lines hs rest
  drop_line =
      let n : p + length k + length v + 4 ≡ (p + length k + 2) + (length v + 2) = omega arith in
      ap (λ n. drop n mem) n
      ∙ drop-drop (p + length k + 2) (length v + 2) mem
      ∙ ap (drop (length v + 2)) drop_value
      ∙ drop-drop (length v) 2 _
      ∙ ap (drop 2) (drop-append_length v _)

drop-kept : (v rest : List ℕ) → drop (length v - length (kept v)) (v ++ rest) ≡ kept v ++ rest
drop-kept [] rest = refl
drop-kept (c ∷ cs) rest = elim (Bool-cases (has_space (c ∷ cs))) [
  | inl spaced ↦
      let n : suc (length cs) - length (kept cs) ≡ suc (length cs - length (kept cs)) =
        omega (arith, length-kept-le cs) in
      rw (spaced, n) (drop-kept cs rest)
  | inr none_left ↦
      let n : suc (length cs) - suc (length cs) ≡ 0 = omega arith in rw (none_left, n) refl
]

pub texts-layout :
    (mem : List ℕ) (hs : Headers) (p : ℕ) (rest : List ℕ)
    → drop p mem ≡ print_lines hs rest
    → AreTexts (kept_values hs)
    → texts mem (layout p hs) ≡ some (kept_values hs)
unfolding texts
texts-layout mem [] p rest e h = refl
texts-layout mem ((k, v) ∷ hs) p rest e h = rw (
  field-IsText mem p k _ e h.0,
  field-IsText mem (p + length k + 2 + (length v - length (kept v))) (kept v) _
      (drop-drop (p + length k + 2) (length v - length (kept v)) mem
        ∙ ap (drop (length v - length (kept v))) (drop_value mem k v hs p rest e)
        ∙ drop-kept v _)
      h.1,
  texts-layout mem hs (p + length k + length v + 4) rest (drop_line mem k v hs p rest e) h.2,
)

-- Behind the empty line.
pub drop-after_lines :
    (mem : List ℕ) (hs : Headers) (p : ℕ) (rest : List ℕ)
    → drop p mem ≡ print_lines hs rest
    → drop (after_lines p hs) mem ≡ rest
drop-after_lines mem [] p rest e = drop-drop p 2 mem ∙ ap (drop 2) e
drop-after_lines mem ((k, v) ∷ hs) p rest e =
    drop-after_lines mem hs (p + length k + length v + 4) rest (drop_line mem k v hs p rest e)

pub print_lines-append :
    (hs : Headers) (rest spare : List ℕ)
    → print_lines hs rest ++ spare ≡ print_lines hs (rest ++ spare)
print_lines-append [] rest spare = refl
print_lines-append ((k, v) ∷ hs) rest spare =
    rw (append_assoc k, append_assoc v, print_lines-append hs rest spare)

module _ (ver st reason : List ℕ) (hs : Headers) (rest : List ℕ) where
  pub print_head-append :
      (spare : List ℕ)
      → print_head ver st reason hs rest ++ spare ≡ print_head ver st reason hs (rest ++ spare)
  print_head-append spare =
      rw (append_assoc ver, append_assoc st, append_assoc reason, print_lines-append hs rest spare)

  pub drop-status :
      drop (length ver + 1) (print_head ver st reason hs rest)
      ≡ st ++ (b' ' ∷ (reason ++ (b'\r' ∷ b'\n' ∷ print_lines hs rest)))
  drop-status = drop-drop (length ver) 1 _ ∙ ap (drop 1) (drop-append_length ver _)

  pub drop-first_line :
      drop (first_line ver st reason) (print_head ver st reason hs rest) ≡ print_lines hs rest
  drop-first_line =
      let n : first_line ver st reason ≡ length ver + 1 + (length st + (1 + (length reason + 2))) =
        omega arith in
      ap (λ k. drop k (print_head ver st reason hs rest)) n
      ∙ drop-drop (length ver + 1) _ _
      ∙ ap (drop (length st + (1 + (length reason + 2)))) drop-status
      ∙ drop-drop (length st) _ _
      ∙ ap (drop (1 + (length reason + 2))) (drop-append_length st _)
      ∙ drop-drop 1 (length reason + 2) _
      ∙ drop-drop (length reason) 2 _
      ∙ ap (drop 2) (drop-append_length reason _)
