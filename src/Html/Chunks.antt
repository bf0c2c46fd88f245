-- ===== src/Html/Chunks.antt =====
-- The chunked body as a server writes it, against the loop that takes it apart.
use crawler.Base.{
  ℕ, zero, suc, ◌+◌, ◌*◌, ◌<◌, ◌≤◌, ◌≡◌, ◌≢◌, refl, sym, ap, ◌∙◌, ◌⊎◌, inl, inr, Bool, true, ◌&&◌,
  ◌||◌, List, [], ◌∷◌, ◌++◌, arith, ltb, leb, length, drop, length-append, append_assoc,
  take-append_length, Option, none, some,
}
use crawler.Base.Word.{u32, u32_mod}
use crawler.Head.{KeyValue}
use crawler.Html.{
  len_done, HtmlCache, hex_digit, size, size_line, joined, both, set_status, after_size, chunk_loop,
}

unfoldable pub is_hex : ℕ → Bool
is_hex c = leb b'0' c && leb c b'9' || leb b'A' c && leb c b'F' || leb b'a' c && leb c b'f'

-- Hexadecimal digits, and the number they stand for behind the digits of `n`.
abbrev pub AreHex : List ℕ → Type 0
AreHex [] = Unit {0}
AreHex (d ∷ ds) = (is_hex d ≡ true) × AreHex ds

abbrev pub hex_number : ℕ → List ℕ → ℕ
hex_number n [] = n
hex_number n (d ∷ ds) = hex_number (n * 16 + hex_digit d) ds

abbrev pub crlf : List ℕ → List ℕ
crlf rest = b'\r' ∷ b'\n' ∷ rest

abbrev pub Chunk : Type 0
Chunk = List ℕ × List ℕ

-- The digits of the size and the bytes of each chunk, and the chunk of size 0.
abbrev pub print_chunks : List Chunk → List ℕ → List ℕ
print_chunks [] rest = b'0' ∷ crlf rest
print_chunks ((ds, bytes) ∷ cs) rest = ds ++ crlf (bytes ++ crlf (print_chunks cs rest))

abbrev pub content : List Chunk → List ℕ
content [] = []
content ((ds, bytes) ∷ cs) = bytes ++ content cs

abbrev pub AreChunks : List Chunk → Type 0
AreChunks [] = Unit {0}
AreChunks ((ds, bytes) ∷ cs) =
    AreHex ds × (hex_number 0 ds ≡ length bytes) × (bytes ≢ []) × AreChunks cs

hex_number-ge : (n : ℕ) (ds : List ℕ) → n ≤ hex_number n ds
hex_number-ge n [] = omega arith
hex_number-ge n (d ∷ ds) = omega (arith, hex_number-ge (n * 16 + hex_digit d) ds)

size_line-digit :
    (c : ℕ) (cs : List ℕ) (pos n : ℕ) (mc : HtmlCache)
    → is_hex c ≡ true
    → size_line (c ∷ cs) pos n mc ≡ size_line cs (pos + 1) (u32 (n * 16 + hex_digit c)) mc
unfolding size_line is_hex
size_line-digit c cs pos n mc h = ground arith

-- The line of the size, read from a machine between two lines.
pub size_line-AreHex :
    (ds rest : List ℕ) (pos n : ℕ) (mc : HtmlCache)
    → mc.status ≡ len_done
    → AreHex ds
    → hex_number n ds < u32_mod
    → size_line (ds ++ crlf rest) pos n mc
      ≡ size (pos + length ds + 2) (hex_number n ds) (set_status mc len_done)
size_line-AreHex [] rest pos n mc e h lt = unfold size_line in ground arith
size_line-AreHex (d ∷ ds) rest pos n mc e h lt =
    let m : n * 16 + hex_digit d < u32_mod =
      omega (arith, hex_number-ge (n * 16 + hex_digit d) ds) in
    let w : u32 (n * 16 + hex_digit d) ≡ n * 16 + hex_digit d = omega arith in
    size_line-digit d _ pos n mc h.0
    ∙ ap (λ k. size_line (ds ++ crlf rest) (pos + 1) k mc) w
    ∙ size_line-AreHex ds rest (pos + 1) (n * 16 + hex_digit d) mc e h.1 lt
    ∙ ap (λ k. size k (hex_number (n * 16 + hex_digit d) ds) (set_status mc len_done)) (omega arith)

-- What stands at an offset also stands there with spare memory behind.
pub drop-append :
    (n : ℕ) (xs ys spare : List ℕ) → drop n xs ≡ ys → ys ≢ [] → drop n (xs ++ spare) ≡ ys ++ spare
drop-append zero xs ys spare e ne = ap (λ l. l ++ spare) e
drop-append (suc n) [] ys spare e ne = absurd (ne (sym e))
drop-append (suc n) (x ∷ xs) ys spare e ne = drop-append n xs ys spare e ne

pub drop-lt : (n : ℕ) (xs ys : List ℕ) → drop n xs ≡ ys → length xs ≡ n + length ys ⊎ (ys ≡ [])
drop-lt zero xs ys e = inl (omega (arith, ap length e))
drop-lt (suc n) [] ys e = inr (sym e)
drop-lt (suc n) (x ∷ xs) ys e = ground (arith, drop-lt n xs ys e)

both-nil : (o : Option (List ℕ)) → o ≡ both (some []) o
both-nil none = refl
both-nil (some xs) = refl

both_assoc : (a b c : Option (List ℕ)) → both a (both b c) ≡ both (both a b) c
both_assoc none b c = refl
both_assoc (some xs) none c = refl
both_assoc (some xs) (some ys) none = refl
both_assoc (some xs) (some ys) (some zs) = ap some (sym (append_assoc xs ys zs))

pub joined-append :
    (mem : List ℕ) (q q' : List KeyValue)
    → joined mem (q ++ q') ≡ both (joined mem q) (joined mem q')
unfolding joined
joined-append mem [] q' = both-nil (joined mem q')
joined-append mem (kv ∷ q) q' =
    ap (both _) (joined-append mem q q') ∙ both_assoc _ (joined mem q) (joined mem q')

pub print_chunks-cons :
    (cs : List Chunk) (rest : List ℕ) → AreChunks cs → 0 < length (print_chunks cs rest)
print_chunks-cons [] rest h = omega arith
print_chunks-cons ((ds, bytes) ∷ cs) rest h =
    omega (arith, length-append ds (crlf (bytes ++ crlf (print_chunks cs rest))))

pub append-cons-ne : (ds : List ℕ) (c : ℕ) (rest : List ℕ) → ds ++ c ∷ rest ≡ [] → ⊥
append-cons-ne [] c rest n = cc
append-cons-ne (d ∷ ds) c rest n = cc

module _ (calloc_ok : ℕ → Bool) (vis spare : List ℕ) where
  -- One round of the loop on a size line.
  pub chunk_loop-size :
      (fuel pos : ℕ) (ds rest : List ℕ) (mc : HtmlCache)
      → mc.status ≡ len_done
      → AreHex ds
      → hex_number 0 ds < u32_mod
      → drop pos vis ≡ ds ++ crlf rest
      → chunk_loop calloc_ok (suc fuel) (vis ++ spare) (length vis) pos mc
        ≡ after_size calloc_ok
            (vis ++ spare)
            (λ p m. chunk_loop calloc_ok fuel (vis ++ spare) (length vis) p m)
            (size (pos + length ds + 2) (hex_number 0 ds) (set_status mc len_done))
  unfolding chunk_loop
  chunk_loop-size fuel pos ds rest mc e h lt at = elim (drop-lt pos vis _ at) [
    | inl n ↦
        let n' : length (ds ++ crlf rest) ≡ length ds + suc (suc (length rest)) =
          length-append ds (crlf rest) in
        let t : ltb pos (length vis) ≡ true = ground arith in
        rw (t, take-append_length vis spare, at, size_line-AreHex ds rest pos 0 mc e h lt)
    | inr n ↦ absurd (append-cons-ne ds _ _ n)
  ]
