-- ===== src/Head/Print.antt =====
-- A response head as a server writes it, and what the loop of `http_parse_head` is to make of it.
use crawler.Base.{
  ℕ, ◌+◌, ◌≤◌, Bool, true, false, not, ◌||◌, List, [], ◌∷◌, ◌++◌, ◌≡◌, arith, ◌==◌, length,
  Bool-cases, inl, inr, if◌then◌else◌, ◌-◌, refl,
}
use crawler.Head.{
  HeadStatus, vsr_start, vsr_ver, vsr_stat, line_done, key_done, head_done, HeadCache, KeyValue,
}
use crawler.Head.Meaning.{Headers}

-- Bytes that leave the machine as it is in the given status.
unfoldable pub inert : HeadStatus → ℕ → Bool
inert vsr_start c = not (c == b' ' || c == b'\r' || c == b'\n')
inert vsr_ver c = not (c == b' ' || c == b'\r' || c == b'\n')
inert vsr_stat c = not (c == b'\r' || c == b'\n')
inert line_done c = not (c == b':' || c == b'\r' || c == b'\n')
inert key_done c = not (c == b' ' || c == b'\r' || c == b'\n')
inert _ c = false

abbrev pub AllInert : HeadStatus → List ℕ → Type 0
AllInert s [] = Unit {0}
AllInert s (c ∷ cs) = (inert s c ≡ true) × AllInert s cs

-- `name: value` and the end of the line.
abbrev pub print_line : List ℕ → List ℕ → List ℕ → List ℕ
print_line k v rest = k ++ (b':' ∷ b' ' ∷ (v ++ (b'\r' ∷ b'\n' ∷ rest)))

abbrev pub print_lines : Headers → List ℕ → List ℕ
print_lines [] rest = b'\r' ∷ b'\n' ∷ rest
print_lines ((k, v) ∷ hs) rest = print_line k v (print_lines hs rest)

abbrev pub has_space : List ℕ → Bool
has_space [] = false
has_space (c ∷ cs) = c == b' ' || has_space cs

-- What follows the last space of a value.
abbrev pub kept : List ℕ → List ℕ
kept [] = []
kept (c ∷ cs) = if has_space (c ∷ cs) then kept cs else c ∷ cs

pub length-kept-le : (v : List ℕ) → length (kept v) ≤ length v
length-kept-le [] = omega arith
length-kept-le (c ∷ cs) = elim (Bool-cases (has_space (c ∷ cs))) [
  | inl spaced ↦ rw spaced (omega (arith, length-kept-le cs))
  | inr none_left ↦ rw none_left (omega arith)
]

pub kept-spaceless : (v : List ℕ) → has_space v ≡ false → kept v ≡ v
kept-spaceless [] h = refl
kept-spaceless (c ∷ cs) h = rw h refl

-- The headers as the code keeps them.
abbrev pub kept_values : Headers → Headers
kept_values [] = []
kept_values ((k, v) ∷ hs) = (k, kept v) ∷ kept_values hs

-- The entry of a line at offset `p`.
abbrev pub entry : ℕ → List ℕ → List ℕ → KeyValue
entry p k v = record {
  key = p;
  key_len = length k;
  value = p + length k + 2 + (length v - length (kept v));
  value_len = length (kept v);
}

-- The entries for the lines that start at offset `p`, and the offset behind the empty line.
abbrev pub layout : ℕ → Headers → List KeyValue
layout p [] = []
layout p ((k, v) ∷ hs) = entry p k v ∷ layout (p + length k + length v + 4) hs

abbrev pub after_lines : ℕ → Headers → ℕ
after_lines p [] = p + 2
after_lines p ((k, v) ∷ hs) = after_lines (p + length k + length v + 4) hs

abbrev pub last_line : ℕ → Headers → ℕ
last_line p [] = p
last_line p ((k, v) ∷ hs) = last_line (p + length k + length v + 4) hs

pub after_lines-le : (hs : Headers) (p : ℕ) → p + 2 ≤ after_lines p hs
after_lines-le [] p = omega arith
after_lines-le ((k, v) ∷ hs) p = omega (arith, after_lines-le hs (p + length k + length v + 4))

-- Names with no colon, and neither names nor values with a line end.
abbrev pub ArePlain : Headers → Type 0
ArePlain [] = Unit {0}
ArePlain ((k, v) ∷ hs) = AllInert line_done k × AllInert vsr_stat v × ArePlain hs

-- The cache after the lines and the empty line.
abbrev pub finished : HeadCache → Headers → ℕ → HeadCache
finished hc hs p = record hc {
  status = head_done;
  kv_queue = hc.kv_queue ++ layout p hs;
  start = last_line p hs;
  allocs = hc.allocs + length hs;
}
