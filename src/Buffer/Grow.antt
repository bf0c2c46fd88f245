-- ===== src/Buffer/Grow.antt =====
-- `resize_temp_buf`, and what it keeps.
use crawler.Base.{ℕ, ◌<◌, ◌≤◌, ◌≡◌, inl, inr, Option, some, List, arith, length, take, Option-cases}
use crawler.Buffer.{HttpBuf, grown, IsRealloc, resize_temp_buf}

pub grown-lt : (n : ℕ) → 0 < n → n < grown n
unfolding grown
grown-lt n h = ground arith

-- The filled part lies within the memory.
abbrev pub IsSound : HttpBuf → Type 0
IsSound b = b.last ≤ length b.mem

module _ (realloc : List ℕ → ℕ → Option (List ℕ)) (r : IsRealloc realloc) where
  -- A resized buffer has room behind `last`, and the bytes before it are the same, as are `pos` and
  -- `last`.
  pub resize_temp_buf-IsSound :
      (b b' : HttpBuf)
      → IsSound b
      → 0 < length b.mem
      → resize_temp_buf realloc b ≡ some b'
      → (b'.last < length b'.mem)
        × (take b'.last b'.mem ≡ take b.last b.mem)
        × (b'.pos ≡ b.pos)
        × (b'.last ≡ b.last)
  unfolding resize_temp_buf
  resize_temp_buf-IsSound b b' s h e = elim (Option-cases (realloc b.mem (grown (length b.mem)))) [
    | inl f ↦ ground arith
    | inr (mem, f) ↦
        ground
          (arith, grown-lt (length b.mem), r.has_size b.mem mem _ f, r.keeps b.mem mem _ b.last f)
  ]
