-- ===== src/Gzip/Bounds.antt =====
-- `inflate_gzip`: where it writes, and its rounds.
use crawler.Base.{
  ℕ, ◌+◌, ◌<◌, ◌≤◌, ◌≡◌, refl, some, List, ◌++◌, arith, leb, length, take, drop, length-append,
  length-take, length-drop, true,
}
use crawler.Buffer.{HttpBuf}
use crawler.Gzip.{write_at, Inflation, inflated, broken, overran, endless, store, stores}

pub length-write_at :
    (mem : List ℕ) (last : ℕ) (bytes : List ℕ)
    → last + length bytes ≤ length mem
    → length (write_at mem last bytes) ≡ length mem
length-write_at mem last bytes h = omega (
  arith,
  length-append (take last mem) (bytes ++ drop (last + length bytes) mem),
  length-append bytes (drop (last + length bytes) mem),
  length-take last mem,
  length-drop (last + length bytes) mem,
)

-- Bytes for which there is room are stored.
pub stores-room :
    (b : HttpBuf) (bytes : List ℕ)
    → b.last + length bytes ≤ length b.mem
    → stores b bytes ≡ some (store b bytes)
stores-room b bytes h =
    let fits : leb (b.last + length bytes) (length b.mem) ≡ true = ground arith in rw fits refl

-- The end of the loop: with a page and its NUL in the buffer, or with an error; never with a byte
-- stored past the end of the memory, and never out of rounds.
abbrev pub EndsWithin : Inflation → Type 0
EndsWithin (inflated b) = (0 < b.last) × (b.last ≤ length b.mem)
EndsWithin (broken b) = Unit {0}
EndsWithin overran = ⊥
EndsWithin endless = ⊥
