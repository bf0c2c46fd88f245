-- ===== src/Pool/Chain.antt =====
-- The free list as a list, for the proofs about connection.c.
use crawler.Base.{
  ℕ, zero, suc, ◌+◌, ◌≡◌, refl, inl, inr, Bool, true, false, not, ◌&&◌, ◌||◌, List, [], ◌∷◌, arith,
  if◌then◌else◌, ◌==◌, ltb, Bool-cases,
}
use crawler.Net.{Ptr, null, to_conn, Conn}
use crawler.Epoll.Dispatch.{is_open}

abbrev pub mem : ℕ → List ℕ → Bool
mem i [] = false
mem i (j ∷ l) = j == i || mem i l

abbrev pub distinct : List ℕ → Bool
distinct [] = true
distinct (i ∷ l) = not (mem i l) && distinct l

-- Following the pointers from p gives the list.
abbrev pub Chain : (ℕ → Conn) → Ptr → List ℕ → Type 0
Chain c p [] = p ≡ null
Chain c p (i ∷ l) = (p ≡ to_conn i) × Chain c (c i).data_ptr l

-- The number of open connections below n.
abbrev pub used : (ℕ → Conn) → ℕ → ℕ
used c zero = 0
used c (suc n) = (if is_open (c n).fd then 1 else 0) + used c n

abbrev pub put : (ℕ → Conn) → ℕ → Conn → ℕ → Conn
put c i v j = if i == j then v else c j

-- Changing a connection outside of the list leaves the chain.
pub Chain-put :
    (c : ℕ → Conn) (p : Ptr) (l : List ℕ) (i : ℕ) (v : Conn)
    → mem i l ≡ false
    → Chain c p l
    → Chain (put c i v) p l
Chain-put c p [] i v m h = h
Chain-put c p (j ∷ l) i v m (h, r) =
    let other : (i == j) ≡ false = ground arith in
    (h, rw other (Chain-put c (c j).data_ptr l i v (ground arith) r))

pub used-put_same :
    (c : ℕ → Conn) (n i : ℕ) (v : Conn)
    → is_open v.fd ≡ is_open (c i).fd
    → used (put c i v) n ≡ used c n
used-put_same c zero i v h = refl
used-put_same c (suc n) i v h = ground (arith, used-put_same c n i v h)

used-put_above :
    (c : ℕ → Conn) (n i : ℕ) (v : Conn) → ltb i n ≡ false → used (put c i v) n ≡ used c n
used-put_above c zero i v h = refl
used-put_above c (suc n) i v h = ground (arith, used-put_above c n i v (ground arith))

-- Opening a closed connection adds 1.
pub used-put_open :
    (c : ℕ → Conn) (n i : ℕ) (v : Conn)
    → ltb i n ≡ true
    → is_open v.fd ≡ true
    → is_open (c i).fd ≡ false
    → used (put c i v) n ≡ suc (used c n)
used-put_open c zero i v b o h = ground arith
used-put_open c (suc n) i v b o h = elim (Bool-cases (i == n)) [
  | inl same ↦ ground (arith, used-put_above c n i v (ground arith))
  | inr other ↦ ground (arith, used-put_open c n i v (ground arith) o h)
]

-- Closing an open one takes 1 away.
pub used-put_closed :
    (c : ℕ → Conn) (n i : ℕ) (v : Conn)
    → ltb i n ≡ true
    → is_open v.fd ≡ false
    → is_open (c i).fd ≡ true
    → suc (used (put c i v) n) ≡ used c n
used-put_closed c zero i v b o h = ground arith
used-put_closed c (suc n) i v b o h = elim (Bool-cases (i == n)) [
  | inl same ↦ ground (arith, used-put_above c n i v (ground arith))
  | inr other ↦ ground (arith, used-put_closed c n i v (ground arith) o h)
]
