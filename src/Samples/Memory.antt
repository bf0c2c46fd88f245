-- ===== src/Samples/Memory.antt =====
-- `realloc`, and a zlib whose compressed form of a text is the text itself.
use crawler.Base.{
  ℕ, zero, suc, ◌+◌, ◌-◌, ◌≤◌, ◌≡◌, refl, sym, ap, ◌∙◌, Option, none, some, List, [], ◌∷◌, ◌++◌,
  arith, length, take, drop, replicate, length-append, length-replicate,
}
use crawler.Buffer.{IsRealloc}
use crawler.Socket.Receive.{Gives}
use crawler.Gzip.{z_other, Zlib, IsZlib}

abbrev pub moved : List ℕ → ℕ → Option (List ℕ)
moved mem n = some (take n mem ++ replicate (n - length mem) 0)

take-keeps :
    (mem rest : List ℕ) (n k : ℕ)
    → k ≤ length mem
    → k ≤ n
    → take k (take n mem ++ rest) ≡ take k mem
take-keeps mem rest n zero h g = refl
take-keeps [] rest n (suc k) h g = absurd (omega arith)
take-keeps (c ∷ mem) rest zero (suc k) h g = absurd (omega arith)
take-keeps (c ∷ mem) rest (suc n) (suc k) h g =
    ap (λ l. c ∷ l) (take-keeps mem rest n k (omega arith) (omega arith))

pub take-le : (n : ℕ) (xs : List ℕ) → length (take n xs) ≤ n
take-le zero xs = omega arith
take-le (suc n) [] = omega arith
take-le (suc n) (x ∷ xs) = omega (arith, take-le n xs)

pub take-drop-length : (n : ℕ) (xs : List ℕ) → length (take n xs) + length (drop n xs) ≡ length xs
take-drop-length zero xs = omega arith
take-drop-length (suc n) [] = omega arith
take-drop-length (suc n) (x ∷ xs) = omega (arith, take-drop-length n xs)

length-take_short : (n : ℕ) (xs : List ℕ) → length (take n xs) + (n - length xs) ≡ n
length-take_short zero xs = omega arith
length-take_short (suc n) [] = omega arith
length-take_short (suc n) (x ∷ xs) = omega (arith, length-take_short n xs)

moved-size : (mem : List ℕ) (n : ℕ) → length (take n mem ++ replicate (n - length mem) 0) ≡ n
moved-size mem n = ground (
  arith,
  length-append (take n mem) (replicate (n - length mem) 0),
  length-take_short n mem,
  length-replicate {A = ℕ} (n - length mem) 0,
)

or_nil : Option (List ℕ) → List ℕ
or_nil none = []
or_nil (some l) = l

pub moved-IsRealloc : IsRealloc moved
unfolding or_nil
moved-IsRealloc = record {
  has_size = λ mem mem' n e. ap (λ o. length (or_nil o)) (sym e) ∙ moved-size mem n;
  keeps = λ mem mem' n k e h g. ap (λ o. take k (or_nil o)) (sym e) ∙ take-keeps mem _ n k h g;
}

abbrev pub plain_zlib : Zlib
plain_zlib = record {
  Stream = Unit {0};
  inflate_init2 = λ bits. some tt;
  inflate =
      λ s input n. record { ret = z_other; out = take n input; stream = tt; unread = drop n input };
}

unfoldable pub plain_zlib-IsZlib : IsZlib plain_zlib
plain_zlib-IsZlib = record {
  fits = λ s i n. take-le n i;
  left = λ s i. length i;
  falls = λ s i n. omega (arith, take-drop-length n i);
}

pub moved-Gives : Gives moved
moved-Gives mem n = (_, refl)
