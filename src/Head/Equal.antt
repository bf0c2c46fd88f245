-- ===== src/Head/Equal.antt =====
-- `strcmp` of http_client.c and others, as a test of equality.
use crawler.Base.{ℕ, ◌≡◌, refl, Bool, true, false, ◌&&◌, List, [], ◌∷◌, ◌==◌, ==_iff, arith}
use crawler.Head.Fields.{equal}

both_true : (a b : Bool) → (a && b) ≡ true → (a ≡ true) × (b ≡ true)
both_true true b h = (refl, h)
both_true false b h = ground arith

pub equal-eq : (a b : List ℕ) → equal a b ≡ true → a ≡ b
unfolding equal
equal-eq [] [] h = refl
equal-eq [] (b ∷ bs) h = ground arith
equal-eq (a ∷ as') [] h = ground arith
equal-eq (a ∷ as') (b ∷ bs) h =
    let (first, others) = both_true (a == b) (equal as' bs) h in
    rw ((==_iff a b).0 first, equal-eq as' bs others) refl

pub equal_refl : (s : List ℕ) → equal s s ≡ true
unfolding equal
equal_refl [] = refl
equal_refl (c ∷ s) = ground (arith, equal_refl s)
