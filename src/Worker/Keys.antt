-- ===== src/Worker/Keys.antt =====
-- The names of the queues in html_parser.c and process_cycle.c: `url_list_%d`.
use native.Mathlib.Nat.{pow-suc}
use crawler.Base.{
  ℕ, zero, suc, ◌+◌, ◌-◌, ◌*◌, ◌/◌, ◌%◌, ◌^◌, ◌<◌, ◌≡◌, sym, ap, ◌∙◌, inl, inr, List, [], ◌∷◌, ◌++◌,
  ltb, drop, Bool-cases, arith,
}
use crawler.Head.Fields.{codes}
use crawler.Parser.Links.{decimal_before, list_key}

-- The number that a text of digits stands for, behind the digits of n.
abbrev value_from : ℕ → List ℕ → ℕ
value_from n [] = n
value_from n (c ∷ cs) = value_from (10 * n + (c - 48)) cs

decimal_before-value :
    (k n : ℕ) (rest : List ℕ)
    → n < 10 ^ k
    → value_from 0 (decimal_before k n rest) ≡ value_from n rest
unfolding decimal_before
decimal_before-value zero n rest few = let e : 0 ≡ n = omega arith in ap (λ m. value_from m rest) e
decimal_before-value (suc k) n rest few = elim (Bool-cases (ltb n 10)) [
  | inl small ↦
      let e : 10 * 0 + (48 + n % 10 - 48) ≡ n = ground arith in
      rw small (ap (λ m. value_from m rest) e)
  | inr big ↦
      let e : 10 * (n / 10) + (48 + n % 10 - 48) ≡ n = omega arith in
      let fewer : n / 10 < 10 ^ k = omega (arith, pow-suc 10 k) in
      rw big (
        decimal_before-value k (n / 10) ((48 + n % 10) ∷ rest) fewer
        ∙ ap (λ m. value_from m rest) e)
]

prefix_eq : (xs ys : List ℕ) → codes "url_list_" ++ xs ≡ codes "url_list_" ++ ys → xs ≡ ys
prefix_eq xs ys h = ap (λ l. drop 9 l) h

-- Workers of different numbers have different queues.
pub list_key_inj : (m n : ℕ) → m < 10 ^ 10 → n < 10 ^ 10 → list_key m ≡ list_key n → m ≡ n
unfolding list_key
list_key_inj m n hm hn h =
    let same = prefix_eq (decimal_before 10 m []) (decimal_before 10 n []) h in
    sym (decimal_before-value 10 m [] hm) ∙ ap (value_from 0) same ∙ decimal_before-value 10 n [] hn
