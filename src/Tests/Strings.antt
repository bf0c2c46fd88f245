-- ===== src/Tests/Strings.antt =====
-- The bloom filter on a small server.
use crawler.Base.{ℕ, ◌+◌, ◌≡◌, refl, Bool, true, false, List, [], ◌∷◌, length}
use crawler.Bloom.{seen, check_failed, bloom_set, bloom_check}
use crawler.Bloom.Member.{put_all, bloom_check-bloom_set}
use crawler.Bloom.Errors.{bloom_set_refused}
use crawler.Samples.BitServer.{bit_server, bit_server-IsRedis, bit_server-Answers, error_server}

abbrev pub weigh : List ℕ → ℕ → ℕ
weigh str seed = length str + seed

abbrev pub no_bit : ℕ → Bool
no_bit g = false

abbrev both_in : ℕ → Bool
both_in =
    put_all bit_server bit_server-IsRedis bit_server-Answers weigh ((1 ∷ []) ∷ [])
      (bloom_set bit_server weigh (7 ∷ 8 ∷ []) no_bit).1

bloom_check-bloom_set_example :
    ((bloom_set bit_server weigh (7 ∷ 8 ∷ []) no_bit).0 ≡ true)
    × (bloom_check bit_server weigh (7 ∷ 8 ∷ []) both_in ≡ (seen, both_in))
bloom_check-bloom_set_example =
    bloom_check-bloom_set bit_server bit_server-IsRedis bit_server-Answers weigh (7 ∷ 8 ∷ [])
      ((1 ∷ []) ∷ []) no_bit

bloom_set_refused_example :
    (bloom_set error_server weigh (7 ∷ []) no_bit ≡ (true, no_bit))
    × (bloom_check error_server weigh (7 ∷ []) no_bit ≡ (check_failed, no_bit))
bloom_set_refused_example = bloom_set_refused error_server weigh (7 ∷ []) no_bit (λ c. refl)
