-- ===== src/Buffer.antt =====
-- `http_buf_t` of http_client.h and its operations in http_client.c. The four pointers are the
-- memory from `start` to `end`, and `pos` and `last` as offsets from `start`.
pub mod Grow
use crawler.Base.{
  ℕ, ◌+◌, ◌*◌, ◌<◌, ◌≤◌, ◌≡◌, Bool, Option, none, some, List, leb, if◌then◌else◌, length, take,
  replicate,
}

pub record HttpBuf : Type 0 where
  pub mem : List ℕ
  pub pos : ℕ
  pub last : ℕ

abbrev pub base_range : ℕ
base_range = 4096

-- The two arguments say whether the two calls of `calloc` give memory.
unfoldable pub create_temp_buf : Bool → Bool → ℕ → Option HttpBuf
create_temp_buf struct_ok bytes_ok size =
    if struct_ok
    then if bytes_ok then some (record { mem = replicate size 0; pos = 0; last = 0 }) else none
    else none

-- `new_range`.
unfoldable pub grown : ℕ → ℕ
grown old_range = if leb old_range (32 * base_range) then old_range * 2 else old_range + base_range

-- `realloc` gives memory of the new size that begins with the old contents, or none.
pub record IsRealloc (realloc : List ℕ → ℕ → Option (List ℕ)) : Type 0 where
  pub has_size : (mem mem' : List ℕ) (n : ℕ) → realloc mem n ≡ some mem' → length mem' ≡ n
  pub keeps :
      (mem mem' : List ℕ) (n k : ℕ)
      → realloc mem n ≡ some mem'
      → k ≤ length mem
      → k ≤ n
      → take k mem' ≡ take k mem

module _ (realloc : List ℕ → ℕ → Option (List ℕ)) where
  unfoldable pub resize_temp_buf : HttpBuf → Option HttpBuf
  unfolding grown
  resize_temp_buf b = elim (realloc b.mem (grown (length b.mem))) [
    | none ↦ none
    | some mem ↦ some (record b { mem = mem })
  ]
