-- ===== src/Gzip.antt =====
-- `inflate_gzip` of http_client.c. zlib is a parameter: a stream, which holds its own state, and
-- calls that take the bytes not yet read and the room for the output.
pub mod Bounds
use crawler.Base.{
  ℕ, zero, suc, ◌+◌, ◌-◌, ◌<◌, ◌≤◌, ◌≡◌, refl, ◌∙◌, sym, ap, inl, inr, Option, none, some, List, [],
  ◌∷◌, ◌++◌, arith, ◌==◌, leb, if◌then◌else◌, length, take, drop, length-append, Option-cases,
  Bool-cases, true, false,
}
use crawler.Buffer.{HttpBuf, IsRealloc, resize_temp_buf, grown}
use crawler.Buffer.Grow.{IsSound, resize_temp_buf-IsSound}

pub data ZRet : Type 0 where
  z_need_dict z_data_error z_mem_error z_other : ZRet

pub record Inflated (Stream : Type 0) : Type 0 where
  pub ret : ZRet
  pub out : List ℕ
  pub stream : Stream
  pub unread : List ℕ

pub record Zlib : Type 1 where
  pub Stream : Type 0
  pub inflate_init2 : ℕ → Option Stream
  pub inflate : Stream → List ℕ → ℕ → Inflated Stream

-- What zlib documents: no more output than there is room for, and an end of it. `left` is a bound on
-- the output still to come.
pub record IsZlib (z : Zlib) : Type 0 where
  pub fits : (s : z.Stream) (i : List ℕ) (n : ℕ) → length (z.inflate s i n).out ≤ n
  pub left : z.Stream → List ℕ → ℕ
  pub falls :
      (s : z.Stream) (i : List ℕ) (n : ℕ)
      → length (z.inflate s i n).out + left (z.inflate s i n).stream (z.inflate s i n).unread
        ≤ left s i

-- The memory with bytes stored from `last` on.
abbrev pub write_at : List ℕ → ℕ → List ℕ → List ℕ
write_at mem last bytes = take last mem ++ (bytes ++ drop (last + length bytes) mem)

abbrev pub store : HttpBuf → List ℕ → HttpBuf
store b bytes = record b { mem = write_at b.mem b.last bytes; last = b.last + length bytes }

-- Bytes stored at `last`; `none` where they go past the end of the memory.
abbrev pub stores : HttpBuf → List ℕ → Option HttpBuf
stores b bytes = if leb (b.last + length bytes) (length b.mem) then some (store b bytes) else none

-- 0 is returned, or -1; `overran` where a byte is stored past the end of the memory.
pub data Inflation : Type 0 where
  inflated : HttpBuf → Inflation
  broken : HttpBuf → Inflation
  overran : Inflation
  endless : Inflation

-- The NUL behind the page.
abbrev pub end_page : Option HttpBuf → Inflation
end_page none = overran
end_page (some b) = inflated b

abbrev pub put_nul : HttpBuf → Inflation
put_nul b = end_page (stores b (0 ∷ []))

abbrev pub or_same : HttpBuf → Option HttpBuf → HttpBuf
or_same b none = b
or_same b (some b') = b'

module _ (z : Zlib) (realloc : List ℕ → ℕ → Option (List ℕ)) where
  -- `if (dest->last >= dest->end) resize_temp_buf(dest)`, its result not looked at.
  abbrev pub make_room : HttpBuf → HttpBuf
  make_room b = if leb (length b.mem) b.last then or_same b (resize_temp_buf realloc b) else b

  abbrev pub on_full : HttpBuf → (HttpBuf → Inflation) → Option HttpBuf → Inflation
  on_full b loop none = broken b
  on_full b loop (some b') = loop b'

  abbrev pub on_stored : ℕ → List ℕ → (HttpBuf → Inflation) → Option HttpBuf → Inflation
  on_stored n out loop none = overran
  on_stored n out loop (some b) =
      if length out == n then on_full b loop (resize_temp_buf realloc b) else put_nul (make_room b)

  -- After a call of `inflate` with room `n`.
  abbrev pub on_ret : ZRet → ℕ → List ℕ → HttpBuf → (HttpBuf → Inflation) → Inflation
  on_ret z_other n out b loop = on_stored n out loop (stores b out)
  on_ret _ n out b loop = broken b

  -- The `do … while (strm.avail_out == 0)` loop, with fuel.
  unfoldable pub inflate_loop : ℕ → z.Stream → List ℕ → HttpBuf → Inflation
  inflate_loop zero s input b = endless
  inflate_loop (suc fuel) s input b =
      let r = z.inflate s input (length b.mem - b.last) in
      on_ret r.ret (length b.mem - b.last) r.out b (λ b'. inflate_loop fuel r.stream r.unread b')

  abbrev pub with_stream : ℕ → List ℕ → HttpBuf → Option z.Stream → Inflation
  with_stream fuel input dest none = broken dest
  with_stream fuel input dest (some s) = inflate_loop fuel s input dest

  unfoldable pub inflate_gzip : ℕ → HttpBuf → HttpBuf → ℕ → Inflation
  inflate_gzip fuel source dest windowbits =
      with_stream fuel (take source.last source.mem) dest (z.inflate_init2 windowbits)
