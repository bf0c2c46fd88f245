-- ===== src/Html.antt =====
-- `http_parse_html` of http_client.c: the chunked body, the body of known length, and the copy into
-- the page. Offsets and lengths are `uint32_t`. `calloc_ok` says for each allocation made here,
-- counted from 0 in `allocs`, whether it gives memory; `inflate_gzip` is an argument.
pub mod Chunks
pub mod Body
pub mod Ends
use crawler.Base.{
  ℕ, zero, suc, ◌+◌, ◌-◌, ◌*◌, Bool, true, false, ◌&&◌, ◌||◌, Option, none, some, List, [], ◌∷◌,
  ◌++◌, ◌==◌, ltb, leb, if◌then◌else◌, length, take, drop, replicate,
}
use crawler.Base.Word.{u32, add32}
use crawler.Buffer.{HttpBuf, base_range, create_temp_buf}
use crawler.Head.{KeyValue}

pub data LenStatus : Type 0 where
  len_done len_half : LenStatus

pub record HtmlCache : Type 0 where
  pub status : LenStatus
  pub html_start : ℕ
  pub start : ℕ
  pub chunk_sum : ℕ
  pub chunks : Option HttpBuf
  pub chunk_queue : List KeyValue
  pub html : Option HttpBuf
  pub allocs : ℕ

-- The default case of the switch: one more digit. A byte that is no digit is logged, and counts as 0.
unfoldable pub hex_digit : ℕ → ℕ
hex_digit c =
    if leb b'0' c && leb c b'9'
    then c - b'0'
    else if leb b'A' c && leb c b'F'
    then c - b'A' + 10
    else if leb b'a' c && leb c b'f'
    then c - b'a' + 10
    else 0

-- How the inner loop ends: at `b->last`, by `return -1`, or by `goto loop`.
pub data SizeLine : Type 0 where
  starved : ℕ → HtmlCache → SizeLine
  malformed : ℕ → HtmlCache → SizeLine
  size : ℕ → ℕ → HtmlCache → SizeLine

abbrev pub set_status : HtmlCache → LenStatus → HtmlCache
set_status mc s = record mc { status = s }

abbrev pub on_cr : LenStatus → ℕ → HtmlCache → (HtmlCache → SizeLine) → SizeLine
on_cr len_done pos mc loop = loop (set_status mc len_half)
on_cr len_half pos mc loop = malformed pos mc

abbrev pub on_lf : LenStatus → ℕ → ℕ → HtmlCache → (HtmlCache → SizeLine) → SizeLine
on_lf len_half pos chunk_len mc loop = size pos chunk_len (set_status mc len_done)
on_lf len_done pos chunk_len mc loop = loop mc

-- The inner loop; the list holds the bytes from `b->pos` up to `b->last`.
unfoldable pub size_line : List ℕ → ℕ → ℕ → HtmlCache → SizeLine
size_line [] pos chunk_len mc = starved pos mc
size_line (c ∷ cs) pos chunk_len mc =
    let loop = λ (n : ℕ) (mc' : HtmlCache). size_line cs (pos + 1) n mc' in
    if c == b' ' || c == b'\t'
    then loop chunk_len mc
    else if c == b'\r'
    then on_cr mc.status (pos + 1) mc (loop chunk_len)
    else if c == b'\n'
    then on_lf mc.status (pos + 1) chunk_len mc (loop chunk_len)
    else loop (u32 (chunk_len * 16 + hex_digit c)) mc

-- The part of `http_parse_html` before `if (mc->chunks)`: it goes on, returns 0 in the middle of a
-- size line, or returns -1, each with `b->pos`; or C does not say what it does.
pub data Parsed : Type 0 where
  fine : ℕ → HtmlCache → Parsed
  returned : ℕ → HtmlCache → Parsed
  wrong : ℕ → HtmlCache → Parsed
  overrun : Parsed
  exhausted : Parsed

abbrev pub both : Option (List ℕ) → Option (List ℕ) → Option (List ℕ)
both none _ = none
both (some xs) none = none
both (some xs) (some ys) = some (xs ++ ys)

-- The bytes of the chunks, in order: what the `memcpy` loop writes; `none` where a `memcpy` reads
-- beyond the memory of the receive buffer.
unfoldable pub joined : List ℕ → List KeyValue → Option (List ℕ)
joined mem [] = some []
joined mem (kv ∷ kvs) =
    both
      (if leb (kv.value + kv.value_len) (length mem)
        then some (take kv.value_len (drop kv.value mem))
        else none)
      (joined mem kvs)

abbrev pub copy_into : Option (List ℕ) → ℕ → HtmlCache → HttpBuf → Parsed
copy_into none pos mc b = overrun
copy_into (some bytes) pos mc b =
    if leb (length bytes) (length b.mem)
    then fine pos (record mc {
      chunks =
          some (record b { mem = bytes ++ drop (length bytes) b.mem; last = length bytes + 1 });
    })
    else overrun

-- The copy into `chunks`, a buffer of `chunk_sum` bytes; `last` is set behind the next byte.
abbrev pub fill : Option (List ℕ) → ℕ → HtmlCache → Option HttpBuf → Parsed
fill bytes pos mc none = wrong pos mc
fill bytes pos mc (some b) = copy_into bytes pos mc b

module _ (calloc_ok : ℕ → Bool) where
  -- `create_temp_buf`, which makes two allocations, or one if that fails.
  abbrev pub new_buf : HtmlCache → ℕ → Option HttpBuf
  new_buf mc n = create_temp_buf (calloc_ok mc.allocs) (calloc_ok (mc.allocs + 1)) n

  abbrev pub two_allocs : HtmlCache → HtmlCache
  two_allocs mc = record mc { allocs = mc.allocs + 2 }

  -- `chunk_len == 0`: the body is complete.
  unfoldable pub finish_chunks : List ℕ → ℕ → HtmlCache → Parsed
  finish_chunks mem pos mc =
      fill (joined mem mc.chunk_queue) pos (two_allocs mc) (new_buf mc mc.chunk_sum)

  -- A chunk of this length begins at `pos`.
  unfoldable pub add_chunk : ℕ → ℕ → HtmlCache → HtmlCache
  add_chunk pos chunk_len mc = record mc {
    chunk_queue =
        mc.chunk_queue
        ++ (record { key = 0; key_len = 0; value = u32 pos; value_len = chunk_len } ∷ []);
    start = u32 (pos + add32 chunk_len 2);
    chunk_sum = add32 mc.chunk_sum chunk_len;
    allocs = mc.allocs + 1;
  }

  abbrev pub after_size : List ℕ → (ℕ → HtmlCache → Parsed) → SizeLine → Parsed
  after_size mem loop (starved pos mc) = returned pos mc
  after_size mem loop (malformed pos mc) = wrong pos mc
  after_size mem loop (size pos chunk_len mc) =
      if chunk_len == 0
      then finish_chunks mem pos mc
      else if calloc_ok mc.allocs
      then loop (pos + add32 chunk_len 2) (add_chunk pos chunk_len mc)
      else wrong pos (record mc { allocs = mc.allocs + 1 })

  -- The outer loop over the chunks, with fuel. Every round moves `b->pos` on.
  unfoldable pub chunk_loop : ℕ → List ℕ → ℕ → ℕ → HtmlCache → Parsed
  chunk_loop zero mem last pos mc = exhausted
  chunk_loop (suc fuel) mem last pos mc =
      if ltb pos last
      then after_size mem (λ pos' mc'. chunk_loop fuel mem last pos' mc')
          (size_line (drop pos (take last mem)) pos 0 mc)
      else fine pos mc
