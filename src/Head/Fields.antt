-- ===== src/Head/Fields.antt =====
-- `http_parse_head` of http_client.c from the label `parsed`: the status is compared with "200", and
-- three headers are looked for. The texts are copied into `kbuf` and `vbuf`, arrays of 1024 bytes on
-- the stack, by `strncpy` with the length of the field; `none` is a write past such an array, or a
-- text in it with no NUL.
use crawler.Base.{
  ℕ, ◌+◌, ◌*◌, ◌-◌, Bool, true, false, ◌&&◌, ◌||◌, Option, none, some, List, [], ◌∷◌, ◌==◌, ltb,
  leb, if◌then◌else◌, length, take, drop,
}
use Prim.Native.Char.{code}
use Prim.Native.String.{String}
use crawler.Base.Word.{u32, sub32}
use crawler.Head.{KeyValue, HeadCache}

abbrev pub codes : String → List ℕ
codes String.[] = []
codes (String.◌∷◌ c s) = code c ∷ codes s

-- The bytes of a C string, up to its NUL.
unfoldable pub cstr : List ℕ → List ℕ
cstr [] = []
cstr (c ∷ cs) = if c == 0 then [] else c ∷ cstr cs

-- `!strcmp(a, b)` on the bytes before the NUL.
unfoldable pub equal : List ℕ → List ℕ → Bool
equal [] [] = true
equal (a ∷ as') (b ∷ bs) = a == b && equal as' bs
equal _ _ = false

-- `memset(buf, 0, 1024); strncpy(buf, b->start + off, len)`, read back as a string.
unfoldable pub field : List ℕ → ℕ → ℕ → Option (List ℕ)
unfolding cstr
field mem off len =
    let s = cstr (take len (drop off mem)) in
    if ltb 1024 len then none else if ltb (length s) 1024 then some s else none

is_space : ℕ → Bool
is_space c = c == b' ' || leb 9 c && leb c 13

digits_from : ℕ → List ℕ → ℕ
digits_from acc [] = acc
digits_from acc (c ∷ cs) =
    let rest = digits_from (10 * acc + (c - b'0')) cs in
    if leb b'0' c && leb c b'9' then rest else acc

signed : List ℕ → ℕ
unfolding digits_from
signed [] = 0
signed (c ∷ cs) =
    if c == b'-'
    then sub32 0 (digits_from 0 cs)
    else if c == b'+'
    then u32 (digits_from 0 cs)
    else u32 (digits_from 0 (c ∷ cs))

-- `atoi`, stored in a `uint32_t`; C leaves it open for a number that is no `int`.
unfoldable pub atoi : List ℕ → ℕ
unfolding is_space signed
atoi [] = 0
atoi (c ∷ cs) = let rest = atoi cs in if is_space c then rest else signed (c ∷ cs)

-- The body of the loop over `kv_queue`, on the two texts.
unfoldable pub note_header : List ℕ → List ℕ → HeadCache → HeadCache
note_header k v hc = record hc {
  content_len = if equal (codes "Content-Length") k then atoi v else hc.content_len;
  chunk_flag =
      if equal (codes "Transfer-Encoding") k && equal (codes "chunked") v
      then true
      else hc.chunk_flag;
  gzip_flag =
      if equal (codes "Content-Encoding") k && equal (codes "gzip") v then true else hc.gzip_flag;
}

infixl 5 ◌>>=◌
abbrev pub ◌>>=◌ {ℓ κ} : {A : Type ℓ} {B : Type κ} → Option A → (A → Option B) → Option B
none >>= f = none
some a >>= f = f a

unfoldable pub read_headers : List ℕ → List KeyValue → HeadCache → Option HeadCache
read_headers mem [] hc = some hc
read_headers mem (kv ∷ kvs) hc = do
  k ← field mem kv.key kv.key_len
  v ← field mem kv.value kv.value_len
  read_headers mem kvs (note_header k v hc)

-- How `http_parse_head` returns: 0, -1, or not at all as C has it.
pub data Verdict : Type 0 where
  accepted : HeadCache → Verdict
  rejected : HeadCache → Verdict
  overrun : Verdict

abbrev pub read_or_overrun : Option HeadCache → Verdict
read_or_overrun none = overrun
read_or_overrun (some hc) = accepted hc

abbrev pub on_status : List ℕ → HeadCache → Option (List ℕ) → Verdict
on_status mem hc none = overrun
on_status mem hc (some s) =
    if equal (codes "200") s then read_or_overrun (read_headers mem hc.kv_queue hc) else rejected hc

unfoldable pub finish_head : List ℕ → HeadCache → Verdict
finish_head mem hc = on_status mem hc (field mem hc.vsr.status hc.vsr.status_len)
