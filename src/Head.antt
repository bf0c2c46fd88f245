-- ===== src/Head.antt =====
-- `http_parse_head` of http_client.c, the byte loop: the status line and the header lines of a
-- response, read from the receive buffer. Offsets are relative to `b->start` and are `uint32_t`.
-- The queue of `key_value_t` is the list of its entries, oldest first; a pointer to an entry is its
-- index. `calloc_ok` says for each allocation, counted from 0, whether `calloc` gives memory.
pub mod Resume
pub mod Fields
pub mod Equal
pub mod Meaning
pub mod Print
pub mod Steps
pub mod Values
pub mod Lines
pub mod StatusLine
pub mod Texts
use crawler.Base.{
  ℕ, suc, ◌+◌, ◌-◌, Bool, Option, none, some, List, [], ◌∷◌, ◌++◌, ◌==◌, if◌then◌else◌, length,
}
use crawler.Base.Word.{u32, sub32}

pub data HeadStatus : Type 0 where
  vsr_start vsr_ver vsr_stat vsr_reas line_done line_half key_done head_half head_done : HeadStatus

pub record HttpVsr : Type 0 where
  pub version : ℕ
  pub version_len : ℕ
  pub status : ℕ
  pub status_len : ℕ
  pub reason : ℕ
  pub reason_len : ℕ

pub record KeyValue : Type 0 where
  pub key : ℕ
  pub key_len : ℕ
  pub value : ℕ
  pub value_len : ℕ

-- `has_vsr` says whether the pointer `vsr` is set.
pub record HeadCache : Type 0 where
  pub status : HeadStatus
  pub has_vsr : Bool
  pub vsr : HttpVsr
  pub start : ℕ
  pub kv_queue : List KeyValue
  pub content_len : ℕ
  pub gzip_flag : Bool
  pub chunk_flag : Bool
  pub allocs : ℕ

-- What one byte does: the loop goes on with the cache and the local `kv`, fails, or jumps to `parsed`.
pub data Step : Type 0 where
  next : HeadCache → Option ℕ → Step
  failed : HeadCache → Step
  parsed : HeadCache → Step

-- How a call of the loop ends, with `b->pos`.
pub data Scan : Type 0 where
  more : ℕ → HeadCache → Scan
  refused : ℕ → HeadCache → Scan
  complete : ℕ → HeadCache → Scan

abbrev pub set_value : List KeyValue → ℕ → ℕ → ℕ → List KeyValue
set_value [] i v n = []
set_value (kv ∷ kvs) ℕ.zero v n = record kv { value = v; value_len = n } ∷ kvs
set_value (kv ∷ kvs) (suc i) v n = kv ∷ set_value kvs i v n

-- `case ' '`; `p` is `b->pos - b->start` after the byte.
unfoldable pub on_space : HeadStatus → ℕ → HeadCache → Option ℕ → Step
on_space vsr_start p hc kv =
    next
      (record hc {
        vsr = record (hc.vsr) { version = hc.start; version_len = sub32 (p - 1) hc.start };
        status = vsr_ver;
        start = u32 p;
      })
      kv
on_space vsr_ver p hc kv =
    next
      (record hc {
        vsr = record (hc.vsr) { status = hc.start; status_len = sub32 (p - 1) hc.start };
        status = vsr_stat;
        start = u32 p;
      })
      kv
on_space key_done p hc kv = next (record hc { start = u32 p }) kv
on_space _ p hc kv = next hc kv

-- `queue_last`, if the queue is not empty.
abbrev pub last_index : List KeyValue → Option ℕ
last_index [] = none
last_index (kv ∷ kvs) = some (length kvs)

abbrev pub current : Option ℕ → List KeyValue → Option ℕ
current none kvs = last_index kvs
current (some i) kvs = some i

-- `case '\r'` in `KEY_DONE`, once the entry is known.
abbrev pub end_value : Option ℕ → ℕ → HeadCache → Step
end_value none p hc = failed (record hc { status = line_half })
end_value (some i) p hc =
    next
      (record hc {
        status = line_half;
        kv_queue = set_value hc.kv_queue i hc.start (sub32 (p - 1) hc.start);
      })
      none

unfoldable pub on_return : HeadStatus → ℕ → HeadCache → Option ℕ → Step
on_return key_done p hc kv = end_value (current kv hc.kv_queue) p hc
on_return line_done p hc kv = next (record hc { status = head_half }) kv
on_return vsr_stat p hc kv =
    next
      (record hc {
        vsr = record (hc.vsr) { reason = hc.start; reason_len = sub32 (p - 1) hc.start };
        status = vsr_reas;
        start = u32 p;
      })
      kv
on_return _ p hc kv = failed hc

unfoldable pub on_newline : HeadStatus → ℕ → HeadCache → Option ℕ → Step
on_newline line_half p hc kv = next (record hc { status = line_done; start = u32 p }) kv
on_newline head_half p hc kv = parsed (record hc { status = head_done })
on_newline vsr_reas p hc kv = next (record hc { status = line_done; start = u32 p }) kv
on_newline _ p hc kv = failed hc

-- The end of one round of the loop, at `b->pos`.
abbrev pub proceed : Step → ℕ → (HeadCache → Option ℕ → Scan) → Scan
proceed (next hc kv) pos loop = loop hc kv
proceed (failed hc) pos loop = refused pos hc
proceed (parsed hc) pos loop = complete pos hc

module _ (calloc_ok : ℕ → Bool) where
  -- `case ':'`.
  unfoldable pub on_colon : HeadStatus → ℕ → HeadCache → Option ℕ → Step
  on_colon line_done p hc kv =
      if calloc_ok hc.allocs
      then next
          (record hc {
            status = key_done;
            kv_queue =
                hc.kv_queue
                ++ (record {
                  key = hc.start;
                  key_len = sub32 (p - 1) hc.start;
                  value = 0;
                  value_len = 0;
                }
                    ∷ []);
            start = u32 p;
            allocs = hc.allocs + 1;
          })
          (some (length hc.kv_queue))
      else failed (record hc { status = key_done; allocs = hc.allocs + 1 })
  on_colon _ p hc kv = next hc kv

  unfoldable pub step : ℕ → ℕ → HeadCache → Option ℕ → Step
  unfolding on_space on_colon on_return on_newline
  step c p hc kv =
      if c == b' '
      then on_space hc.status p hc kv
      else if c == b':'
      then on_colon hc.status p hc kv
      else if c == b'\r'
      then on_return hc.status p hc kv
      else if c == b'\n'
      then on_newline hc.status p hc kv
      else next hc kv

  -- `while (b->pos < b->last)`; the list holds the bytes from `b->pos` up to `b->last`.
  unfoldable pub scan : List ℕ → ℕ → HeadCache → Option ℕ → Scan
  scan [] pos hc kv = more pos hc
  scan (c ∷ cs) pos hc kv =
      proceed (step c (pos + 1) hc kv) (pos + 1) (λ hc' kv'. scan cs (pos + 1) hc' kv')
