-- ===== src/Head/Meaning.antt =====
-- What the headers mean, read off the list of names and values at once.
use mathlib.Core.Option
use crawler.Base.{
  ℕ, Bool, false, ◌&&◌, ◌||◌, Option, none, some, List, [], ◌∷◌, ◌≡◌, refl, sym, ap, ◌∙◌, arith,
  if◌then◌else◌, ◌+◌, leb, length, take, drop,
}
use crawler.Head.{KeyValue, HeadCache}
use crawler.Head.Fields.{codes, cstr, equal, field, atoi, note_header, read_headers, ◌>>=◌}

-- Names and values as texts; `none` if one of them does not fit the arrays.
unfoldable pub texts : List ℕ → List KeyValue → Option (List (List ℕ × List ℕ))
texts mem [] = some []
texts mem (kv ∷ kvs) = do
  k ← field mem kv.key kv.key_len
  v ← field mem kv.value kv.value_len
  Option.map (λ hs. (k, v) ∷ hs) (texts mem kvs)

abbrev pub Headers : Type 0
Headers = List (List ℕ × List ℕ)

-- Some header is exactly this one.
unfoldable pub has : List ℕ → List ℕ → Headers → Bool
has name value [] = false
has name value ((k, v) ∷ hs) = equal name k && equal value v || has name value hs

-- The value of the last header of this name, read by `f`.
unfoldable pub last_of : List ℕ → (List ℕ → ℕ) → ℕ → Headers → ℕ
last_of name f default [] = default
last_of name f default ((k, v) ∷ hs) = last_of name f (if equal name k then f v else default) hs

unfoldable pub summary : HeadCache → Headers → HeadCache
summary hc hs = record hc {
  content_len = last_of (codes "Content-Length") atoi hc.content_len hs;
  chunk_flag = hc.chunk_flag || has (codes "Transfer-Encoding") (codes "chunked") hs;
  gzip_flag = hc.gzip_flag || has (codes "Content-Encoding") (codes "gzip") hs;
}

summary-nil : (hc : HeadCache) → summary hc [] ≡ hc
unfolding summary has last_of
summary-nil hc = ground arith

summary-cons :
    (hc : HeadCache) (k v : List ℕ) (hs : Headers)
    → summary (note_header k v hc) hs ≡ summary hc ((k, v) ∷ hs)
unfolding summary has last_of note_header
summary-cons hc k v hs = ground arith

read_cons :
    (k? v? : Option (List ℕ)) (rest : List ℕ → List ℕ → Option HeadCache) (ts : Option Headers)
    (hc : HeadCache)
    → ((k v : List ℕ) → rest k v ≡ Option.map (summary (note_header k v hc)) ts)
    → (k? >>= λ k. v? >>= λ v. rest k v)
      ≡ Option.map (summary hc) (k? >>= λ k. v? >>= λ v. Option.map (λ hs. (k, v) ∷ hs) ts)
read_cons none v? rest ts hc h = refl
read_cons (some k) none rest ts hc h = refl
read_cons (some k) (some v) rest none hc h = h k v
read_cons (some k) (some v) rest (some hs) hc h = h k v ∙ ap some (summary-cons hc k v hs)

-- The text of a field, which ends at its length or at a NUL, if the length is at most 1024 and the
-- text leaves room for a NUL in 1024 bytes.
abbrev pub text_at : List ℕ → ℕ → ℕ → Option (List ℕ)
text_at mem off len =
    let s = cstr (take len (drop off mem)) in
    if leb len 1024 && leb (length s + 1) 1024 then some s else none

unfoldable pub fitting_texts : List ℕ → List KeyValue → Option Headers
fitting_texts mem [] = some []
fitting_texts mem (kv ∷ kvs) = do
  k ← text_at mem kv.key kv.key_len
  v ← text_at mem kv.value kv.value_len
  Option.map (λ hs. (k, v) ∷ hs) (fitting_texts mem kvs)

field-text_at : (mem : List ℕ) (off len : ℕ) → field mem off len ≡ text_at mem off len
unfolding field
field-text_at mem off len = ground arith

texts-fitting : (mem : List ℕ) (kvs : List KeyValue) → texts mem kvs ≡ fitting_texts mem kvs
unfolding texts fitting_texts
texts-fitting mem [] = refl
texts-fitting mem (kv ∷ kvs) =
    rw
      (
        field-text_at mem kv.key kv.key_len,
        field-text_at mem kv.value kv.value_len,
        texts-fitting mem kvs,
      )
      refl

pub read_headers-texts :
    (mem : List ℕ) (kvs : List KeyValue) (hc : HeadCache)
    → read_headers mem kvs hc ≡ Option.map (summary hc) (texts mem kvs)
unfolding read_headers texts
read_headers-texts mem [] hc = ap some (sym (summary-nil hc))
read_headers-texts mem (kv ∷ kvs) hc =
    read_cons (field mem kv.key kv.key_len) (field mem kv.value kv.value_len)
      (λ k v. read_headers mem kvs (note_header k v hc)) (texts mem kvs) hc
      (λ k v. read_headers-texts mem kvs (note_header k v hc))

-- The loop over the queue runs past an array of 1024 bytes, or leaves a text in it with no NUL,
-- exactly if the name or the value of some header is too long for it; else it leaves the flags of
-- the headers as a whole: chunked or gzip if one of them says so, and the last length.
pub read_headers-summary :
    (mem : List ℕ) (kvs : List KeyValue) (hc : HeadCache)
    → read_headers mem kvs hc ≡ Option.map (summary hc) (fitting_texts mem kvs)
read_headers-summary mem kvs hc =
    read_headers-texts mem kvs hc ∙ ap (Option.map (summary hc)) (texts-fitting mem kvs)
