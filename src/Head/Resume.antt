-- ===== src/Head/Resume.antt =====
-- A response arrives in pieces: `http_read_event_process` runs `http_parse_head` after each, on one
-- buffer, and the local `kv` is lost in between.
use crawler.Base.{
  ℕ, ◌+◌, Bool, Option, none, some, List, [], ◌∷◌, ◌++◌, ◌≡◌, refl, sym, ap, ◌∙◌, inl, inr, arith,
  ◌==◌, length, length-append, Bool-cases,
}
use crawler.Head.{
  HeadStatus, vsr_start, vsr_ver, vsr_stat, vsr_reas, line_done, line_half, key_done, HeadCache,
  KeyValue, Step, next, failed, parsed, Scan, more, refused, complete, last_index, current, proceed,
  on_space, on_return, end_value, on_newline, on_colon, step, scan,
}

-- In `KEY_DONE` the local `kv`, if set, is the last entry of the queue.
abbrev pub Fits : HeadCache → Option ℕ → Type 0
Fits hc kv = hc.status ≡ key_done → current kv hc.kv_queue ≡ last_index hc.kv_queue

-- Two rounds that differ at most in the local.
abbrev Agree : Step → Step → Type 0
Agree (next hc kv) (next hc' kv') = (hc ≡ hc') × Fits hc kv × Fits hc kv'
Agree (failed hc) (failed hc') = hc ≡ hc'
Agree (parsed hc) (parsed hc') = hc ≡ hc'
Agree _ _ = ⊥

pub last_index-snoc :
    (kvs : List KeyValue) (kv : KeyValue) → last_index (kvs ++ kv ∷ []) ≡ some (length kvs)
last_index-snoc [] kv = refl
last_index-snoc (x ∷ kvs) kv = ap some (length-append kvs (kv ∷ []) ∙ omega arith)

on_space-Agree :
    (s : HeadStatus) (p : ℕ) (hc : HeadCache) (k k' : Option ℕ)
    → hc.status ≡ s
    → Fits hc k
    → Fits hc k'
    → Agree (on_space s p hc k) (on_space s p hc k')
unfolding on_space
on_space-Agree vsr_start p hc k k' e f f' = (refl, λ x. cc, λ x. cc)
on_space-Agree vsr_ver p hc k k' e f f' = (refl, λ x. cc, λ x. cc)
on_space-Agree key_done p hc k k' e f f' = (refl, λ x. f e, λ x. f' e)
on_space-Agree _ p hc k k' e f f' = (refl, f, f')

end_value-Agree :
    (o : Option ℕ) (p : ℕ) (hc : HeadCache) → Agree (end_value o p hc) (end_value o p hc)
end_value-Agree none p hc = refl
end_value-Agree (some i) p hc = (refl, λ x. cc, λ x. cc)

on_return-Agree :
    (s : HeadStatus) (p : ℕ) (hc : HeadCache) (k k' : Option ℕ)
    → hc.status ≡ s
    → Fits hc k
    → Fits hc k'
    → Agree (on_return s p hc k) (on_return s p hc k')
unfolding on_return
on_return-Agree key_done p hc k k' e f f' =
    rw (f e, f' e) (end_value-Agree (last_index hc.kv_queue) p hc)
on_return-Agree line_done p hc k k' e f f' = (refl, λ x. cc, λ x. cc)
on_return-Agree vsr_stat p hc k k' e f f' = (refl, λ x. cc, λ x. cc)
on_return-Agree _ p hc k k' e f f' = refl

on_newline-Agree :
    (s : HeadStatus) (p : ℕ) (hc : HeadCache) (k k' : Option ℕ)
    → Agree (on_newline s p hc k) (on_newline s p hc k')
unfolding on_newline
on_newline-Agree line_half p hc k k' = (refl, λ x. cc, λ x. cc)
on_newline-Agree vsr_reas p hc k k' = (refl, λ x. cc, λ x. cc)
on_newline-Agree _ p hc k k' = refl

module _ (calloc_ok : ℕ → Bool) where
  on_colon-Agree :
      (s : HeadStatus) (p : ℕ) (hc : HeadCache) (k k' : Option ℕ)
      → hc.status ≡ s
      → Fits hc k
      → Fits hc k'
      → Agree (on_colon calloc_ok s p hc k) (on_colon calloc_ok s p hc k')
  unfolding on_colon
  on_colon-Agree line_done p hc k k' e f f' = elim (Bool-cases (calloc_ok hc.allocs)) [
    | inl given ↦
        let fits = λ (x : key_done ≡ key_done). sym (last_index-snoc hc.kv_queue _) in
        rw given (refl, fits, fits)
    | inr denied ↦ rw denied refl
  ]
  on_colon-Agree _ p hc k k' e f f' = (refl, f, f')

  step-Agree :
      (c p : ℕ) (hc : HeadCache) (k k' : Option ℕ)
      → Fits hc k
      → Fits hc k'
      → Agree (step calloc_ok c p hc k) (step calloc_ok c p hc k')
  unfolding step
  step-Agree c p hc k k' f f' = elim (Bool-cases (c == b' ')) [
    | inl e ↦ rw e (on_space-Agree hc.status p hc k k' refl f f')
    | inr e ↦ rw e (elim (Bool-cases (c == b':')) [
      | inl e ↦ rw e (on_colon-Agree hc.status p hc k k' refl f f')
      | inr e ↦ rw e (elim (Bool-cases (c == b'\r')) [
        | inl e ↦ rw e (on_return-Agree hc.status p hc k k' refl f f')
        | inr e ↦ rw e (elim (Bool-cases (c == b'\n')) [
          | inl e ↦ rw e (on_newline-Agree hc.status p hc k k')
          | inr e ↦ rw e (refl, f, f')
        ])
      ])
    ])
  ]

  proceed-Agree :
      (s s' : Step) (pos : ℕ) (loop : HeadCache → Option ℕ → Scan)
      → Agree s s'
      → ((hc : HeadCache) (k k' : Option ℕ) → Fits hc k → Fits hc k' → loop hc k ≡ loop hc k')
      → proceed s pos loop ≡ proceed s' pos loop
  proceed-Agree (next hc k) (next hc' k') pos loop (e, f, f') h =
      h hc k k' f f' ∙ ap (λ x. loop x k') e
  proceed-Agree (failed hc) (failed hc') pos loop e h = ap (refused pos) e
  proceed-Agree (parsed hc) (parsed hc') pos loop e h = ap (complete pos) e
  proceed-Agree (next hc k) (failed hc') pos loop e h = absurd e
  proceed-Agree (next hc k) (parsed hc') pos loop e h = absurd e
  proceed-Agree (failed hc) (next hc' k') pos loop e h = absurd e
  proceed-Agree (failed hc) (parsed hc') pos loop e h = absurd e
  proceed-Agree (parsed hc) (next hc' k') pos loop e h = absurd e
  proceed-Agree (parsed hc) (failed hc') pos loop e h = absurd e

  -- The local makes no difference.
  pub scan-Fits :
      (cs : List ℕ) (pos : ℕ) (hc : HeadCache) (k k' : Option ℕ)
      → Fits hc k
      → Fits hc k'
      → scan calloc_ok cs pos hc k ≡ scan calloc_ok cs pos hc k'
  unfolding scan
  scan-Fits [] pos hc k k' f f' = refl
  scan-Fits (c ∷ cs) pos hc k k' f f' =
      proceed-Agree _ _ _ _ (step-Agree c (pos + 1) hc k k' f f') (scan-Fits cs (pos + 1))

  -- The loop of the next call.
  abbrev pub resume : Scan → List ℕ → Scan
  resume (more pos hc) cs = scan calloc_ok cs pos hc none
  resume (refused pos hc) cs = refused pos hc
  resume (complete pos hc) cs = complete pos hc

  proceed-resume :
      (s : Step) (pos : ℕ) (loop loop' : HeadCache → Option ℕ → Scan) (cs : List ℕ)
      → Agree s s
      → ((hc : HeadCache) (k : Option ℕ) → Fits hc k → loop hc k ≡ resume (loop' hc k) cs)
      → proceed s pos loop ≡ resume (proceed s pos loop') cs
  proceed-resume (next hc k) pos loop loop' cs a h = h hc k a.1
  proceed-resume (failed hc) pos loop loop' cs a h = refl
  proceed-resume (parsed hc) pos loop loop' cs a h = refl

  -- Wherever the bytes are cut in two, reading the pieces in two calls ends as reading them in one:
  -- in the same state and at the same position, or with the same failure.
  pub scan-append :
      (xs ys : List ℕ) (pos : ℕ) (hc : HeadCache) (k : Option ℕ)
      → Fits hc k
      → scan calloc_ok (xs ++ ys) pos hc k ≡ resume (scan calloc_ok xs pos hc k) ys
  unfolding scan
  scan-append [] ys pos hc k f = scan-Fits ys pos hc k none f (λ _. refl)
  scan-append (c ∷ xs) ys pos hc k f =
      proceed-resume _ (pos + 1) _ _ ys (step-Agree c (pos + 1) hc k k f f)
        (scan-append xs ys (pos + 1))
