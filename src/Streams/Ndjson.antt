-- ===== src/Streams/Ndjson.antt =====
-- app/src/lib/sidecar/protocol/ndjson.ts. `decodeLine`, which is JSON.parse with a test on its result,
-- is the parameter `decode_line`.
use capisco.Prelude.{
  All, Bool, true, ℕ, zero, suc, ◌+◌, ◌≤◌, ◌≡◌, refl, ap, sym, ◌∙◌, false, ◌&&◌, ◌||◌, not, Option,
  none, some, List, [], ◌∷◌, ◌++◌, ◌==◌, nat_eq, if◌then◌else◌, ltb, length, length-append, arith,
  Bool-cases, Option-cases, inl, inr,
}
use capisco.Prelude.Dict.{contains}
use capisco.Prelude.Text.{is_blank}
use capisco.Prelude.Effect.{Run, ok, err, after_ok}
use mathlib.Core.List.{append-nil, append_assoc}

pub record NdjsonDecoder : Type 0 where
  pub buffer : List ℕ
  pub max_line_bytes : ℕ

pub data FramingError : Type 0 where
  line_exceeded : ℕ → FramingError

abbrev pub newline : ℕ
newline = 10

-- The parts before and after the first newline: `slice(0, nl)` and `slice(nl + 1)`.
unfoldable pub cut_line : List ℕ → Option (List ℕ × List ℕ)
cut_line [] = none
cut_line (c ∷ cs) =
    let rest = cut_line cs in
    if c == newline
    then some ([], cs)
    else elim rest [ none ↦ none | some (line, after) ↦ some (c ∷ line, after) ]

cut_line-shorter :
    (buffer line rest : List ℕ)
    → cut_line buffer ≡ some (line, rest)
    → suc (length rest) ≤ length buffer
unfolding cut_line
cut_line-shorter [] line rest h = absurd (cc h)
cut_line-shorter (c ∷ cs) line rest h = elim (Bool-cases (c == newline)) [
  | inl t ↦ let same : rest ≡ cs = cc (rw t at h) in omega (arith, ap length same)
  | inr t ↦ elim (Option-cases (cut_line cs)) [
    | inl e ↦ absurd (cc (rw (t, e) at h))
    | inr ((front, after), e) ↦
        let same : rest ≡ after = cc (rw (t, e) at h) in
        omega (arith, ap length same, cut_line-shorter cs front after e)
  ]
]

contains-append :
    (xs ys : List ℕ) → contains newline (xs ++ ys) ≡ (contains newline xs || contains newline ys)
unfolding contains
contains-append [] ys = refl
contains-append (x ∷ xs) ys = ground (arith, contains-append xs ys)

abbrev pub flatten : List (List ℕ) → List ℕ
flatten [] = []
flatten (chunk ∷ chunks) = chunk ++ flatten chunks

module _ {R : Type 0} (decode_line : List ℕ → R) where
  abbrev emit : List ℕ → List R → List R
  emit line results = if is_blank line then results else decode_line line ∷ results

  -- The loop of `push`, with fuel.
  unfoldable pub drain : ℕ → List ℕ → List R × List ℕ
  unfolding is_blank
  drain zero buffer = ([], buffer)
  drain (suc fuel) buffer = elim (cut_line buffer) [
    | none ↦ ([], buffer)
    | some (line, rest) ↦ (emit line (drain fuel rest).0, (drain fuel rest).1)
  ]

  unfoldable pub push : NdjsonDecoder → List ℕ → Run NdjsonDecoder FramingError (List R)
  push d chunk =
      let buffer = d.buffer ++ chunk in
      if ltb d.max_line_bytes (length buffer) && not (contains newline buffer)
      then err (line_exceeded (length buffer)) (record d { buffer = [] })
      else ok (drain (length buffer) buffer).0
          (record d { buffer = (drain (length buffer) buffer).1 })

  module _ (P : R → Type 0) (decoded : (line : List ℕ) → P (decode_line line)) where
    emit-All : (line : List ℕ) (rs : List R) → All P rs → All P (emit line rs)
    emit-All line rs h = by_blank (is_blank line)
      where
        by_blank : (b : Bool) → All P (if◌then◌else◌ {A = List R} b rs (decode_line line ∷ rs))
        by_blank true = h
        by_blank false = (decoded line, h)

    drain-All : (fuel : ℕ) (buffer : List ℕ) → All P (drain fuel buffer).0
    unfolding drain
    drain-All zero buffer = tt
    drain-All (suc fuel) buffer =
        by_line (cut_line buffer)
          (λ line rest. emit-All line (drain fuel rest).0 (drain-All fuel rest))
      where
        by_line :
            (o : Option (List ℕ × List ℕ))
            → ((line rest : List ℕ) → All P (emit line (drain fuel rest).0))
            → All P
                (elim o as (λ o. List R × List ℕ) [
                  | none ↦ ([], buffer)
                  | some (line, rest) ↦ (emit line (drain fuel rest).0, (drain fuel rest).1)
                ]).0
        by_line none h = tt
        by_line (some (line, rest)) h = h line rest

    -- What a decoder has decoded.
    abbrev pub Decoded : Run NdjsonDecoder FramingError (List R) → Type 0
    Decoded (ok rs d) = All P rs
    Decoded (err e d) = Unit {0}

    pub push-Decoded : (d : NdjsonDecoder) (chunk : List ℕ) → Decoded (push d chunk)
    unfolding push
    push-Decoded d chunk = by_limit (
        ltb d.max_line_bytes (length (d.buffer ++ chunk))
        && not (contains newline (d.buffer ++ chunk)))
      where
        buffer : List ℕ
        buffer = d.buffer ++ chunk

        by_limit :
            (b : Bool)
            → Decoded (
                if◌then◌else◌ {A = Run NdjsonDecoder FramingError (List R)} b
                  (err (line_exceeded (length buffer)) (record d { buffer = [] }))
                  (ok
                    (drain (length buffer) buffer).0
                    (record d { buffer = (drain (length buffer) buffer).1 })))
        by_limit true = tt
        by_limit false = drain-All (length buffer) buffer

  -- The frames of a stream, read once from left to right.
  pub frames : List ℕ → List ℕ → List R × List ℕ
  frames line [] = ([], line)
  frames line (c ∷ cs) =
      let ended = frames [] cs in
      let longer = frames (line ++ c ∷ []) cs in
      if c == newline then (emit line ended.0, ended.1) else longer

  abbrev cut_off : List ℕ → Option (List ℕ × List ℕ) → List ℕ → List R × List ℕ
  cut_off line none buffer = ([], line ++ buffer)
  cut_off line (some (front, rest)) buffer =
      (emit (line ++ front) (frames [] rest).0, (frames [] rest).1)

  abbrev grow : ℕ → Option (List ℕ × List ℕ) → Option (List ℕ × List ℕ)
  grow c none = none
  grow c (some (line, after)) = some (c ∷ line, after)

  cut_off-grow :
      (line : List ℕ) (c : ℕ) (o : Option (List ℕ × List ℕ)) (cs : List ℕ)
      → cut_off (line ++ c ∷ []) o cs ≡ cut_off line (grow c o) (c ∷ cs)
  cut_off-grow line c none cs = ap (λ l. ([], l)) (append_assoc line (c ∷ []) cs)
  cut_off-grow line c (some (front, rest)) cs =
      ap (λ l. (emit l (frames [] rest).0, (frames [] rest).1)) (append_assoc line (c ∷ []) front)

  -- A line that is begun, and the stream behind it.
  frames-cut_line :
      (line buffer : List ℕ) → frames line buffer ≡ cut_off line (cut_line buffer) buffer
  unfolding frames cut_line
  frames-cut_line line [] = ap (λ l. ([], l)) (sym (append-nil line))
  frames-cut_line line (c ∷ cs) = elim (Bool-cases (c == newline)) [
    | inl t ↦ rw t (ap (λ l. (emit l (frames [] cs).0, (frames [] cs).1)) (sym (append-nil line)))
    | inr t ↦ rw t (frames-cut_line (line ++ c ∷ []) cs ∙ cut_off-grow line c (cut_line cs) cs)
  ]

  drain-frames :
      (fuel : ℕ) (buffer : List ℕ) → length buffer ≤ fuel → drain fuel buffer ≡ frames [] buffer
  unfolding drain cut_line
  drain-frames zero [] h = sym (frames-cut_line [] [])
  drain-frames zero (c ∷ cs) h = absurd (omega (arith, h))
  drain-frames (suc fuel) buffer h =
      cut (λ rest le. drain-frames fuel rest le) (cut_line buffer) refl
      ∙ sym (frames-cut_line [] buffer)
    where
      cut :
          ((rest : List ℕ) → length rest ≤ fuel → drain fuel rest ≡ frames [] rest)
          → (o : Option (List ℕ × List ℕ)) → cut_line buffer ≡ o
          → (elim o as (λ o. List R × List ℕ) [
            | none ↦ ([], buffer)
            | some (line, rest) ↦ (emit line (drain fuel rest).0, (drain fuel rest).1)
          ])
            ≡ cut_off [] o buffer
      cut ih none e = refl
      cut ih (some (line, rest)) e =
          ap (λ x. (emit line x.0, x.1))
            (ih rest (omega (arith, h, cut_line-shorter buffer line rest e)))

  emit-append : (line : List ℕ) (r s : List R) → emit line r ++ s ≡ emit line (r ++ s)
  emit-append line r s = elim (Bool-cases (is_blank line)) [ inl b ↦ rw b refl | inr b ↦ rw b refl ]

  frames-append :
      (line xs ys : List ℕ)
      → frames line (xs ++ ys)
        ≡ ((frames line xs).0 ++ (frames (frames line xs).1 ys).0, (frames (frames line xs).1 ys).1)
  unfolding frames
  frames-append line [] ys = refl
  frames-append line (c ∷ xs) ys = elim (Bool-cases (c == newline)) [
    | inl t ↦ rw t (
        ap (λ x. (emit line x.0, x.1)) (frames-append [] xs ys)
        ∙ ap (λ l. (l, (frames (frames [] xs).1 ys).1)) (sym (emit-append line (frames [] xs).0 _)))
    | inr t ↦ rw t (frames-append (line ++ c ∷ []) xs ys)
  ]

  -- What is left has no newline, and is no longer than what was read.
  frames_rest :
      (line xs : List ℕ)
      → contains newline line ≡ false
      → (contains newline (frames line xs).1 ≡ false)
        × (length (frames line xs).1 ≤ length line + length xs)
  unfolding frames contains
  frames_rest line [] h = (h, omega arith)
  frames_rest line (c ∷ xs) h = elim (Bool-cases (c == newline)) [
    | inl t ↦ let (n, l) = frames_rest [] xs refl in rw t (n, omega (arith, l))
    | inr t ↦
        let (n, l) =
          frames_rest (line ++ c ∷ []) xs (ground (arith, contains-append line (c ∷ []), h)) in
        rw t (n, omega (arith, l, length-append line (c ∷ [])))
  ]

  frames_line : (line xs : List ℕ) → contains newline xs ≡ false → frames line xs ≡ ([], line ++ xs)
  unfolding frames contains
  frames_line line [] h = ap (λ l. ([], l)) (sym (append-nil line))
  frames_line line (c ∷ xs) h = elim (Bool-cases (c == newline)) [
    | inl t ↦ absurd (ground arith)
    | inr t ↦ rw t (
        frames_line (line ++ c ∷ []) xs (ground arith)
        ∙ ap (λ l. ([], l)) (append_assoc line (c ∷ []) xs))
  ]

  -- The chunks of a stream, one after the other.
  abbrev pub push_all : NdjsonDecoder → List (List ℕ) → Run NdjsonDecoder FramingError (List R)
  push_all d [] = ok [] d
  push_all d (chunk ∷ chunks) = elim (push d chunk) [
    | err x d' ↦ err x d'
    | ok r d' ↦ elim (push_all d' chunks) [ err x d'' ↦ err x d'' | ok rs d'' ↦ ok (r ++ rs) d'' ]
  ]

  push-short :
      (d : NdjsonDecoder) (chunk : List ℕ)
      → ltb d.max_line_bytes (length (d.buffer ++ chunk)) ≡ false
      → let x = drain (length (d.buffer ++ chunk)) (d.buffer ++ chunk) in
        push d chunk ≡ ok x.0 (record d { buffer = x.1 })
  unfolding push
  push-short d chunk h = rw h refl

  push-frames :
      (d : NdjsonDecoder) (chunk : List ℕ)
      → contains newline d.buffer ≡ false
      → length d.buffer + length chunk ≤ d.max_line_bytes
      → push d chunk
        ≡ ok (frames d.buffer chunk).0 (record d { buffer = (frames d.buffer chunk).1 })
  push-frames d chunk n h =
      let buffer = d.buffer ++ chunk in
      let short : ltb d.max_line_bytes (length buffer) ≡ false =
        ground (arith, length-append d.buffer chunk) in
      let same : drain (length buffer) buffer ≡ frames d.buffer chunk =
        drain-frames (length buffer) buffer (omega arith)
        ∙ frames-append [] d.buffer chunk
        ∙ ap (λ x. (x.0 ++ (frames x.1 chunk).0, (frames x.1 chunk).1))
            (frames_line [] d.buffer n) in
      push-short d chunk short ∙ ap (λ x. ok x.0 (record d { buffer = x.1 })) same

  -- The boundaries of chunks do not matter: a decoder whose buffer holds no newline and which is given
  -- a stream in any chunks, of together at most its limit, does not throw, returns the decoded lines
  -- of the whole stream in order (blank lines left out), and keeps the part behind the last newline.
  pub push_all-frames :
      (d : NdjsonDecoder) (chunks : List (List ℕ))
      → contains newline d.buffer ≡ false
      → length d.buffer + length (flatten chunks) ≤ d.max_line_bytes
      → push_all d chunks
        ≡ ok
            (frames d.buffer (flatten chunks)).0
            (record d { buffer = (frames d.buffer (flatten chunks)).1 })
  unfolding frames
  push_all-frames d [] n h = refl
  push_all-frames d (chunk ∷ chunks) n h =
      let (n', l) = frames_rest d.buffer chunk n in
      let d' = record d { buffer = (frames d.buffer chunk).1 } in
      after_ok _ _ (push d chunk) _ d'
        (push-frames d chunk n (omega (arith, h, length-append chunk (flatten chunks))))
      ∙ after_ok _ _ (push_all d' chunks) _ _
          (push_all-frames d' chunks n' (omega (arith, h, l, length-append chunk (flatten chunks))))
      ∙ ap (λ x. ok x.0 (record d { buffer = x.1 }))
          (sym (frames-append d.buffer chunk (flatten chunks)))
