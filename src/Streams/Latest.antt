-- ===== src/Streams/Latest.antt =====
-- LatestCoalescer of app/sidecar/ipc/coalescer.ts. The calls of `flush` are logged in `flushed`; `timer`
-- says whether a timer is set; none is the value `undefined`.
use capisco.Prelude.{
  ◌≡◌, refl, ◌∙◌, subst, Bool, true, false, not, Option, none, some, List, [], ◌∷◌, ◌++◌,
  if◌then◌else◌, Bool-cases, ◌⊎◌, inl, inr,
}
use mathlib.Core.List.{append-nil, append_assoc}

pub record LatestCoalescer (T : Type 0) : Type 0 where
  pub latest : Option T
  pub has : Bool
  pub timer : Bool
  pub flushed : List (Option T)

pub data Event (T : Type 0) : Type 0 where
  pushes : T → Event T
  fires flushes disposes : Event T

-- `xs` is `ys` with some values left out, each of them before one that is kept.
abbrev pub Thins : {A : Type 0} → List A → List A → Type 0
Thins [] [] = Unit
Thins (x ∷ xs) [] = ⊥
Thins [] (y ∷ ys) = ⊥
Thins (x ∷ xs) (y ∷ ys) = ((x ≡ y) × Thins xs ys) ⊎ Thins (x ∷ xs) ys

module _ {A : Type 0} where
  Thins-refl : (xs : List A) → Thins xs xs
  Thins-refl [] = tt
  Thins-refl (x ∷ xs) = inl (refl, Thins-refl xs)

  Thins-under : (zs xs ys : List A) → Thins xs ys → Thins (zs ++ xs) (zs ++ ys)
  Thins-under [] xs ys h = h
  Thins-under (z ∷ zs) xs ys h = inl (refl, Thins-under zs xs ys h)

  Thins-trans : (xs ys zs : List A) → Thins xs ys → Thins ys zs → Thins xs zs
  Thins-trans [] [] zs p q = q
  Thins-trans [] (y ∷ ys) zs p q = absurd p
  Thins-trans (x ∷ xs) [] zs p q = absurd p
  Thins-trans (x ∷ xs) (y ∷ ys) [] p q = absurd q
  Thins-trans (x ∷ xs) (y ∷ ys) (z ∷ zs) p (inr q) = inr (Thins-trans (x ∷ xs) (y ∷ ys) zs p q)
  Thins-trans (x ∷ xs) (y ∷ ys) (z ∷ zs) (inl p) (inl q) =
      inl (p.0 ∙ q.0, Thins-trans xs ys zs p.1 q.1)
  Thins-trans (x ∷ xs) (y ∷ ys) (z ∷ zs) (inr p) (inl q) = inr (Thins-trans (x ∷ xs) ys zs p q.1)

module _ {T : Type 0} where
  abbrev pub new_latest : LatestCoalescer T
  new_latest = record { latest = none; has = false; timer = false; flushed = [] }

  unfoldable pub push : LatestCoalescer T → T → LatestCoalescer T
  push s value = record s { latest = some value; has = true; timer = true }

  unfoldable pub flush_now : LatestCoalescer T → LatestCoalescer T
  flush_now s =
      if not s.has
      then s
      else record s { latest = none; has = false; flushed = s.flushed ++ s.latest ∷ [] }

  -- The timer fires, where one is set.
  unfoldable pub fire : LatestCoalescer T → LatestCoalescer T
  fire s = if s.timer then flush_now (record s { timer = false }) else s

  unfoldable pub dispose : LatestCoalescer T → LatestCoalescer T
  dispose s = flush_now (record s { timer = false })

  unfoldable pub react : LatestCoalescer T → Event T → LatestCoalescer T
  react s (pushes value) = push s value
  react s fires = fire s
  react s flushes = flush_now s
  react s disposes = dispose s

  abbrev pub react_all : LatestCoalescer T → List (Event T) → LatestCoalescer T
  react_all s [] = s
  react_all s (e ∷ es) = react_all (react s e) es

  -- What went in.
  abbrev pub pushed : List (Event T) → List (Option T)
  pushed [] = []
  pushed (pushes value ∷ es) = some value ∷ pushed es
  pushed (_ ∷ es) = pushed es

  abbrev pub waiting : LatestCoalescer T → List (Option T)
  waiting s = if s.has then s.latest ∷ [] else []

  -- What came out, and what waits.
  abbrev pub seen : LatestCoalescer T → List (Option T)
  seen s = s.flushed ++ waiting s

  flush_now-seen : (s : LatestCoalescer T) → seen (flush_now s) ≡ seen s
  unfolding flush_now
  flush_now-seen s = elim (Bool-cases s.has) [
    | inr h ↦ rw h refl
    | inl h ↦ rw h (append-nil (s.flushed ++ s.latest ∷ []))
  ]

  -- A value that waits gives way to a new one.
  newer :
      (b : Bool) (old new : Option T) (rest : List (Option T))
      → Thins (new ∷ rest) ((if b then old ∷ [] else []) ++ new ∷ rest)
  newer true old new rest = inr (Thins-refl (new ∷ rest))
  newer false old new rest = Thins-refl (new ∷ rest)

  same-Thins : (xs ys rest : List (Option T)) → xs ≡ ys → Thins (xs ++ rest) (ys ++ rest)
  same-Thins xs ys rest e = subst (λ l. Thins (xs ++ rest) (l ++ rest)) e (Thins-refl (xs ++ rest))

  react-Thins :
      (s : LatestCoalescer T) (e : Event T) (es : List (Event T))
      → Thins (seen (react s e) ++ pushed es) (seen s ++ pushed (e ∷ es))
  unfolding react push fire dispose
  react-Thins s (pushes value) es =
      rw
        (
          append_assoc s.flushed (some value ∷ []) (pushed es),
          append_assoc s.flushed (waiting s) (some value ∷ pushed es),
        )
        (Thins-under s.flushed (some value ∷ pushed es) (waiting s ++ some value ∷ pushed es)
          (newer s.has s.latest (some value) (pushed es)))
  react-Thins s fires es = same-Thins (seen (fire s)) (seen s) (pushed es) (fired s.timer)
    where
      fired : (t : Bool) → seen (if t then flush_now (record s { timer = false }) else s) ≡ seen s
      fired true = flush_now-seen (record s { timer = false })
      fired false = refl
  react-Thins s flushes es = same-Thins (seen (flush_now s)) (seen s) (pushed es) (flush_now-seen s)
  react-Thins s disposes es =
      same-Thins (seen (dispose s)) (seen s) (pushed es)
        (flush_now-seen (record s { timer = false }))

  -- Values are left out only for newer ones: after any pushes, timers, flushes and disposals, what was
  -- flushed followed by the value that waits is what was there before followed by all that was pushed,
  -- in that order, with some values left out, none of them the last.
  pub react_all-Thins :
      (s : LatestCoalescer T) (es : List (Event T))
      → Thins (seen (react_all s es)) (seen s ++ pushed es)
  react_all-Thins s [] = rw (append-nil (seen s)) (Thins-refl (seen s))
  react_all-Thins s (e ∷ es) =
      Thins-trans (seen (react_all (react s e) es)) (seen (react s e) ++ pushed es)
        (seen s ++ pushed (e ∷ es)) (react_all-Thins (react s e) es) (react-Thins s e es)
