-- ===== src/Sessions/Search.antt =====
-- `search` of app/sidecar/session/in-memory-session-store.ts, on UTF-16 code units. `lower` stands for
-- toLowerCase.
use capisco.Prelude.{
  ℕ, suc, ◌+◌, ◌-◌, ◌≡◌, ◌≢◌, ◌↔◌, ◌⊎◌, inl, inr, refl, ap, sym, subst, Bool, true, false, ◌&&◌,
  ◌||◌, Option, none, some, List, [], ◌∷◌, ◌++◌, map, String, if◌then◌else◌, ltb, leb, min, length,
  take, drop, In, In-append_left, In-append_right, In-append_cases, In-swap, In-under, ◌==◌, ==_iff,
  ==_refl, and-parts, or-cases, or_true, nat_eq,
}
use capisco.Prelude.Text.{code_units, trim}
use capisco.Sessions.{
  TranscriptBlock, block_id, index_text, SessionRecord, Store, insert_by_seq, sort_by_seq, ordered,
}

pub record SessionSearchHit : Type 0 where
  pub session_id : String
  pub block_id : String
  pub title : String
  pub snippet : List ℕ

starts_at : List ℕ → List ℕ → Bool
starts_at [] t = true
starts_at (c ∷ n) [] = false
starts_at (c ∷ n) (d ∷ t) = let rest = starts_at n t in c == d && rest

-- `t.includes(n)`
unfoldable pub includes_units : List ℕ → List ℕ → Bool
unfolding starts_at
includes_units n [] = starts_at n []
includes_units n (c ∷ t) = let rest = includes_units n t in starts_at n (c ∷ t) || rest

-- `t.indexOf(n)`, with none for -1.
unfoldable pub index_of : List ℕ → List ℕ → Option ℕ
unfolding starts_at
index_of n [] = if starts_at n [] then some 0 else none
index_of n (c ∷ t) =
    let rest = index_of n t in
    if starts_at n (c ∷ t) then some 0 else elim rest [ none ↦ none | some i ↦ some (suc i) ]

-- `t.slice(from, to)`
abbrev slice : ℕ → ℕ → List ℕ → List ℕ
slice from to t = take (to - from) (drop from t)

abbrev mark : Bool → List ℕ
mark b = if b then 0x2026 ∷ [] else []

-- `n` stands in `t`, after some code units and before others.
abbrev pub Stands : List ℕ → List ℕ → Type 0
Stands n t = (pre : List ℕ) × (post : List ℕ) × (t ≡ pre ++ n ++ post)

starts_at-append : (n post : List ℕ) → starts_at n (n ++ post) ≡ true
unfolding starts_at
starts_at-append [] post = refl
starts_at-append (c ∷ n) post = rw (==_refl c, starts_at-append n post) refl

starts_at-split : (n t : List ℕ) → starts_at n t ≡ true → (post : List ℕ) × (t ≡ n ++ post)
unfolding starts_at
starts_at-split [] t h = (t, refl)
starts_at-split (c ∷ n) [] h = absurd (cc h)
starts_at-split (c ∷ n) (d ∷ t) h =
    let (same, rest) = and-parts (c == d) (starts_at n t) h in
    let (post, e) = starts_at-split n t rest in (post, cc ((==_iff c d).0 same, e))

includes_units-Stands : (n t : List ℕ) → includes_units n t ≡ true → Stands n t
unfolding includes_units
includes_units-Stands n [] h = let (post, e) = starts_at-split n [] h in ([], post, e)
includes_units-Stands n (c ∷ t) h = elim (or-cases (starts_at n (c ∷ t)) (includes_units n t) h) [
  | inl e ↦ let (post, f) = starts_at-split n (c ∷ t) e in ([], post, f)
  | inr e ↦ let (pre, post, f) = includes_units-Stands n t e in (c ∷ pre, post, ap (λ l. c ∷ l) f)
]

includes_units-starts : (n t : List ℕ) → starts_at n t ≡ true → includes_units n t ≡ true
unfolding includes_units
includes_units-starts n [] h = h
includes_units-starts n (c ∷ t) h = rw h refl

includes_units-append : (n pre post : List ℕ) → includes_units n (pre ++ n ++ post) ≡ true
unfolding includes_units
includes_units-append n [] post = includes_units-starts n (n ++ post) (starts_at-append n post)
includes_units-append n (c ∷ pre) post =
    rw (includes_units-append n pre post) (or_true (starts_at n (c ∷ pre ++ n ++ post)))

includes_units_iff : (n t : List ℕ) → (includes_units n t ≡ true) ↔ Stands n t
includes_units_iff n t = (
  includes_units-Stands n t,
  λ h. let (pre, post, e) = h in rw e (includes_units-append n pre post),
)

In-if_cases :
    (v : Bool) (x y : SessionSearchHit) (rest : List SessionSearchHit)
    → In x (if v then y ∷ rest else rest)
    → ((v ≡ true) × (x ≡ y)) ⊎ In x rest
In-if_cases true x y rest (inl e) = inl (refl, e)
In-if_cases true x y rest (inr i) = inr i
In-if_cases false x y rest i = inr i

In-if_later :
    (v : Bool) (x y : SessionSearchHit) (rest : List SessionSearchHit)
    → In x rest
    → In x (if v then y ∷ rest else rest)
In-if_later true x y rest i = inr i
In-if_later false x y rest i = i

module _ (lower : List ℕ → List ℕ) where
  unfoldable pub snippet_of : List ℕ → List ℕ → List ℕ
  unfolding index_of
  snippet_of text needle = elim (index_of needle (lower text)) [
    | none ↦ take 80 text
    | some i ↦
        let end = min (length text) (i + length needle + 24) in
        mark (ltb 0 (i - 24)) ++ slice (i - 24) end text ++ mark (ltb end (length text))
  ]

  abbrev pub hit : List ℕ → SessionRecord → TranscriptBlock → SessionSearchHit
  hit needle r b = record {
    session_id = r.session.id;
    block_id = block_id b;
    title = r.session.title;
    snippet = snippet_of (code_units (index_text b)) needle;
  }

  unfoldable pub block_hits : List ℕ → SessionRecord → List TranscriptBlock → List SessionSearchHit
  unfolding includes_units
  block_hits needle r [] = []
  block_hits needle r (b ∷ bs) =
      let rest = block_hits needle r bs in
      if includes_units needle (lower (code_units (index_text b)))
      then hit needle r b ∷ rest
      else rest

  unfoldable pub hits : List ℕ → List SessionRecord → List SessionSearchHit
  hits needle [] = []
  hits needle (r ∷ rs) = block_hits needle r r.blocks ++ hits needle rs

  unfoldable pub search : Store → List ℕ → List SessionSearchHit
  unfolding hits
  search s query =
      let needle = lower (trim query) in
      elim needle [ [] ↦ [] | c ∷ cs ↦ hits (c ∷ cs) (ordered s) ]

  -- A block of the session that has the needle makes the hit.
  abbrev pub Makes : List ℕ → SessionRecord → TranscriptBlock → SessionSearchHit → Type 0
  Makes needle r b h = Stands needle (lower (code_units (index_text b))) × (h ≡ hit needle r b)

  block_hits-Makes :
      (needle : List ℕ) (r : SessionRecord) (bs : List TranscriptBlock) (h : SessionSearchHit)
      → In h (block_hits needle r bs)
      → (b : TranscriptBlock) × In b bs × Makes needle r b h
  unfolding block_hits
  block_hits-Makes needle r [] h i = absurd i
  block_hits-Makes needle r (b ∷ bs) h i =
      elim (In-if_cases (includes_units needle (lower (code_units (index_text b)))) h
        (hit needle r b) (block_hits needle r bs) i) [
          | inl (e, f) ↦ (b, inl refl, ((includes_units_iff needle _).0 e, f))
          | inr j ↦ let (c, m, w) = block_hits-Makes needle r bs h j in (c, inr m, w)
        ]

  Makes-block_hits :
      (needle : List ℕ) (r : SessionRecord) (bs : List TranscriptBlock) (h : SessionSearchHit)
      (b : TranscriptBlock)
      → In b bs
      → Makes needle r b h
      → In h (block_hits needle r bs)
  unfolding block_hits
  Makes-block_hits needle r [] h b i w = absurd i
  Makes-block_hits needle r (c ∷ bs) h b (inl e) w =
      let found : includes_units needle (lower (code_units (index_text c))) ≡ true =
        rw (sym e) ((includes_units_iff needle _).1 w.0) in
      rw found (inl (rw (sym e) w.1))
  Makes-block_hits needle r (c ∷ bs) h b (inr i) w =
      In-if_later (includes_units needle (lower (code_units (index_text c)))) h (hit needle r c)
        (block_hits needle r bs) (Makes-block_hits needle r bs h b i w)

  -- Some block of some of these sessions makes the hit.
  abbrev pub Made : List ℕ → List SessionRecord → SessionSearchHit → Type 0
  Made needle rs h =
      (r : SessionRecord) × In r rs × ((b : TranscriptBlock) × In b r.blocks × Makes needle r b h)

  hits-Made :
      (needle : List ℕ) (rs : List SessionRecord) (h : SessionSearchHit)
      → In h (hits needle rs)
      → Made needle rs h
  unfolding hits
  hits-Made needle [] h i = absurd i
  hits-Made needle (r ∷ rs) h i =
      elim (In-append_cases h (block_hits needle r r.blocks) (hits needle rs) i) [
        | inl j ↦ (r, inl refl, block_hits-Makes needle r r.blocks h j)
        | inr j ↦ let (x, k, w) = hits-Made needle rs h j in (x, inr k, w)
      ]

  Made-hits :
      (needle : List ℕ) (rs : List SessionRecord) (h : SessionSearchHit) (r : SessionRecord)
      (b : TranscriptBlock)
      → In r rs
      → In b r.blocks
      → Makes needle r b h
      → In h (hits needle rs)
  unfolding hits
  Made-hits needle [] h r b i j w = absurd i
  Made-hits needle (x ∷ rs) h r b (inl e) j w =
      In-append_left h (block_hits needle x x.blocks) (hits needle rs) (
        subst (λ y. In h (block_hits needle y y.blocks)) e
          (Makes-block_hits needle r r.blocks h b j w))
  Made-hits needle (x ∷ rs) h r b (inr i) j w =
      In-append_right h (block_hits needle x x.blocks) (hits needle rs)
        (Made-hits needle rs h r b i j w)

insert_by_seq-In :
    (x r : SessionRecord) (rs : List SessionRecord) → In x (insert_by_seq r rs) ↔ In x (r ∷ rs)
unfolding insert_by_seq
insert_by_seq-In x r [] = (λ i. i, λ i. i)
insert_by_seq-In x r (y ∷ rs) = placed (leb r.session.seq y.session.seq) (insert_by_seq-In x r rs)
  where
    placed :
        (v : Bool)
        → In x (insert_by_seq r rs) ↔ In x (r ∷ rs)
        → In x (if v then r ∷ y ∷ rs else y ∷ insert_by_seq r rs) ↔ In x (r ∷ y ∷ rs)
    placed true after = (λ i. i, λ i. i)
    placed false after = (
      λ i. In-swap x y r rs (In-under x y (insert_by_seq r rs) (r ∷ rs) after.0 i),
      λ i. In-under x y (r ∷ rs) (insert_by_seq r rs) after.1 (In-swap x r y rs i),
    )

sort_by_seq-In : (x : SessionRecord) (rs : List SessionRecord) → In x (sort_by_seq rs) ↔ In x rs
unfolding sort_by_seq
sort_by_seq-In x [] = (λ i. i, λ i. i)
sort_by_seq-In x (r ∷ rs) =
    let sorted = sort_by_seq rs in
    let placed = insert_by_seq-In x r sorted in
    let same = sort_by_seq-In x rs in
    (
      λ i. In-under x r sorted rs same.0 (placed.0 i),
      λ i. placed.1 (In-under x r rs sorted same.1 i),
    )

-- The search finds what is there, and nothing else: a hit is in the result exactly where the trimmed
-- query in lower case is not empty, and stands in the text of a block of some stored session in lower
-- case; the hit then names that session and that block, with the session's title and a snippet of the
-- text.
pub search_iff :
    (lower : List ℕ → List ℕ) (s : Store) (query : List ℕ) (h : SessionSearchHit)
    → In h (search lower s query)
      ↔ ((lower (trim query) ≢ []) × Made lower (lower (trim query)) (map (λ e. e.1) s.sessions) h)
unfolding search
search_iff lower s query h = searched (lower (trim query))
  where
    searched :
        (needle : List ℕ)
        → In h (elim needle [ [] ↦ [] | c ∷ cs ↦ hits lower (c ∷ cs) (ordered s) ])
          ↔ ((needle ≢ []) × Made lower needle (map (λ e. e.1) s.sessions) h)
    searched [] = (λ i. absurd i, λ m. absurd (m.0 refl))
    searched (c ∷ cs) = (
      λ i. (
        λ e. absurd (cc e),
        let (r, j, w) = hits-Made lower (c ∷ cs) (ordered s) h i in
            (r, (sort_by_seq-In r (map (λ e. e.1) s.sessions)).0 j, w),
      ),
      λ m.
          let (r, j, (b, k, w)) = m.1 in
          Made-hits lower (c ∷ cs) (ordered s) h r b
            ((sort_by_seq-In r (map (λ e. e.1) s.sessions)).1 j) k w,
    )
