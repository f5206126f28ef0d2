-- ===== src/IrcMsg/Utf8/Runes.antt =====
-- The decoder and the backward scan: a text that the decoder accepts so far ends in a whole code
-- point or in the first bytes of one.
use irc_go.Prelude.{
  ℕ, zero, suc, ◌≤◌, ◌<◌, true, false, List, [], ◌∷◌, ◌++◌, Option, none, some, inl, inr, ◌⊎◌, ◌≡◌,
  refl, subst, arith, Bytes, length, lt→ltb, ltb, within, Option-cases,
}
use irc_go.IrcMsg.Utf8.{Range, first, feed, rune_start, matches, one_rune, look_back, last_rune}

-- The first byte `d` of a code point of several bytes wants the ranges `rs` behind it.
pub record Leads (d : ℕ) (rs : List Range) : Type 0 where
  pub wants : first d ≡ some rs
  pub high : ltb d 0x80 ≡ false
  pub starts : rune_start d ≡ true

-- Last byte first: nothing of a code point, or its first one, two or three bytes with more to come.
pub data Shape : Bytes → List Range → Type 0 where
  whole : Shape [] []
  one : {d : ℕ} {r : Range} {rs : List Range} → Leads d (r ∷ rs) → Shape (d ∷ []) (r ∷ rs)
  two :
      {d c : ℕ} {q r : Range} {rs : List Range}
      → Leads d (q ∷ r ∷ rs)
      → within q.lo q.hi c ≡ true
      → Shape (c ∷ d ∷ []) (r ∷ rs)
  three :
      {d c b : ℕ} {p q r : Range} {rs : List Range}
      → Leads d (p ∷ q ∷ r ∷ rs)
      → within p.lo p.hi c ≡ true
      → within q.lo q.hi b ≡ true
      → Shape (b ∷ c ∷ d ∷ []) (r ∷ rs)

-- Ranges of continuation bytes, three at most.
abbrev IsCont : Range → Type 0
IsCont r = (0x80 ≤ r.lo) × (r.hi ≤ 0xBF)

abbrev AllCont : List Range → Type 0
AllCont [] = Unit {0}
AllCont (r ∷ rs) = IsCont r × AllCont rs

abbrev FirstFacts : ℕ → Option (List Range) → Type 0
FirstFacts d none = Unit {0}
FirstFacts d (some []) = d < 0x80
FirstFacts d (some (r ∷ rs)) = (0xC2 ≤ d) × AllCont (r ∷ rs) × (length rs ≤ 2)

first_facts : (d : ℕ) → FirstFacts d (first d)
unfolding first
first_facts d = ground arith

first-AllCont : (e : ℕ) (rs : List Range) → first e ≡ some rs → AllCont rs
first-AllCont e [] f = tt
first-AllCont e (r ∷ rs) f = (subst (FirstFacts e) f (first_facts e)).1

-- What leads a code point of several bytes is a first byte above ASCII.
Leads-intro : (d : ℕ) (r : Range) (rs : List Range) → first d ≡ some (r ∷ rs) → Leads d (r ∷ rs)
Leads-intro d r rs f =
    let facts = subst (FirstFacts d) f (first_facts d) in
    record { wants = f; high = ground arith; starts = unfold rune_start in ground arith }

Leads-not_cont : {d : ℕ} {rs : List Range} → Leads d rs → within 0x80 0xBF d ≡ false
Leads-not_cont l = let s = l.starts in unfold rune_start in ground arith

Leads-AllCont : {d : ℕ} {rs : List Range} → Leads d rs → AllCont rs
Leads-AllCont {d} {rs} l = first-AllCont d rs l.wants

Leads-length : {d : ℕ} {r : Range} {rs : List Range} → Leads d (r ∷ rs) → length rs ≤ 2
Leads-length {d} l = (subst (FirstFacts d) l.wants (first_facts d)).2

cont_high : (r : Range) (c : ℕ) → IsCont r → within r.lo r.hi c ≡ true → ltb c 0x80 ≡ false
cont_high r c i h = ground arith

cont_starts : (r : Range) (c : ℕ) → IsCont r → within r.lo r.hi c ≡ true → rune_start c ≡ false
unfolding rune_start
cont_starts r c i h = ground arith

-- A byte that is no continuation byte ends no code point of two bytes or more.
matches-end :
    (rs : List Range) (u : Bytes) (d : ℕ)
    → AllCont rs
    → within 0x80 0xBF d ≡ false
    → matches rs (u ++ d ∷ []) ≡ false
unfolding matches
matches-end [] [] d h k = refl
matches-end [] (c ∷ u) d h k = refl
matches-end (r ∷ rs) [] d h k = ground arith
matches-end (r ∷ rs) (c ∷ u) d h k = ground (arith, matches-end rs u d)

one_rune-end :
    (e : ℕ) (u : Bytes) (d : ℕ) → within 0x80 0xBF d ≡ false → one_rune (e ∷ (u ++ d ∷ [])) ≡ false
unfolding one_rune
one_rune-end e u d k = elim (Option-cases (first e)) [
  | inl n ↦ rw (n, one_rune)
  | inr (rs, f) ↦ rw (f, one_rune) (matches-end rs u d (first-AllCont e rs f) k)
]

look_back-end :
    (n : ℕ) (u : Bytes) (d : ℕ) (before : Bytes)
    → within 0x80 0xBF d ≡ false
    → look_back n (u ++ d ∷ []) before ≡ false
unfolding look_back
look_back-end zero u d before k = refl
look_back-end (suc n) u d [] k = refl
look_back-end (suc n) u d (e ∷ before) k =
    ground (arith, one_rune-end e u d k, look_back-end n (e ∷ u) d before k)

-- An unfinished code point is not taken for a whole one.
pub last_rune-Shape :
    {r : Range} {rs : List Range} (c : ℕ) (t before : Bytes)
    → Shape (c ∷ t) (r ∷ rs)
    → last_rune ((c ∷ t) ++ before) ≡ false
unfolding last_rune matches look_back one_rune
last_rune-Shape c t before (one l) = rw l.high (look_back-end 3 [] c before (Leads-not_cont l))
last_rune-Shape c t before (two l h) =
    let conts = Leads-AllCont l in rw (cont_high _ _ conts.0 h, l.starts, l.wants, one_rune) (rw h)
last_rune-Shape c t before (three l h k) =
    let conts = Leads-AllCont l in
    rw (cont_high _ _ conts.1.0 k, cont_starts _ _ conts.0 h, l.starts, l.wants, one_rune)
      (rw (h, k))

abbrev pub IsDone : Bytes → List Range → Bytes → Type 0
IsDone t rs before = (rs ≡ []) × (last_rune (t ++ before) ≡ true)

abbrev Fed : Bytes → Bytes → List Range → Type 0
Fed t before rs = Shape t rs ⊎ IsDone t rs before

feed-some :
    (r : Range) (c : ℕ) {rs rs' : List Range}
    → feed (r ∷ rs) c ≡ some rs'
    → (within r.lo r.hi c ≡ true) × (rs ≡ rs')
unfolding feed
feed-some r c e = ground arith

-- The first byte of a code point.
feed_first : (rs : List Range) (c : ℕ) (before : Bytes) → first c ≡ some rs → Fed (c ∷ []) before rs
unfolding last_rune
feed_first [] c before e = inr (refl, rw (lt→ltb _ _ (subst (FirstFacts c) e (first_facts c))))
feed_first (r ∷ rs) c before e = inl (one (Leads-intro c r rs e))

-- One byte: the code point goes on, or it is complete.
pub Shape-feed :
    {rs rs' : List Range} {t : Bytes} (c : ℕ) (before : Bytes)
    → Shape t rs
    → feed rs c ≡ some rs'
    → Shape (c ∷ t) rs' ⊎ IsDone (c ∷ t) rs' before
unfolding last_rune matches look_back one_rune
Shape-feed {rs'} c before whole e = feed_first rs' c before (unfold feed in e)
Shape-feed c before (one {d} {rs = []} l) e =
    let (w, p) = feed-some _ c e in
    subst (Fed (c ∷ d ∷ []) before) p
      (inr (refl, rw (cont_high _ _ (Leads-AllCont l).0 w, l.starts, l.wants, one_rune) (rw w)))
Shape-feed c before (one {d} {rs = q ∷ rs} l) e =
    let (w, p) = feed-some _ c e in subst (Fed (c ∷ d ∷ []) before) p (inl (two l w))
Shape-feed c before (two {d} {c = b} {rs = []} l h) e =
    let (w, p) = feed-some _ c e in
    let conts = Leads-AllCont l in
    subst (Fed (c ∷ b ∷ d ∷ []) before) p (
      inr (
        refl,
        rw (cont_high _ _ conts.1.0 w, cont_starts _ _ conts.0 h, l.starts, l.wants, one_rune)
            (rw (h, w)),
      ))
Shape-feed c before (two {d} {c = b} {rs = q ∷ rs} l h) e =
    let (w, p) = feed-some _ c e in subst (Fed (c ∷ b ∷ d ∷ []) before) p (inl (three l h w))
Shape-feed c before (three {d} {c = b} {b = a} {rs = []} l h k) e =
    let (w, p) = feed-some _ c e in
    let conts = Leads-AllCont l in
    subst (Fed (c ∷ a ∷ b ∷ d ∷ []) before) p (
      inr (
        refl,
        rw
            (
              cont_high _ _ conts.1.1.0 w,
              cont_starts _ _ conts.1.0 k,
              cont_starts _ _ conts.0 h,
              l.starts,
              l.wants,
              one_rune,
            )
            (rw (h, k, w)),
      ))
Shape-feed c before (three {rs = q ∷ rs} l h k) e = absurd (omega (arith, Leads-length l))
