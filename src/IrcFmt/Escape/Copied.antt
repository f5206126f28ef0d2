-- ===== src/IrcFmt/Escape/Copied.antt =====
-- The text with its escapes, which the loop of `Escape` copies.
use irc_go.Prelude.{
  ℕ, zero, suc, ◌+◌, ◌-◌, ◌≤◌, ◌<◌, Bool, true, false, ◌||◌, ◌==◌, [], ◌∷◌, ◌++◌, some, ◌≡◌, refl,
  ap, inl, inr, arith, Bytes, length, contains, if◌then◌else◌, ==_iff, Bool-cases, ||-eq-false,
}
use irc_go.IrcFmt.Split.{
  bold, colour, reset, monospace, reverse_colour, italic, strikethrough, underline,
}
use irc_go.IrcFmt.Escape.{val_to_escape, replace_all, escape_round, escape_loop, escape_to_val}

-- The letter behind the `$` of an escape, for a byte that has one.
unfoldable pub mark_of : ℕ → ℕ
mark_of c =
    if c == b'$'
    then b'$'
    else if c == reverse_colour
    then b'v'
    else if c == bold
    then b'b'
    else if c == italic
    then b'i'
    else if c == strikethrough
    then b's'
    else if c == underline
    then b'u'
    else if c == monospace
    then b'm'
    else b'r'

unfoldable pub is_marked : ℕ → Bool
is_marked c =
    c == b'$'
    || c == reverse_colour
    || c == bold
    || c == italic
    || c == strikethrough
    || c == underline
    || c == monospace
    || c == reset

pub val_to_escape-plain :
    (c : ℕ)
    → is_marked c ≡ false
    → (c == colour) ≡ false
    → (val_to_escape c ≡ c ∷ []) × ((c == b'$') ≡ false)
unfolding is_marked val_to_escape
val_to_escape-plain c h k = ground arith

pub val_to_escape-mark_of :
    (c : ℕ)
    → is_marked c ≡ true
    → (val_to_escape c ≡ b'$' ∷ mark_of c ∷ [])
      × ((mark_of c == b'c') ≡ false)
      × (escape_to_val (mark_of c) ≡ c)
unfolding is_marked val_to_escape mark_of escape_to_val
val_to_escape-mark_of c h = ground arith

escape_step :
    (f c : ℕ) (s out rest more : Bytes)
    → 0 < f
    → escape_round c s ≡ some (out, rest)
    → escape_loop (f - 1) rest ≡ some more
    → escape_loop f (c ∷ s) ≡ some (out ++ more)
unfolding escape_loop
escape_step zero c s out rest more h e k = absurd (omega arith)
escape_step (suc f) c s out rest more h e k =
    let same : suc f - 1 ≡ f = omega arith in
    let k' : escape_loop f rest ≡ some more = rw same at k in
    rw (e, escape_loop) (rw (k', escape_loop))

round_plain : (c : ℕ) (s : Bytes) → (c == b'$') ≡ false → escape_round c s ≡ some (c ∷ [], s)
unfolding escape_round
round_plain c [] h = refl
round_plain c (d ∷ []) h = ground arith
round_plain c (d ∷ e ∷ s) h = ground arith

round_mark :
    (x : ℕ) (s : Bytes)
    → (x == b'c') ≡ false
    → (x == b'$') ≡ false
    → escape_round b'$' (x ∷ s) ≡ some (b'$' ∷ [], x ∷ s)
unfolding escape_round
round_mark x [] h k = ground arith
round_mark x (e ∷ s) h k = ground arith

round_dollars :
    (x : ℕ) (s : Bytes)
    → (x == b'c') ≡ false
    → escape_round b'$' (b'$' ∷ x ∷ s) ≡ some (b'$' ∷ [], b'$' ∷ x ∷ s)
unfolding escape_round
round_dollars x s h = ground arith

escape_loop_nil : (f : ℕ) → escape_loop f [] ≡ some []
unfolding escape_loop
escape_loop_nil zero = refl
escape_loop_nil (suc f) = refl

-- A text that the loop copies.
unfoldable pub Copied : ℕ → Bytes → Type 0
Copied f t = escape_loop f t ≡ some t

Copied-plain :
    (f c : ℕ) (t : Bytes) → 0 < f → (c == b'$') ≡ false → Copied (f - 1) t → Copied f (c ∷ t)
unfolding Copied
Copied-plain f c t h k e = escape_step f c t (c ∷ []) t t h (round_plain c t k) e

-- An escape that is not of a `$`.
Copied-mark :
    (f x : ℕ) (t : Bytes)
    → 1 < f
    → (x == b'c') ≡ false
    → (x == b'$') ≡ false
    → Copied (f - 1 - 1) t
    → Copied f (b'$' ∷ x ∷ t)
unfolding Copied
Copied-mark f x t h k l e =
    escape_step f b'$' (x ∷ t) (b'$' ∷ []) (x ∷ t) (x ∷ t) (omega arith) (round_mark x t k l)
      (Copied-plain (f - 1) x t (omega arith) l e)

-- Two dollars, and what makes the second one stand for itself.
Copied-dollars :
    (f : ℕ) (t : Bytes)
    → 1 < f
    → escape_round b'$' (b'$' ∷ t) ≡ some (b'$' ∷ [], b'$' ∷ t)
    → escape_round b'$' t ≡ some (b'$' ∷ [], t)
    → Copied (f - 1 - 1) t
    → Copied f (b'$' ∷ b'$' ∷ t)
unfolding Copied
Copied-dollars f t h k l e =
    escape_step f b'$' (b'$' ∷ t) (b'$' ∷ []) (b'$' ∷ t) (b'$' ∷ t) (omega arith) k
      (escape_step (f - 1) b'$' t (b'$' ∷ []) t t (omega arith) l e)

Copied-dollars_c :
    (f : ℕ) (t : Bytes) → 0 < f → Copied (f - 1) t → Copied f (b'$' ∷ b'$' ∷ b'c' ∷ t)
unfolding Copied
Copied-dollars_c f t h e =
    escape_step f b'$' (b'$' ∷ b'c' ∷ t) (b'$' ∷ b'$' ∷ b'c' ∷ []) t t h
      (unfold escape_round in refl) e

-- Behind a `$`, the escaped form of a text that does not begin with `c`.
rounds-replace_all :
    (d : ℕ) (s : Bytes)
    → (d == b'c') ≡ false
    → (d == colour) ≡ false
    → (escape_round b'$' (b'$' ∷ replace_all (d ∷ s))
        ≡ some (b'$' ∷ [], b'$' ∷ replace_all (d ∷ s)))
      × (escape_round b'$' (replace_all (d ∷ s)) ≡ some (b'$' ∷ [], replace_all (d ∷ s)))
unfolding replace_all
rounds-replace_all d s h k = elim (Bool-cases (is_marked d)) [
  | inl m ↦
      let (e, l, _) = val_to_escape-mark_of d m in
      rw e (
        round_dollars b'$' (mark_of d ∷ replace_all s) refl,
        round_dollars (mark_of d) (replace_all s) l,
      )
  | inr m ↦
      let (e, l) = val_to_escape-plain d m k in
      rw e (round_dollars d (replace_all s) h, round_mark d (replace_all s) h l)
]

mark_not_dollar : (c : ℕ) → (c == b'$') ≡ false → is_marked c ≡ true → (mark_of c == b'$') ≡ false
unfolding mark_of is_marked
mark_not_dollar c h m = ground arith

-- A byte of the text, with what follows it copied.
Copied-cons :
    (f c : ℕ) (s : Bytes)
    → (c == colour) ≡ false
    → (c == b'$') ≡ false
    → length (replace_all (c ∷ s)) ≤ f
    → ((g : ℕ) → length (replace_all s) ≤ g → Copied g (replace_all s))
    → Copied f (replace_all (c ∷ s))
unfolding replace_all
Copied-cons f c s h k len ih = elim (Bool-cases (is_marked c)) [
  | inl m ↦
      let (e, l, back) = val_to_escape-mark_of c m in
      let not_dollar : (mark_of c == b'$') ≡ false = mark_not_dollar c k m in
      let n : length (replace_all s) + 2 ≤ f = omega (arith, rw e at len) in
      rw e (
        Copied-mark f (mark_of c) (replace_all s) (omega arith) l not_dollar
          (ih (f - 1 - 1) (omega arith)))
  | inr m ↦
      let (e, l) = val_to_escape-plain c m h in
      let n : length (replace_all s) + 1 ≤ f = omega (arith, rw e at len) in
      rw e (Copied-plain f c (replace_all s) (omega arith) k (ih (f - 1) (omega arith)))
]

replace_all-dollar :
    (c : ℕ) (s : Bytes) → (c == b'$') ≡ true → replace_all (c ∷ s) ≡ b'$' ∷ b'$' ∷ replace_all s
unfolding replace_all val_to_escape
replace_all-dollar c s e = rw ((==_iff c b'$').0 e)

replace_all-letter :
    (d : ℕ) (s : Bytes) → (d == b'c') ≡ true → replace_all (d ∷ s) ≡ b'c' ∷ replace_all s
unfolding replace_all val_to_escape
replace_all-letter d s e = rw ((==_iff d b'c').0 e)

pub Copied-replace_all :
    (f : ℕ) (s : Bytes)
    → length (replace_all s) ≤ f
    → contains colour s ≡ false
    → Copied f (replace_all s)
unfolding contains
Copied-replace_all f [] len h = unfold Copied in unfold replace_all in escape_loop_nil f
Copied-replace_all f (c ∷ []) len h = elim (Bool-cases (c == b'$')) [
  | inl e ↦
      let r = replace_all-dollar c [] e in
      let none_left : replace_all [] ≡ [] = unfold replace_all in refl in
      let n : 1 < f = omega (arith, ap length r) in
      rw r (
        rw none_left (
          Copied-dollars f [] n (unfold escape_round in refl) (unfold escape_round in refl)
            (unfold Copied in escape_loop_nil (f - 1 - 1))))
  | inr e ↦
      Copied-cons f c [] (||-eq-false (c == colour) false h).0 e len
        (λ g l. Copied-replace_all g [] l refl)
]
Copied-replace_all f (c ∷ d ∷ s) len h =
    let (hc, hs) = ||-eq-false (c == colour) (d == colour || contains colour s) h in
    let (hd, ht) = ||-eq-false (d == colour) (contains colour s) hs in
    elim (Bool-cases (c == b'$')) [
      | inr e ↦ Copied-cons f c (d ∷ s) hc e len (λ g l. Copied-replace_all g (d ∷ s) l hs)
      | inl e ↦ elim (Bool-cases (d == b'c')) [
        | inl k ↦
            let r = replace_all-dollar c (d ∷ s) e in
            let q = replace_all-letter d s k in
            let n : length (replace_all s) + 3 ≤ f = omega (arith, ap length r, ap length q) in
            rw r (
              rw q (
                Copied-dollars_c f (replace_all s) (omega arith)
                  (Copied-replace_all (f - 1) s (omega arith) ht)))
        | inr k ↦
            let r = replace_all-dollar c (d ∷ s) e in
            let n : length (replace_all (d ∷ s)) + 2 ≤ f = omega (arith, ap length r) in
            let (first, second) = rounds-replace_all d s k hd in
            rw r (
              Copied-dollars f (replace_all (d ∷ s)) (omega arith) first second
                (Copied-replace_all (f - 1 - 1) (d ∷ s) (omega arith) hs))
      ]
    ]
