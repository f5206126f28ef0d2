-- ===== src/IrcMsg/RoundTrip/Params.antt =====
-- The parameters that `line` writes, read by the loop of `parseLine`.
use irc_go.Prelude.{
  ℕ, zero, suc, ◌<◌, Bool, true, false, ◌||◌, List, [], ◌∷◌, ◌++◌, some, inl, inr, ◌≡◌, refl, ◌∙◌,
  ap, arith, Bytes, length, contains, cut-append, cut-eq-none, length-append, if◌then◌else◌,
  Bool-cases, Option-cases,
}
use irc_go.IrcMsg.Line.{param_requires_trailing, write_params}
use irc_go.IrcMsg.Parse.{trim_initial_spaces, parse_params_loop, parse_params}

-- A first space is skipped.
loop-space : (f : ℕ) (s : Bytes) → parse_params_loop f (b' ' ∷ s) ≡ parse_params_loop f s
unfolding parse_params_loop trim_initial_spaces
loop-space zero s = refl
loop-space (suc f) s = refl

-- What is written for one parameter or more begins with a space.
pub write_params-space :
    (force : Bool) (p : Bytes) (ps : List Bytes) {out : Bytes}
    → write_params force (p ∷ ps) ≡ some out
    → (r : Bytes) × (out ≡ b' ' ∷ r)
unfolding write_params
write_params-space force p [] h = (if param_requires_trailing p || force then b':' ∷ p else p, cc)
write_params-space force p (q ∷ ps) h = elim (Option-cases (write_params force (q ∷ ps))) [
  | inl e ↦ ground arith
  | inr (rest, e) ↦ (p ++ rest, ground arith)
]

-- The last parameter.
loop_last :
    (f : ℕ) (force : Bool) (p : Bytes)
    → parse_params_loop (suc f) (if param_requires_trailing p || force then b':' ∷ p else p)
      ≡ p ∷ []
unfolding parse_params_loop trim_initial_spaces param_requires_trailing contains
loop_last f true [] = refl
loop_last f false [] = refl
loop_last f force (c ∷ p) = elim (Bool-cases (param_requires_trailing (c ∷ p) || force)) [
  | inl e ↦ rw e
  | inr e ↦ rw e (ground (arith, cut-eq-none b' ' (c ∷ p)))
]

-- A parameter before the last.
loop_middle :
    (f : ℕ) (p r : Bytes)
    → param_requires_trailing p ≡ false
    → parse_params_loop (suc f) (p ++ b' ' ∷ r) ≡ p ∷ parse_params_loop f r
unfolding parse_params_loop trim_initial_spaces param_requires_trailing contains
loop_middle f [] r h = cc
loop_middle f (c ∷ p) r h = ground (arith, cut-append b' ' (c ∷ p) r)

write_params-cons :
    (force : Bool) (p q : Bytes) (ps : List Bytes) {r : Bytes}
    → write_params force (p ∷ q ∷ ps) ≡ some (b' ' ∷ r)
    → (t : Bytes) × (param_requires_trailing p ≡ false)
      × (write_params force (q ∷ ps) ≡ some (b' ' ∷ t))
      × (r ≡ p ++ b' ' ∷ t)
write_params-cons force p q ps h = elim (Option-cases (write_params force (q ∷ ps))) [
  | inl e ↦ absurd (unfold write_params in ground arith)
  | inr (rest, e) ↦
      let (t, s) = write_params-space force q ps e in
      (t, unfold write_params in ground arith, e ∙ ap some s, unfold write_params in ground arith)
]

-- The fuel is more than what is left to read behind the first space.
loop-write_params :
    (f : ℕ) (force : Bool) (ps : List Bytes) {r : Bytes}
    → write_params force ps ≡ some (b' ' ∷ r)
    → length r < f
    → parse_params_loop f r ≡ ps
loop-write_params zero force ps h l = elim l [ ]
loop-write_params (suc f) force [] h l = unfold write_params in cc
loop-write_params (suc f) force (p ∷ []) {r} h l =
    let e : (if param_requires_trailing p || force then b':' ∷ p else p) ≡ r =
      unfold write_params in cc in
    rw (← e) (loop_last f force p)
loop-write_params (suc f) force (p ∷ q ∷ ps) {r} h l =
    let (t, plain, rest, e) = write_params-cons force p q ps h in
    rw (e, loop_middle f p t plain)
      (ap (◌∷◌ p) (
        loop-write_params f force (q ∷ ps) rest
          (omega (arith, ap length e, length-append p (b' ' ∷ t)))))

-- What stands behind the first space of the written parameters is read as those parameters.
pub parse_params-behind_space :
    (force : Bool) (ps : List Bytes) (r : Bytes)
    → write_params force ps ≡ some (b' ' ∷ r)
    → parse_params r ≡ ps
unfolding parse_params
parse_params-behind_space force ps r h = loop-write_params (suc (length r)) force ps h (omega arith)
