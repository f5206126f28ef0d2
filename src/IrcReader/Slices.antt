-- ===== src/IrcReader/Slices.antt =====
-- Slices and copies of the buffer.
use native.Mathlib.Nat.{zero-add}
use irc_go.Prelude.{
  ℕ, zero, suc, ◌+◌, ◌-◌, ◌≤◌, [], ◌∷◌, ◌++◌, ◌≡◌, refl, ap, ◌∙◌, arith, Bytes, length, length-take,
  length-drop, take, drop, take-append, drop-append,
}
use irc_go.IrcReader.{slice, copy, zeros}

take-nil : (n : ℕ) → take {A = ℕ} n [] ≡ []
take-nil zero = refl
take-nil (suc n) = refl

drop-nil : (n : ℕ) → drop {A = ℕ} n [] ≡ []
drop-nil zero = refl
drop-nil (suc n) = refl

pub take-add : (m n : ℕ) (s : Bytes) → take (m + n) s ≡ take m s ++ take n (drop m s)
take-add zero n s = rw zero-add
take-add (suc m) n [] = rw (take-nil (suc m + n), take-nil n)
take-add (suc m) n (x ∷ s) =
    let e : suc m + n ≡ suc (m + n) = omega arith in rw e (ap (◌∷◌ x) (take-add m n s))

pub drop-drop : (m n : ℕ) (s : Bytes) → drop n (drop m s) ≡ drop (m + n) s
drop-drop zero n s = rw zero-add
drop-drop (suc m) n [] = rw (drop-nil n, drop-nil (suc m + n))
drop-drop (suc m) n (x ∷ s) =
    let e : suc m + n ≡ suc (m + n) = omega arith in rw e (drop-drop m n s)

pub take_all : (n : ℕ) (s : Bytes) → length s ≤ n → take n s ≡ s
take_all n [] h = take-nil n
take_all zero (x ∷ s) h = elim h [ ]
take_all (suc n) (x ∷ s) h = ap (◌∷◌ x) (take_all n s (omega arith))

-- A slice splits at any point in between.
pub slice_split : (b : Bytes) (i j k : ℕ) → i ≤ j → j ≤ k → slice b i k ≡ slice b i j ++ slice b j k
slice_split b i j k p q =
    ap (λ n. take n (drop i b)) (omega arith)
    ∙ take-add (j - i) (k - j) (drop i b)
    ∙ ap (λ s. take (j - i) (drop i b) ++ take (k - j) s)
        (drop-drop i (j - i) b ∙ ap (λ n. drop n b) (omega arith))

pub length-slice : (b : Bytes) (i j : ℕ) → i ≤ j → j ≤ length b → length (slice b i j) ≡ j - i
length-slice b i j p q = omega (arith, length-take (j - i) (drop i b), length-drop i b)

pub length-copy : (dst src : Bytes) → length (copy dst src) ≡ length dst
length-copy dst [] = refl
length-copy [] (s ∷ src) = refl
length-copy (d ∷ dst) (s ∷ src) = ap suc (length-copy dst src)

pub length-zeros : (n : ℕ) → length (zeros n) ≡ n
length-zeros zero = refl
length-zeros (suc n) = ap suc (length-zeros n)

-- What was copied in is read out again.
pub take-copy : (dst src : Bytes) → length src ≤ length dst → take (length src) (copy dst src) ≡ src
take-copy dst [] h = refl
take-copy [] (s ∷ src) h = elim h [ ]
take-copy (d ∷ dst) (s ∷ src) h = ap (◌∷◌ s) (take-copy dst src (omega arith))

pub take_front : {n : ℕ} (a : Bytes) → length a ≡ n → (b : Bytes) → take n (a ++ b) ≡ a
take_front a e b = rw (← e) (take-append a b)

pub drop_front : {n : ℕ} (a : Bytes) → length a ≡ n → (b : Bytes) → drop n (a ++ b) ≡ b
drop_front a e b = rw (← e) (drop-append a b)

-- The bytes in front of a read stay, and those read stand behind them.
pub take_read :
    (b got : Bytes) (n : ℕ)
    → n + length got ≤ length b
    → take (n + length got) (take n b ++ copy (drop n b) got) ≡ take n b ++ got
take_read b got n h =
    let e : length (take n b) ≡ n = omega (arith, length-take n b) in
    take-add n (length got) (take n b ++ copy (drop n b) got)
    ∙ rw
        (
          take_front (take n b) e (copy (drop n b) got),
          drop_front (take n b) e (copy (drop n b) got),
        )
        (ap (◌++◌ (take n b)) (take-copy (drop n b) got (omega (arith, length-drop n b))))
