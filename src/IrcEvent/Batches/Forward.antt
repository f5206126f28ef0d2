-- ===== src/IrcEvent/Batches/Forward.antt =====
-- References from a batch to its items go forward in the heap, so that to flatten it ends.
use irc_go.Prelude.{
  ℕ, zero, suc, ◌+◌, ◌-◌, ◌≤◌, ◌<◌, ltb, List, [], ◌∷◌, ◌++◌, Option, none, some, ◌≡◌, refl, ap,
  subst, inl, inr, arith, codes, Bytes, bytes_eq, length, string_eq, lookup, insert, delete,
  if◌then◌else◌, Bool-cases, Option-cases,
}
use irc_go.IrcMsg.Message.{Message}
use irc_go.IrcEvent.Batches.{
  Batch, new_batch, BatchInProgress, append_item, load, concat_all, flatten, keep_fresh,
}

-- Every reference of a list lies between two bounds, the first excluded.
unfoldable pub AllIn : ℕ → ℕ → List ℕ → Type 0
AllIn i n [] = Unit {0}
AllIn i n (x ∷ xs) = (i < x) × (x < n) × AllIn i n xs

-- Each batch of a heap that begins at `i` refers to later places below `n` only.
unfoldable pub IsForward : ℕ → ℕ → List Batch → Type 0
IsForward i n [] = Unit {0}
IsForward i n (b ∷ heap) = AllIn i n b.items × IsForward (suc i) n heap

AllIn-mono : (i n m : ℕ) (xs : List ℕ) → n ≤ m → AllIn i n xs → AllIn i m xs
unfolding AllIn
AllIn-mono i n m [] h a = a
AllIn-mono i n m (x ∷ xs) h (p, q, r) = (p, omega arith, AllIn-mono i n m xs h r)

AllIn-append : (i n x : ℕ) (xs : List ℕ) → i < x → x < n → AllIn i n xs → AllIn i n (xs ++ x ∷ [])
unfolding AllIn
AllIn-append i n x [] h k a = (h, k, tt)
AllIn-append i n x (y ∷ xs) h k (p, q, r) = (p, q, AllIn-append i n x xs h k r)

pub IsForward-append :
    (i n : ℕ) (heap : List Batch) (msg : Message)
    → IsForward i n heap
    → IsForward i (suc n) (heap ++ new_batch msg ∷ [])
unfolding IsForward AllIn
IsForward-append i n [] msg h = (tt, tt)
IsForward-append i n (b ∷ heap) msg (p, q) =
    (AllIn-mono i n (suc n) b.items (omega arith) p, IsForward-append (suc i) n heap msg q)

pub IsForward-append_item :
    (i n ref item : ℕ) (heap : List Batch)
    → i + ref < item
    → item < n
    → IsForward i n heap
    → IsForward i n (append_item heap ref item)
unfolding IsForward append_item
IsForward-append_item i n ref item [] h k f = f
IsForward-append_item i n zero item (b ∷ heap) h k (p, q) =
    (AllIn-append i n item b.items (omega arith) k p, q)
IsForward-append_item i n (suc ref) item (b ∷ heap) h k (p, q) =
    (p, IsForward-append_item (suc i) n ref item heap (omega arith) k q)

AllIn-load :
    (i n ref : ℕ) (heap : List Batch) {b : Batch}
    → IsForward i n heap
    → load heap ref ≡ some b
    → AllIn (i + ref) n b.items
unfolding IsForward load
AllIn-load i n ref [] f e = absurd (ground arith)
AllIn-load i n zero (c ∷ heap) {b} (p, q) e =
    let same : c ≡ b = ground arith in
    let here : i ≡ i + zero = omega arith in
    subst (λ x. AllIn (i + zero) n x.items) same (subst (λ j. AllIn j n c.items) here p)
AllIn-load i n (suc ref) (c ∷ heap) {b} (p, q) e =
    let here : suc i + ref ≡ i + suc ref = omega arith in
    subst (λ j. AllIn j n b.items) here (AllIn-load (suc i) n ref heap q e)

pub length-append_item :
    (heap : List Batch) (ref item : ℕ) → length (append_item heap ref item) ≡ length heap
unfolding append_item
length-append_item [] ref item = refl
length-append_item (b ∷ heap) zero item = refl
length-append_item (b ∷ heap) (suc ref) item = ap (λ n. suc n) (length-append_item heap ref item)

concat_all_total :
    (item : ℕ → Option (List Message)) (i n : ℕ) (refs : List ℕ)
    → ((ref : ℕ) → i < ref → (msgs : List Message) × (item ref ≡ some msgs))
    → AllIn i n refs
    → (msgs : List Message) × (concat_all item refs ≡ some msgs)
unfolding concat_all AllIn
concat_all_total item i n [] h a = ([], refl)
concat_all_total item i n (x ∷ xs) h (p, q, r) =
    let (msgs, e) = h x p in
    let (more, k) = concat_all_total item i n xs h r in
    (msgs ++ more, rw (e, concat_all) (rw (k, concat_all)))

load_out : (heap : List Batch) (ref : ℕ) → length heap ≤ ref → load heap ref ≡ none
unfolding load
load_out [] ref h = refl
load_out (b ∷ heap) zero h = absurd (omega arith)
load_out (b ∷ heap) (suc ref) h = load_out heap ref (omega arith)

-- To flatten any batch of a heap whose references go forward ends, with fuel for one level per
-- batch from this one on.
pub flatten_total :
    (f : ℕ) (heap : List Batch) (ref : ℕ)
    → IsForward 0 (length heap) heap
    → length heap ≤ ref + f
    → (msgs : List Message) × (flatten (suc f) heap ref ≡ some msgs)
unfolding flatten
flatten_total zero heap ref fw enough = ([], rw (load_out heap ref (omega arith), flatten))
flatten_total (suc f) heap ref fw enough = elim (Option-cases (load heap ref)) [
  | inl e ↦ ([], rw (e, flatten))
  | inr (b, e) ↦
      let (msgs, k) =
        concat_all_total (flatten (suc f) heap) (0 + ref) (length heap) b.items
          (λ x h. flatten_total f heap x fw (omega arith))
          (AllIn-load 0 (length heap) ref heap fw e) in
      (
        if bytes_eq b.message.command (codes "BATCH") then msgs else b.message ∷ msgs,
        rw (e, flatten) (rw (k, flatten)),
      )
]

-- The batches that are open lie in the heap.
unfoldable pub AreIn : ℕ → List (Bytes × BatchInProgress) → Type 0
AreIn n [] = Unit {0}
AreIn n ((id, bip) ∷ batches) = (bip.batch < n) × AreIn n batches

pub AreIn-mono : (n m : ℕ) (l : List (Bytes × BatchInProgress)) → n ≤ m → AreIn n l → AreIn m l
unfolding AreIn
AreIn-mono n m [] h a = a
AreIn-mono n m ((id, bip) ∷ l) h (p, q) = (omega arith, AreIn-mono n m l h q)

pub AreIn-lookup :
    (n : ℕ) (id : Bytes) (l : List (Bytes × BatchInProgress)) {bip : BatchInProgress}
    → AreIn n l
    → lookup id l ≡ some bip
    → bip.batch < n
unfolding AreIn lookup
AreIn-lookup n id [] a e = absurd (ground arith)
AreIn-lookup n id ((j, c) ∷ l) {bip} a e = ground (arith, AreIn-lookup n id l {bip = bip})

pub AreIn-insert :
    (n : ℕ) (id : Bytes) (bip : BatchInProgress) (l : List (Bytes × BatchInProgress))
    → bip.batch < n
    → AreIn n l
    → AreIn n (insert id bip l)
unfolding AreIn insert
AreIn-insert n id bip [] h a = (h, tt)
AreIn-insert n id bip ((j, c) ∷ l) h (p, q) = elim (Bool-cases (bytes_eq j id)) [
  | inl e ↦ rw e (h, q)
  | inr e ↦ rw e (p, AreIn-insert n id bip l h q)
]

pub AreIn-delete :
    (n : ℕ) (id : Bytes) (l : List (Bytes × BatchInProgress)) → AreIn n l → AreIn n (delete id l)
unfolding AreIn delete
AreIn-delete n id [] a = a
AreIn-delete n id ((j, c) ∷ l) (p, q) = elim (Bool-cases (bytes_eq j id)) [
  | inl e ↦ rw e (AreIn-delete n id l q)
  | inr e ↦ rw e (p, AreIn-delete n id l q)
]

pub AreIn-keep_fresh :
    (n now keep_alive : ℕ) (l : List (Bytes × BatchInProgress))
    → AreIn n l
    → AreIn n (keep_fresh now keep_alive l)
unfolding AreIn
AreIn-keep_fresh n now keep_alive [] a = a
AreIn-keep_fresh n now keep_alive ((j, c) ∷ l) (p, q) =
    elim (Bool-cases (ltb keep_alive (now - c.created_at))) [
      | inl e ↦ rw e (AreIn-keep_fresh n now keep_alive l q)
      | inr e ↦ rw e (p, AreIn-keep_fresh n now keep_alive l q)
    ]
