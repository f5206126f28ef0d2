-- ===== src/IrcEvent/Batches/Leaves.antt =====
-- The heap of batches while one batch takes messages as its items.
use irc_go.Prelude.{
  ℕ, zero, suc, ◌<◌, true, false, ◌==◌, List, [], ◌∷◌, ◌++◌, some, ◌≡◌, refl, arith, codes,
  bytes_eq, length, string_eq, nat_eq,
}
use irc_go.IrcMsg.Message.{Message}
use irc_go.IrcEvent.Batches.{Batch, new_batch, append_item, load, flatten, concat_all}

-- Items that are messages of their own, apart from the batch `ref`.
pub data AreLeaves (heap : List Batch) (ref : ℕ) : List ℕ → List Message → Type 0 where
  no_leaves : AreLeaves heap ref [] []
  leaf :
      {refs : List ℕ} {msgs : List Message} (r : ℕ) (msg : Message)
      → (r == ref) ≡ false
      → load heap r ≡ some (new_batch msg)
      → bytes_eq msg.command (codes "BATCH") ≡ false
      → AreLeaves heap ref refs msgs
      → AreLeaves heap ref (r ∷ refs) (msg ∷ msgs)

load_front :
    (heap : List Batch) (n b : Batch) (r : ℕ)
    → load heap r ≡ some b
    → load (heap ++ n ∷ []) r ≡ some b
unfolding load
load_front [] n b r e = absurd (ground arith)
load_front (c ∷ heap) n b zero e = e
load_front (c ∷ heap) n b (suc r) e = load_front heap n b r e

kept_leaf :
    (heap : List Batch) (n b : Batch) (ref item r : ℕ)
    → (r == ref) ≡ false
    → load heap r ≡ some b
    → load (append_item (heap ++ n ∷ []) ref item) r ≡ some b
unfolding load append_item
kept_leaf [] n b ref item r d e = absurd (ground arith)
kept_leaf (c ∷ heap) n b zero item zero d e = absurd (ground arith)
kept_leaf (c ∷ heap) n b zero item (suc r) d e = load_front heap n b r e
kept_leaf (c ∷ heap) n b (suc ref) item zero d e = e
kept_leaf (c ∷ heap) n b (suc ref) item (suc r) d e = kept_leaf heap n b ref item r (ground arith) e

pub load_below :
    (heap : List Batch) (ref : ℕ) (b : Batch) → load heap ref ≡ some b → ref < length heap
unfolding load
load_below [] ref b e = absurd (ground arith)
load_below (c ∷ heap) zero b e = omega arith
load_below (c ∷ heap) (suc ref) b e = let rest = load_below heap ref b e in omega arith

-- One more message in the batch.
pub AreLeaves-append :
    (heap : List Batch) (ref : ℕ) (refs : List ℕ) (msgs : List Message) (msg : Message)
    → ref < length heap
    → bytes_eq msg.command (codes "BATCH") ≡ false
    → load (append_item (heap ++ new_batch msg ∷ []) ref (length heap)) (length heap)
      ≡ some (new_batch msg)
    → AreLeaves heap ref refs msgs
    → AreLeaves
        (append_item (heap ++ new_batch msg ∷ []) ref (length heap))
        ref
        (refs ++ length heap ∷ [])
        (msgs ++ msg ∷ [])
AreLeaves-append heap ref _ _ msg below no_batch last no_leaves =
    leaf (length heap) msg (ground arith) last no_batch no_leaves
AreLeaves-append heap ref _ _ msg below no_batch last (leaf {refs} {msgs} r m d e k rest) =
    leaf r m d (kept_leaf heap (new_batch msg) (new_batch m) ref (length heap) r d e) k
      (AreLeaves-append heap ref refs msgs msg below no_batch last rest)

concat_all-leaves :
    (heap : List Batch) (ref : ℕ) (refs : List ℕ) (msgs : List Message)
    → AreLeaves heap ref refs msgs
    → concat_all (flatten 1 heap) refs ≡ some msgs
unfolding concat_all flatten
concat_all-leaves heap ref _ _ no_leaves = refl
concat_all-leaves heap ref _ _ (leaf {refs} {msgs} r msg d e k rest) =
    let one : flatten 1 heap r ≡ some (msg ∷ []) = rw (e, flatten) (rw (k, flatten) refl) in
    rw (one, concat_all) (rw (concat_all-leaves heap ref refs msgs rest, concat_all) refl)

pub flatten_batch :
    (heap : List Batch) (ref : ℕ) (refs : List ℕ) (start : Message) (msgs : List Message)
    → bytes_eq start.command (codes "BATCH") ≡ true
    → load heap ref ≡ some (record { message = start; items = refs })
    → AreLeaves heap ref refs msgs
    → flatten 2 heap ref ≡ some msgs
unfolding flatten
flatten_batch heap ref refs start msgs h e k =
    rw (e, flatten) (rw (concat_all-leaves heap ref refs msgs k) (rw h refl))
