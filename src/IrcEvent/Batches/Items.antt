-- ===== src/IrcEvent/Batches/Items.antt =====
-- What the items of a batch are, and the batch that is its own item.
use irc_go.Prelude.{
  ℕ, zero, suc, List, [], ◌∷◌, ◌++◌, none, some, ◌≡◌, refl, ap, ◌∙◌, arith, codes, Bytes,
  bytes_eq_iff, length, string_eq, lookup, insert, lookup-insert,
}
use irc_go.IrcMsg.Message.{Message, get_tag}
use irc_go.IrcEvent.Labels.{Int64}
use irc_go.IrcEvent.Batches.{
  Batch, new_batch, BatchInProgress, Batches, append_item, load, start_batch, batch_params,
  label_of, handle_batch_command, handle_batched_command, flatten, concat_all,
}

pub load_last : (heap : List Batch) (n : Batch) → load (heap ++ n ∷ []) (length heap) ≡ some n
unfolding load
load_last [] n = refl
load_last (c ∷ heap) n = load_last heap n

pub load-append_item :
    (heap : List Batch) (n : Batch) (ref item : ℕ) {b : Batch}
    → load heap ref ≡ some b
    → (load (append_item (heap ++ n ∷ []) ref item) ref
        ≡ some (record b { items = b.items ++ item ∷ [] }))
      × (load (append_item (heap ++ n ∷ []) ref item) (length heap) ≡ some n)
unfolding load append_item
load-append_item [] n ref item e = absurd (ground arith)
load-append_item (c ∷ heap) n zero item {b} e = (ground arith, load_last heap n)
load-append_item (c ∷ heap) n (suc ref) item e = load-append_item heap n ref item e

own_item :
    (heap : List Batch) (n : Batch) (item : ℕ)
    → load (append_item (heap ++ n ∷ []) (length heap) item) (length heap)
      ≡ some (record n { items = n.items ++ item ∷ [] })
unfolding load append_item
own_item [] n item = refl
own_item (c ∷ heap) n item = own_item heap n item

-- A message in an open batch becomes its last item, and the batch is otherwise as it was.
pub load-handle_batched_command :
    {L : Type 0} (st : Batches L) (msg : Message) (batch_id : Bytes) {bip : BatchInProgress}
    {b : Batch}
    → lookup batch_id st.batches ≡ some bip
    → load st.heap bip.batch ≡ some b
    → let (_, st') = handle_batched_command st msg batch_id in
      (st'.batches ≡ st.batches)
      × (load st'.heap bip.batch ≡ some (record b { items = b.items ++ length st.heap ∷ [] }))
      × (load st'.heap (length st.heap) ≡ some (new_batch msg))
unfolding handle_batched_command
load-handle_batched_command st msg batch_id {bip} {b} e k =
    let (p, q) = load-append_item st.heap (new_batch msg) bip.batch (length st.heap) {b = b} k in
    rw (e, handle_batched_command) (refl, p, q)

flatten_loops :
    (f : ℕ) (heap : List Batch) (ref : ℕ) {b : Batch}
    → load heap ref ≡ some b
    → b.items ≡ ref ∷ []
    → flatten f heap ref ≡ none
unfolding flatten concat_all
flatten_loops zero heap ref e k = refl
flatten_loops (suc f) heap ref {b} e k =
    rw (e, flatten) (rw (k, flatten) (rw (flatten_loops f heap ref e k, concat_all)))

start_nested_in_itself :
    {L : Type 0} (st : Batches L) (now : ℕ) (msg : Message) (id : Bytes) (label : Int64)
    → lookup id st.batches ≡ none
    → load (start_batch st now msg id (some id) label).1.heap (length st.heap)
      ≡ some (record { message = msg; items = length st.heap ∷ [] })
unfolding start_batch
start_nested_in_itself {L} st now msg id label e =
    let bip : BatchInProgress = record {
      created_at = now;
      label = label;
      batch = length st.heap;
    } in
    let found : lookup id (insert id bip st.batches) ≡ some bip =
      rw (lookup-insert id id bip st.batches, (bytes_eq_iff id id).1 refl) in
    rw (e, start_batch)
      (rw (found, start_batch) (own_item st.heap (new_batch msg) (length st.heap)))

-- To flatten a batch that was started as nested in itself, under an ID that was not open, recurses
-- without end: no amount of fuel is enough.
pub flatten-handle_batch_command :
    {L : Type 0} (st : Batches L) (now : ℕ) (msg : Message) (c : ℕ) (id : Bytes) (ps : List Bytes)
    (f : ℕ)
    → msg.params ≡ (b'+' ∷ c ∷ id) ∷ ps
    → get_tag msg (codes "batch") ≡ some (c ∷ id)
    → lookup (c ∷ id) st.batches ≡ none
    → flatten f (handle_batch_command st now msg).1.heap (length st.heap) ≡ none
unfolding handle_batch_command
flatten-handle_batch_command {L} st now msg c id ps f e tag new =
    let marked : handle_batch_command st now msg
        ≡ start_batch st now msg (c ∷ id) (some (c ∷ id)) (label_of (get_tag msg (codes "label"))) =
      ap (batch_params st now msg) e
      ∙ ap
          (λ parent.
            start_batch st now msg (c ∷ id) parent (label_of (get_tag msg (codes "label"))))
          tag in
    rw marked (
      flatten_loops f
        (start_batch st now msg (c ∷ id) (some (c ∷ id))
          (label_of (get_tag msg (codes "label")))).1.heap
        (length st.heap) {b = record { message = msg; items = length st.heap ∷ [] }}
        (start_nested_in_itself st now msg (c ∷ id) (label_of (get_tag msg (codes "label"))) new)
        refl)
