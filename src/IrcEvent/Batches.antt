-- ===== src/IrcEvent/Batches.antt =====
-- ircevent/irc_callback.go: open batches, and what becomes of a message from the server. Batches
-- are shared by pointers: here a reference is an index of a heap that only grows. What the client's
-- callbacks do is not part of the model: they are returned as an action.
pub mod Items
pub mod Forward
pub mod Invariant
pub mod Reachable
pub mod Once
pub mod History
pub mod Leaves
pub mod Between
pub mod Collect
use irc_go.Prelude.{
  ℕ, zero, suc, ◌+◌, ◌-◌, ◌≤◌, ◌<◌, Bool, true, false, ◌&&◌, ◌||◌, not, ◌==◌, ltb, List, [], ◌∷◌,
  ◌++◌, Option, none, some, ◌≡◌, refl, sym, ap, ◌∙◌, inl, inr, arith, codes, Bytes, bytes_eq,
  bytes_eq_iff, length, string_eq, lookup, insert, delete, lookup-insert, if◌then◌else◌, Bool-cases,
  Option-cases,
}
use irc_go.IrcMsg.Message.{Message, get_tag}
use irc_go.IrcEvent.Labels.{
  Int64, pos, key_of, Labels, deserialize_label, get_label_callback, expire_labels,
}

pub record Batch : Type 0 where
  pub message : Message
  pub items : List ℕ

abbrev pub new_batch : Message → Batch
new_batch msg = record { message = msg; items = [] }

pub record BatchInProgress : Type 0 where
  pub created_at : ℕ
  pub label : Int64
  pub batch : ℕ

-- The fields of `Connection` under `batchMutex`, and the heap.
pub record Batches (L : Type 0) : Type 0 where
  pub heap : List Batch
  pub batches : List (Bytes × BatchInProgress)
  pub labels : Labels L

pub data BatchError : Type 0 where
  duplicate_batch_id no_parent_batch_id batch_not_open unknown_label : BatchError

pub data Action (L : Type 0) : Type 0 where
  log_invalid : Action L
  log_error : BatchError → Action L
  log_unknown_batch : Action L
  log_unknown_label : Action L
  no_action : Action L
  call_label : L → ℕ → Action L
  handle_batch : ℕ → Action L
  handle_message : Message → Action L

-- `append(batch.Items, item)` at a reference.
unfoldable pub append_item : List Batch → ℕ → ℕ → List Batch
append_item [] ref item = []
append_item (b ∷ heap) zero item = record b { items = b.items ++ item ∷ [] } ∷ heap
append_item (b ∷ heap) (suc ref) item = b ∷ append_item heap ref item

unfoldable pub load : List Batch → ℕ → Option Batch
load [] ref = none
load (b ∷ heap) zero = some b
load (b ∷ heap) (suc ref) = load heap ref

abbrev pub is_nested_in : Option Bytes → Bool
is_nested_in none = false
is_nested_in (some _) = true

abbrev pub label_of : Option Bytes → Int64
label_of none = pos 0
label_of (some s) = deserialize_label s

abbrev keep_fresh : ℕ → ℕ → List (Bytes × BatchInProgress) → List (Bytes × BatchInProgress)
keep_fresh now keep_alive [] = []
keep_fresh now keep_alive ((id, bip) ∷ batches) =
    let kept = keep_fresh now keep_alive batches in
    if ltb keep_alive (now - bip.created_at) then kept else (id, bip) ∷ kept

module _ {L : Type 0} where
  -- The start of a batch. It is registered before its parent is looked up.
  unfoldable pub start_batch :
      Batches L → ℕ → Message → Bytes → Option Bytes → Int64 → Action L × Batches L
  start_batch st now msg batch_id parent label = elim (lookup batch_id st.batches) [
    | some _ ↦ (log_error duplicate_batch_id, st)
    | none ↦
        let ref = length st.heap in
        let opened = record st {
          heap = st.heap ++ new_batch msg ∷ [];
          batches =
              insert batch_id (record { created_at = now; label = label; batch = ref }) st.batches;
        } in
        elim parent [
          | none ↦ (no_action, opened)
          | some parent_id ↦ elim (lookup parent_id opened.batches) [
            | none ↦ (log_error no_parent_batch_id, opened)
            | some bip ↦ (no_action, record opened { heap = append_item opened.heap bip.batch ref })
          ]
        ]
  ]

  abbrev pub finish_batch : Batches L → BatchInProgress → Action L × Batches L
  finish_batch st bip =
      if key_of bip.label == 0
      then (handle_batch bip.batch, st)
      else let (callback, labels) = get_label_callback st.labels bip.label in
        elim callback [
          | none ↦ (log_error unknown_label, record st { labels = labels })
          | some f ↦ (call_label f bip.batch, record st { labels = labels })
        ]

  unfoldable pub end_batch : Batches L → Bytes → Bool → Action L × Batches L
  end_batch st batch_id is_nested = elim (lookup batch_id st.batches) [
    | none ↦ (log_error batch_not_open, st)
    | some bip ↦
        let closed = record st { batches = delete batch_id st.batches } in
        if is_nested then (no_action, closed) else finish_batch closed bip
  ]

  abbrev pub batch_mark : Batches L → ℕ → Message → Bytes → Action L × Batches L
  batch_mark st now msg [] = (log_invalid, st)
  batch_mark st now msg (_ ∷ []) = (log_invalid, st)
  batch_mark st now msg (mark ∷ c ∷ id) =
      let parent = get_tag msg (codes "batch") in
      if mark == b'+'
      then start_batch st now msg (c ∷ id) parent (label_of (get_tag msg (codes "label")))
      else if mark == b'-'
      then end_batch st (c ∷ id) (is_nested_in parent)
      else (log_invalid, st)

  abbrev pub batch_params : Batches L → ℕ → Message → List Bytes → Action L × Batches L
  batch_params st now msg [] = (log_invalid, st)
  batch_params st now msg (p ∷ _) = batch_mark st now msg p

  unfoldable pub handle_batch_command : Batches L → ℕ → Message → Action L × Batches L
  handle_batch_command st now msg = batch_params st now msg msg.params

  unfoldable pub handle_batched_command : Batches L → Message → Bytes → Action L × Batches L
  handle_batched_command st msg batch_id = elim (lookup batch_id st.batches) [
    | none ↦ (log_unknown_batch, st)
    | some bip ↦ (
      no_action,
      record st { heap = append_item (st.heap ++ new_batch msg ∷ []) bip.batch (length st.heap) },
    )
  ]

  -- A labeled single command; the batch around it is a new one.
  abbrev pub labeled_command : Batches L → Message → Bytes → Action L × Batches L
  labeled_command st msg label_str =
      let (callback, labels) = get_label_callback st.labels (deserialize_label label_str) in
      elim callback [
        | none ↦ (log_unknown_label, record st { labels = labels })
        | some f ↦ (
          call_label f (length st.heap),
          record st { heap = st.heap ++ new_batch msg ∷ []; labels = labels },
        )
      ]

  abbrev pub labeled_tag : Batches L → Message → Bytes → Int64 → Action L × Batches L
  labeled_tag st msg label_str label =
      if key_of label == 0 then (log_unknown_label, st) else labeled_command st msg label_str

  abbrev pub labeled_or_normal : Batches L → Bool → Message → Action L × Batches L
  labeled_or_normal st label_negotiated msg =
      if label_negotiated
      then elim (get_tag msg (codes "label")) [
        | none ↦ (handle_message msg, st)
        | some label_str ↦ labeled_tag st msg label_str (deserialize_label label_str)
      ]
      else (handle_message msg, st)

  -- `runCallbacks`, with the two flags of the negotiated capabilities.
  unfoldable pub run_callbacks : Batches L → ℕ → Bool → Bool → Message → Action L × Batches L
  run_callbacks st now batch_negotiated label_negotiated msg =
      if batch_negotiated
      then if bytes_eq msg.command (codes "BATCH")
        then handle_batch_command st now msg
        else elim (get_tag msg (codes "batch")) [
          | some batch_id ↦ handle_batched_command st msg batch_id
          | none ↦ labeled_or_normal st label_negotiated msg
        ]
      else labeled_or_normal st label_negotiated msg

  -- `expireBatches`: the callbacks that are called with nil.
  unfoldable pub expire_batches : Batches L → Bool → ℕ → ℕ → List L × Batches L
  expire_batches st force now keep_alive =
      let (failed, kept) = expire_labels force now keep_alive st.labels.label_callbacks in
      (
        failed,
        record st {
          labels = record st.labels { label_callbacks = kept };
          batches = keep_fresh now keep_alive st.batches;
        },
      )

-- The part of `Connect` that makes new maps. What the old ones referred to stays in the heap.
unfoldable pub reset_batches : {L : Type 0} → Batches L → Batches L
reset_batches st = record st {
  batches = [];
  labels = record { label_callbacks = []; label_counter = 0 };
}

-- The messages of all items, in order.
unfoldable pub concat_all : (ℕ → Option (List Message)) → List ℕ → Option (List Message)
concat_all item [] = some []
concat_all item (ref ∷ refs) = elim (item ref) [
  | none ↦ none
  | some msgs ↦ elim (concat_all item refs) [ none ↦ none | some more ↦ some (msgs ++ more) ]
]

-- `handleBatchNaively`: the messages that are handled, in order; `none` if the recursion is deeper
-- than the fuel. A reference is never outside the heap.
unfoldable pub flatten : ℕ → List Batch → ℕ → Option (List Message)
flatten zero heap ref = none
flatten (suc f) heap ref = elim (load heap ref) [
  | none ↦ some []
  | some b ↦ elim (concat_all (flatten f heap) b.items) [
    | none ↦ none
    | some msgs ↦
        some (if bytes_eq b.message.command (codes "BATCH") then msgs else b.message ∷ msgs)
  ]
]

-- `HandleBatch`, for batch callbacks that say whether they have dealt with a batch: the messages that
-- are handled one by one. A nil batch is `none`.
unfoldable pub handle_batch_with :
    List (ℕ × (ℕ → Bool)) → ℕ → List Batch → Option ℕ → Option (List Message)
handle_batch_with callbacks f heap none = some []
handle_batch_with [] f heap (some ref) = flatten f heap ref
handle_batch_with ((_, callback) ∷ callbacks) f heap (some ref) =
    let rest = handle_batch_with callbacks f heap (some ref) in
    if callback ref then some [] else rest
