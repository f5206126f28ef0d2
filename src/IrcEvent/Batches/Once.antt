-- ===== src/IrcEvent/Batches/Once.antt =====
-- ircevent/irc_callback.go: each callback that waits for a labeled response is called once.
use irc_go.Prelude.{
  ℕ, Bool, true, false, ◌==◌, List, [], ◌∷◌, Option, ◌≡◌, sym, subst, inl, inr, arith, codes, Bytes,
  bytes_eq, lookup, delete, string_eq, Bool-cases, Option-cases,
}
use irc_go.IrcMsg.Message.{Message, get_tag}
use irc_go.IrcEvent.Labels.{Int64, key_of, Labels, deserialize_label, get_label_callback}
use irc_go.IrcEvent.Labels.Waiting.{IsLabels, Takes, Takes-nothing, get_label_callback-Takes}
use irc_go.IrcEvent.Batches.{
  Batches, BatchInProgress, Action, log_invalid, log_error, log_unknown_batch, log_unknown_label,
  no_action, call_label, handle_batch, handle_message, start_batch, finish_batch, end_batch,
  batch_params, handle_batch_command, handle_batched_command, labeled_command, labeled_tag,
  labeled_or_normal, run_callbacks, is_nested_in, label_of,
}

module _ {L : Type 0} where
  -- The callbacks that an action calls.
  abbrev pub called_by : Action L → List L
  called_by (call_label f _) = f ∷ []
  called_by log_invalid = []
  called_by (log_error _) = []
  called_by log_unknown_batch = []
  called_by log_unknown_label = []
  called_by no_action = []
  called_by (handle_batch _) = []
  called_by (handle_message _) = []

  -- What is called is taken out.
  abbrev Calls : Labels L → Action L × Batches L → Type 0
  Calls st out = Takes st (called_by out.0) out.1.labels

  no-Calls :
      (st : Batches L) (out : Action L × Batches L)
      → IsLabels st.labels
      → called_by out.0 ≡ []
      → out.1.labels ≡ st.labels
      → Calls st.labels out
  no-Calls st out v h k =
      subst (λ l. Takes st.labels l out.1.labels) (sym h)
        (subst (Takes st.labels []) (sym k) (Takes-nothing st.labels v))

  start_batch_quiet :
      (st : Batches L) (now : ℕ) (msg : Message) (id : Bytes) (parent : Option Bytes)
      (label : Int64)
      → (called_by (start_batch st now msg id parent label).0 ≡ [])
        × ((start_batch st now msg id parent label).1.labels ≡ st.labels)
  unfolding start_batch
  start_batch_quiet st now msg id parent label = ground arith

  finish_batch-Calls :
      (st : Batches L) (bip : BatchInProgress) (label : Int64)
      → IsLabels st.labels
      → Calls st.labels (finish_batch st (record bip { label = label }))
  finish_batch-Calls st bip label v =
      let taken = get_label_callback-Takes st.labels label v in
      elim (Bool-cases (key_of label == 0)) [
        | inl e ↦ rw e (Takes-nothing st.labels v)
        | inr e ↦ elim (Option-cases (get_label_callback st.labels label).0) [
          | inl k ↦ rw (e, k) (rw k at taken)
          | inr (f, k) ↦ rw (e, k) (rw k at taken)
        ]
      ]

  labeled_command-Calls :
      (st : Batches L) (msg : Message) (label_str : Bytes)
      → IsLabels st.labels
      → Calls st.labels (labeled_command st msg label_str)
  labeled_command-Calls st msg label_str v =
      let taken = get_label_callback-Takes st.labels (deserialize_label label_str) v in
      elim (Option-cases (get_label_callback st.labels (deserialize_label label_str)).0) [
        | inl k ↦ rw (k, labeled_command) (rw k at taken)
        | inr (f, k) ↦ rw (k, labeled_command) (rw k at taken)
      ]

  end_batch-Calls :
      (st : Batches L) (id : Bytes) (is_nested : Bool)
      → IsLabels st.labels
      → Calls st.labels (end_batch st id is_nested)
  unfolding end_batch
  end_batch-Calls st id is_nested v = elim (Option-cases (lookup id st.batches)) [
    | inl e ↦ rw (e, end_batch) (Takes-nothing st.labels v)
    | inr (bip, e) ↦ elim (Bool-cases is_nested) [
      | inl k ↦ rw (e, k, end_batch) (Takes-nothing st.labels v)
      | inr k ↦
          rw (e, k, end_batch)
            (finish_batch-Calls (record st { batches = delete id st.batches }) bip bip.label v)
    ]
  ]

  batch_params-Calls :
      (st : Batches L) (now : ℕ) (msg : Message) (params : List Bytes)
      → IsLabels st.labels
      → Calls st.labels (batch_params st now msg params)
  batch_params-Calls st now msg [] v = Takes-nothing st.labels v
  batch_params-Calls st now msg ([] ∷ _) v = Takes-nothing st.labels v
  batch_params-Calls st now msg ((_ ∷ []) ∷ _) v = Takes-nothing st.labels v
  batch_params-Calls st now msg ((mark ∷ c ∷ id) ∷ _) v =
      let parent = get_tag msg (codes "batch") in
      let label = label_of (get_tag msg (codes "label")) in
      let started = start_batch st now msg (c ∷ id) parent label in
      elim (Bool-cases (mark == b'+')) [
        | inl e ↦
            let (h, k) = start_batch_quiet st now msg (c ∷ id) parent label in
            simp e (no-Calls st started v h k)
        | inr e ↦ elim (Bool-cases (mark == b'-')) [
          | inl k ↦ simp (e, k) (end_batch-Calls st (c ∷ id) (is_nested_in parent) v)
          | inr k ↦ simp (e, k) (Takes-nothing st.labels v)
        ]
      ]

  labeled_tag-Calls :
      (st : Batches L) (msg : Message) (label_str : Bytes) (label : Int64)
      → IsLabels st.labels
      → Calls st.labels (labeled_tag st msg label_str label)
  labeled_tag-Calls st msg label_str label v = elim (Bool-cases (key_of label == 0)) [
    | inl e ↦ rw (e, labeled_tag) (Takes-nothing st.labels v)
    | inr e ↦ rw (e, labeled_tag) (labeled_command-Calls st msg label_str v)
  ]

  labeled_or_normal-Calls :
      (st : Batches L) (label_negotiated : Bool) (msg : Message)
      → IsLabels st.labels
      → Calls st.labels (labeled_or_normal st label_negotiated msg)
  labeled_or_normal-Calls st false msg v = Takes-nothing st.labels v
  labeled_or_normal-Calls st true msg v = elim (Option-cases (get_tag msg (codes "label"))) [
    | inl e ↦ rw (e, labeled_or_normal) (Takes-nothing st.labels v)
    | inr (label_str, e) ↦
        rw (e, labeled_or_normal)
          (labeled_tag-Calls st msg label_str (deserialize_label label_str) v)
  ]

  handle_batched_quiet :
      (st : Batches L) (msg : Message) (batch_id : Bytes)
      → (called_by (handle_batched_command st msg batch_id).0 ≡ [])
        × ((handle_batched_command st msg batch_id).1.labels ≡ st.labels)
  unfolding handle_batched_command
  handle_batched_quiet st msg batch_id = ground arith

  pub run_callbacks-Calls :
      (st : Batches L) (now : ℕ) (batch_negotiated label_negotiated : Bool) (msg : Message)
      → IsLabels st.labels
      → Calls st.labels (run_callbacks st now batch_negotiated label_negotiated msg)
  unfolding run_callbacks handle_batch_command
  run_callbacks-Calls st now false label_negotiated msg v =
      labeled_or_normal-Calls st label_negotiated msg v
  run_callbacks-Calls st now true label_negotiated msg v =
      elim (Bool-cases (bytes_eq msg.command (codes "BATCH"))) [
        | inl e ↦ rw e (batch_params-Calls st now msg msg.params v)
        | inr e ↦ elim (Option-cases (get_tag msg (codes "batch"))) [
          | inl k ↦ rw (e, k) (labeled_or_normal-Calls st label_negotiated msg v)
          | inr (batch_id, k) ↦
              let (h, l) = handle_batched_quiet st msg batch_id in
              rw (e, k) (no-Calls st (handle_batched_command st msg batch_id) v h l)
        ]
      ]
