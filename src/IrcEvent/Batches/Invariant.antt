-- ===== src/IrcEvent/Batches/Invariant.antt =====
-- Each operation on batches keeps the references of the heap going forward, if no batch is nested in
-- itself.
use irc_go.Prelude.{
  ℕ, suc, ◌<◌, Bool, true, false, ◌==◌, List, [], ◌∷◌, ◌++◌, Option, none, some, ◌≡◌, ◌≢◌, refl,
  sym, ap, ◌∙◌, inl, inr, arith, codes, Bytes, bytes_eq, length, length-append, string_eq, lookup,
  insert, delete, lookup-insert, if◌then◌else◌, ==_iff, Bool-cases, Option-cases,
}
use irc_go.IrcMsg.Message.{Message, get_tag}
use irc_go.IrcEvent.Labels.{Int64, key_of, get_label_callback, deserialize_label}
use irc_go.IrcEvent.Batches.{
  new_batch, BatchInProgress, Batches, log_invalid, no_action, is_nested_in, append_item,
  start_batch, finish_batch, end_batch, batch_mark, batch_params, labeled_tag, label_of,
  handle_batch_command, handle_batched_command, labeled_command, labeled_or_normal, run_callbacks,
  expire_batches,
}
use irc_go.IrcEvent.Registry.Restore.{differs}
use irc_go.IrcEvent.Batches.Forward.{
  IsForward, IsForward-append, IsForward-append_item, length-append_item, AreIn, AreIn-mono,
  AreIn-lookup, AreIn-insert, AreIn-delete, AreIn-keep_fresh,
}

-- No message starts a batch as an item of itself.
unfoldable pub NotSelfNested : Message → Type 0
NotSelfNested msg =
    (id : Bytes) (ps : List Bytes)
    → msg.params ≡ (b'+' ∷ id) ∷ ps
    → get_tag msg (codes "batch") ≢ some id

module _ {L : Type 0} where
  -- References go forward, and open batches are in the heap.
  pub record IsBatches (st : Batches L) : Type 0 where
    pub forward : IsForward 0 (length st.heap) st.heap
    pub are_in : AreIn (length st.heap) st.batches

  -- A line is put behind the heap.
  push-IsBatches :
      (st : Batches L) (msg : Message)
      → IsBatches st
      → IsBatches (record st { heap = st.heap ++ new_batch msg ∷ [] })
  push-IsBatches st msg h =
      let len : length (st.heap ++ new_batch msg ∷ []) ≡ suc (length st.heap) =
        omega (arith, length-append st.heap (new_batch msg ∷ [])) in
      record {
        forward = rw len (IsForward-append 0 (length st.heap) st.heap msg h.forward);
        are_in =
            rw len (
              AreIn-mono (length st.heap) (suc (length st.heap)) st.batches (omega arith) h.are_in);
      }

  -- A new place becomes an item of an earlier one.
  link-IsBatches :
      (st : Batches L) (ref item : ℕ)
      → ref < item
      → item < length st.heap
      → IsBatches st
      → IsBatches (record st { heap = append_item st.heap ref item })
  link-IsBatches st ref item lo hi h = record {
    forward =
        rw (length-append_item st.heap ref item)
          (IsForward-append_item 0 (length st.heap) ref item st.heap (omega arith) hi h.forward);
    are_in = rw (length-append_item st.heap ref item) h.are_in;
  }

  open-IsBatches :
      (st : Batches L) (id : Bytes) (bip : BatchInProgress)
      → bip.batch < length st.heap
      → IsBatches st
      → IsBatches (record st { batches = insert id bip st.batches })
  open-IsBatches st id bip lt h = record {
    forward = h.forward;
    are_in = AreIn-insert (length st.heap) id bip st.batches lt h.are_in;
  }

  -- A batch that has been put in the heap and opened.
  opened : Batches L → ℕ → Message → Bytes → Int64 → Batches L
  opened st now msg id label = record st {
    heap = st.heap ++ new_batch msg ∷ [];
    batches =
        insert id (record { created_at = now; label = label; batch = length st.heap }) st.batches;
  }

  opened-IsBatches :
      (st : Batches L) (now : ℕ) (msg : Message) (id : Bytes) (label : Int64)
      → IsBatches st
      → IsBatches (opened st now msg id label)
  unfolding opened
  opened-IsBatches st now msg id label h =
      open-IsBatches (record st { heap = st.heap ++ new_batch msg ∷ [] }) id
        (record { created_at = now; label = label; batch = length st.heap })
        (omega (arith, length-append st.heap (new_batch msg ∷ []))) (push-IsBatches st msg h)

  start_batch-IsBatches :
      (st : Batches L) (now : ℕ) (msg : Message) (id : Bytes) (parent : Option Bytes)
      (label : Int64)
      → parent ≢ some id
      → IsBatches st
      → IsBatches (start_batch st now msg id parent label).1
  unfolding start_batch opened
  start_batch-IsBatches st now msg id none label ne h = elim (Option-cases (lookup id st.batches)) [
    | inl e ↦ rw (e, start_batch) (opened-IsBatches st now msg id label h)
    | inr (_, e) ↦ rw (e, start_batch) h
  ]
  start_batch-IsBatches st now msg id (some p) label ne h =
      let bip : BatchInProgress = record {
        created_at = now;
        label = label;
        batch = length st.heap;
      } in
      let fresh = opened-IsBatches st now msg id label h in
      elim (Option-cases (lookup id st.batches)) [
        | inr (_, e) ↦ rw (e, start_batch) h
        | inl e ↦ elim (Option-cases (lookup p (insert id bip st.batches))) [
          | inl k ↦ rw (e, start_batch) (rw (k, start_batch) fresh)
          | inr (c, k) ↦
              let other : bytes_eq id p ≡ false =
                differs id p (λ q. ne (ap (λ x. some x) (sym q))) in
              let kept : lookup p st.batches ≡ some c =
                sym (rw other at (lookup-insert id p bip st.batches)) ∙ k in
              rw (e, start_batch)
                (rw (k, start_batch)
                  (link-IsBatches (opened st now msg id label) c.batch (length st.heap)
                    (AreIn-lookup (length st.heap) p st.batches {bip = c} h.are_in kept)
                    (omega (arith, length-append st.heap (new_batch msg ∷ []))) fresh))
        ]
      ]

  -- Only the labels are changed.
  pub keeps-IsBatches :
      (st st' : Batches L)
      → st'.heap ≡ st.heap
      → st'.batches ≡ st.batches
      → IsBatches st
      → IsBatches st'
  keeps-IsBatches st st' e k h = record { forward = rw e h.forward; are_in = rw (e, k) h.are_in }

  finish_batch_keeps :
      (st : Batches L) (bip : BatchInProgress)
      → ((finish_batch st bip).1.heap ≡ st.heap) × ((finish_batch st bip).1.batches ≡ st.batches)
  finish_batch_keeps st bip = ground arith

  end_nested :
      (nested : Bool) (st : Batches L) (bip : BatchInProgress)
      → IsBatches st
      → IsBatches (if nested then (no_action, st) else finish_batch st bip).1
  end_nested true st bip h = h
  end_nested false st bip h =
      let (heap, batches) = finish_batch_keeps st bip in
      keeps-IsBatches st (finish_batch st bip).1 heap batches h

  end_batch-IsBatches :
      (st : Batches L) (id : Bytes) (nested : Bool)
      → IsBatches st
      → IsBatches (end_batch st id nested).1
  unfolding end_batch
  end_batch-IsBatches st id nested h = elim (Option-cases (lookup id st.batches)) [
    | inl e ↦ rw (e, end_batch) h
    | inr (bip, e) ↦
        let closed : Batches L = record st { batches = delete id st.batches } in
        let shut : IsBatches closed = record {
          forward = h.forward;
          are_in = AreIn-delete (length st.heap) id st.batches h.are_in;
        } in
        rw (e, end_batch) (end_nested nested closed bip shut)
  ]

  handle_batched_command-IsBatches :
      (st : Batches L) (msg : Message) (id : Bytes)
      → IsBatches st
      → IsBatches (handle_batched_command st msg id).1
  unfolding handle_batched_command
  handle_batched_command-IsBatches st msg id h = elim (Option-cases (lookup id st.batches)) [
    | inl e ↦ rw (e, handle_batched_command) h
    | inr (bip, e) ↦
        rw (e, handle_batched_command)
          (link-IsBatches (record st { heap = st.heap ++ new_batch msg ∷ [] }) bip.batch
            (length st.heap) (AreIn-lookup (length st.heap) id st.batches {bip = bip} h.are_in e)
            (omega (arith, length-append st.heap (new_batch msg ∷ []))) (push-IsBatches st msg h))
  ]

  end_or_invalid :
      (st : Batches L) (msg : Message) (m : ℕ) (id : Bytes)
      → IsBatches st
      → IsBatches
          (if m == b'-'
            then end_batch st id (is_nested_in (get_tag msg (codes "batch")))
            else (log_invalid, st)).1
  end_or_invalid st msg m id h = elim (Bool-cases (m == b'-')) [
    | inl k ↦ rw k (end_batch-IsBatches st id (is_nested_in (get_tag msg (codes "batch"))) h)
    | inr k ↦ rw k h
  ]

  batch_mark-IsBatches :
      (st : Batches L) (now : ℕ) (msg : Message) (p : Bytes) (ps : List Bytes)
      → msg.params ≡ p ∷ ps
      → NotSelfNested msg
      → IsBatches st
      → IsBatches (batch_mark st now msg p).1
  unfolding NotSelfNested
  batch_mark-IsBatches st now msg [] ps e ns h = h
  batch_mark-IsBatches st now msg (m ∷ []) ps e ns h = h
  batch_mark-IsBatches st now msg (m ∷ c ∷ id) ps e ns h = elim (Bool-cases (m == b'+')) [
    | inl k ↦ rw k (
        start_batch-IsBatches st now msg (c ∷ id) (get_tag msg (codes "batch"))
          (label_of (get_tag msg (codes "label")))
          (ns (c ∷ id) ps (e ∙ ap (λ x. (x ∷ c ∷ id) ∷ ps) ((==_iff m b'+').0 k))) h)
    | inr k ↦ rw k (end_or_invalid st msg m (c ∷ id) h)
  ]

  batch_params-IsBatches :
      (st : Batches L) (now : ℕ) (msg : Message) (params : List Bytes)
      → msg.params ≡ params
      → NotSelfNested msg
      → IsBatches st
      → IsBatches (batch_params st now msg params).1
  batch_params-IsBatches st now msg [] e ns h = h
  batch_params-IsBatches st now msg (p ∷ ps) e ns h = batch_mark-IsBatches st now msg p ps e ns h

  labeled_command-IsBatches :
      (st : Batches L) (msg : Message) (label_str : Bytes)
      → IsBatches st
      → IsBatches (labeled_command st msg label_str).1
  labeled_command-IsBatches st msg label_str h =
      elim (Option-cases (get_label_callback st.labels (deserialize_label label_str)).0) [
        | inl e ↦ rw (e, labeled_command) (record { forward = h.forward; are_in = h.are_in })
        | inr (f, e) ↦
            rw (e, labeled_command)
              (keeps-IsBatches (record st { heap = st.heap ++ new_batch msg ∷ [] }) _ refl refl
                (push-IsBatches st msg h))
      ]

  labeled_tag-IsBatches :
      (st : Batches L) (msg : Message) (label_str : Bytes) (label : Int64)
      → IsBatches st
      → IsBatches (labeled_tag st msg label_str label).1
  labeled_tag-IsBatches st msg label_str label h = elim (Bool-cases (key_of label == 0)) [
    | inl e ↦ rw e h
    | inr e ↦ rw e (labeled_command-IsBatches st msg label_str h)
  ]

  labeled_or_normal-IsBatches :
      (st : Batches L) (negotiated : Bool) (msg : Message)
      → IsBatches st
      → IsBatches (labeled_or_normal st negotiated msg).1
  labeled_or_normal-IsBatches st false msg h = h
  labeled_or_normal-IsBatches st true msg h = elim (Option-cases (get_tag msg (codes "label"))) [
    | inl e ↦ rw e h
    | inr (label_str, e) ↦
        rw e (labeled_tag-IsBatches st msg label_str (deserialize_label label_str) h)
  ]

  pub run_callbacks-IsBatches :
      (st : Batches L) (now : ℕ) (batch_negotiated label_negotiated : Bool) (msg : Message)
      → NotSelfNested msg
      → IsBatches st
      → IsBatches (run_callbacks st now batch_negotiated label_negotiated msg).1
  unfolding run_callbacks
  run_callbacks-IsBatches st now false label_negotiated msg ns h =
      labeled_or_normal-IsBatches st label_negotiated msg h
  run_callbacks-IsBatches st now true label_negotiated msg ns h =
      elim (Bool-cases (bytes_eq msg.command (codes "BATCH"))) [
        | inl e ↦
            rw e (
              unfold handle_batch_command in batch_params-IsBatches st now msg msg.params refl ns h)
        | inr e ↦ rw e (elim (Option-cases (get_tag msg (codes "batch"))) [
          | inl k ↦ rw k (labeled_or_normal-IsBatches st label_negotiated msg h)
          | inr (id, k) ↦ rw k (handle_batched_command-IsBatches st msg id h)
        ])
      ]

  pub expire_batches-IsBatches :
      (st : Batches L) (force : Bool) (now keep_alive : ℕ)
      → IsBatches st
      → IsBatches (expire_batches st force now keep_alive).1
  unfolding expire_batches
  expire_batches-IsBatches st force now keep_alive h = record {
    forward = h.forward;
    are_in = AreIn-keep_fresh (length st.heap) now keep_alive st.batches h.are_in;
  }
