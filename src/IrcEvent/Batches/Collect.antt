-- ===== src/IrcEvent/Batches/Collect.antt =====
-- ircevent/irc_callback.go: a labeled batch from its request to its callback.
use irc_go.Prelude.{
  ℕ, ◌+◌, ◌≤◌, ◌<◌, ◌%◌, ◌^◌, ==_refl, Bool, true, false, ◌==◌, List, [], ◌∷◌, ◌++◌, none, some,
  ◌≡◌, refl, sym, ap, subst, ◌∙◌, arith, codes, Bytes, bytes_eq, bytes_eq_iff, length, lookup,
  insert, string_eq, nat_eq, lookup-insert,
}
use irc_go.IrcMsg.Message.{Message, get_tag}
use irc_go.IrcEvent.Labels.{
  pos, key_of, PendingLabel, Labels, serialize_label, register_label, get_label_callback,
  deserialize_label, deserialize_label-serialize_label,
}
use irc_go.IrcEvent.Batches.{
  new_batch, BatchInProgress, Batches, call_label, start_batch, end_batch, batch_params,
  handle_batch_command, run_callbacks, flatten,
}
use irc_go.IrcEvent.Batches.Leaves.{no_leaves, flatten_batch}
use irc_go.IrcEvent.Batches.Items.{load_last}
use irc_go.IrcEvent.Batches.Between.{
  AreBy, IsBetween, checked, run_all, IsCollecting, collect_checked, collect_all,
}

-- The messages that begin and end a batch, which is not nested in another.
pub record IsMark (mark : ℕ) (id : Bytes) (msg : Message) : Type 0 where
  pub is_batch : bytes_eq msg.command (codes "BATCH") ≡ true
  pub not_nested : get_tag msg (codes "batch") ≡ none
  pub rest : List Bytes
  pub marked : msg.params ≡ (mark ∷ id) ∷ rest

module _ {L : Type 0} where
  marked_as :
      (st : Batches L) (now : ℕ) (label_negotiated : Bool) (mark : ℕ) (id : Bytes) (msg : Message)
      (m : IsMark mark id msg)
      → run_callbacks st now true label_negotiated msg
        ≡ batch_params st now msg ((mark ∷ id) ∷ m.rest)
  unfolding run_callbacks handle_batch_command
  marked_as st now label_negotiated mark id msg m =
      rw m.is_batch (ap (batch_params st now msg) m.marked)

  registered_number :
      (labels : Labels L) (now : ℕ) (callback : L)
      → labels.label_counter + 1 < 2 ^ 63
      → deserialize_label (register_label labels now callback).0 ≡ pos (labels.label_counter + 1)
  unfolding register_label
  registered_number labels now callback h =
      let same : (labels.label_counter + 1) % 2 ^ 64 ≡ labels.label_counter + 1 = omega arith in
      ap (λ n. deserialize_label (serialize_label n)) same
      ∙ deserialize_label-serialize_label (labels.label_counter + 1) h

  registered_waits :
      (labels : Labels L) (now : ℕ) (callback : L)
      → labels.label_counter + 1 < 2 ^ 63
      → lookup (labels.label_counter + 1) (register_label labels now callback).1.label_callbacks
        ≡ some (record { created_at = now; callback = callback })
  unfolding register_label
  registered_waits labels now callback h =
      let n = labels.label_counter + 1 in
      let same : n ≡ n % 2 ^ 64 = omega arith in
      let p : PendingLabel L = record { created_at = now; callback = callback } in
      ap (λ i. lookup i (insert (n % 2 ^ 64) p labels.label_callbacks)) same
      ∙ lookup-insert (n % 2 ^ 64) (n % 2 ^ 64) p labels.label_callbacks
      ∙ rw (==_refl (n % 2 ^ 64)) refl

  found_callback :
      (labels : Labels L) (n : ℕ) (pending : PendingLabel L)
      → lookup n labels.label_callbacks ≡ some pending
      → (get_label_callback labels (pos n)).0 ≡ some pending.callback
  unfolding get_label_callback key_of
  found_callback labels n pending h = rw (h, get_label_callback) refl

  starts :
      (st : Batches L) (now n : ℕ) (label_negotiated : Bool) (c : ℕ) (id label : Bytes)
      (start : Message)
      → IsMark b'+' (c ∷ id) start
      → get_tag start (codes "label") ≡ some label
      → deserialize_label label ≡ pos n
      → lookup (c ∷ id) st.batches ≡ none
      → (pending : PendingLabel L) → lookup n st.labels.label_callbacks ≡ some pending
      → IsCollecting n pending
          (c ∷ id)
          (record { created_at = now; label = pos n; batch = length st.heap })
          start
          []
          (run_callbacks st now true label_negotiated start).1
  unfolding start_batch
  starts st now n label_negotiated c id label start m tag number new pending waits =
      let bip : BatchInProgress = record {
        created_at = now;
        label = pos n;
        batch = length st.heap;
      } in
      let opened : Batches L = record st {
        heap = st.heap ++ new_batch start ∷ [];
        batches = insert (c ∷ id) bip st.batches;
      } in
      let out : (run_callbacks st now true label_negotiated start).1 ≡ opened =
        ap (λ o. o.1) (marked_as st now label_negotiated b'+' (c ∷ id) start m)
        ∙ rw (m.not_nested, tag) (rw (new, start_batch) (rw number refl)) in
      subst (IsCollecting n pending (c ∷ id) bip start []) (sym out) (record {
        still_waits = waits;
        is_open = rw (
          lookup-insert (c ∷ id) (c ∷ id) bip st.batches,
          (bytes_eq_iff (c ∷ id) (c ∷ id)).1 refl,
        );
        refs = [];
        parts = load_last st.heap (new_batch start);
        leaves = no_leaves;
      })

  ends :
      (st : Batches L) (now n : ℕ) (label_negotiated : Bool) (c : ℕ) (id : Bytes) (last : Message)
      (bip : BatchInProgress) (callback : L)
      → IsMark b'-' (c ∷ id) last
      → lookup (c ∷ id) st.batches ≡ some (record bip { label = pos n })
      → (n == 0) ≡ false
      → (get_label_callback st.labels (pos n)).0 ≡ some callback
      → ((run_callbacks st now true label_negotiated last).0 ≡ call_label callback bip.batch)
        × ((run_callbacks st now true label_negotiated last).1.heap ≡ st.heap)
  unfolding end_batch key_of
  ends st now n label_negotiated c id last bip callback m is_open positive found =
      let out = marked_as st now label_negotiated b'-' (c ∷ id) last m in
      subst (λ o. (o.0 ≡ call_label callback bip.batch) × (o.1.heap ≡ st.heap)) (sym out)
        (rw m.not_nested (rw (is_open, end_batch) (rw positive (rw found (refl, refl)))))

  -- While batches are negotiated: a response to a registered label, as a batch that is not nested and
  -- whose ID is not in use, between whose ends arrive its messages and any others with neither a
  -- batch nor a label, ends in one call of the callback, with a batch of exactly its messages, in
  -- order. Behind each message, at its time, `readLoop` lets old labels and batches expire where
  -- Timeout has passed since it last did; so all messages but the last one are to arrive within
  -- KeepAlive of the registration, and the counter of labels is to stay below 2^63.
  pub run_callbacks-collects :
      (timeout keep_alive check : ℕ) (st : Batches L) (now now_start now_last c : ℕ)
      (label_negotiated : Bool) (callback : L) (id : Bytes) (start last : Message)
      (all : List (ℕ × Message)) (batched : List Message)
      → st.labels.label_counter + 1 < 2 ^ 63
      → now ≤ now_start
      → AreBy (now + keep_alive) ((now_start, start) ∷ all)
      → IsMark b'+' (c ∷ id) start
      → get_tag start (codes "label") ≡ some (register_label st.labels now callback).0
      → lookup (c ∷ id) st.batches ≡ none
      → IsBetween (c ∷ id) all batched
      → IsMark b'-' (c ∷ id) last
      → (let st1 = record st { labels = (register_label st.labels now callback).1 } in
          let out =
            run_callbacks
              (run_all timeout keep_alive check st1 label_negotiated ((now_start, start) ∷ all))
              now_last
              true
              label_negotiated
              last in
          (out.0 ≡ call_label callback (length st.heap))
          × (flatten 2 out.1.heap (length st.heap) ≡ some batched))
  unfolding run_all AreBy
  run_callbacks-collects timeout keep_alive check st now now_start now_last c ln callback id start
        last all batched h order (by, later) s tag new between e =
      let n = st.labels.label_counter + 1 in
      let registered = register_label st.labels now callback in
      let st1 : Batches L = record st { labels = registered.1 } in
      let number : deserialize_label registered.0 ≡ pos n =
        registered_number st.labels now callback h in
      let pending : PendingLabel L = record { created_at = now; callback = callback } in
      let waits = registered_waits st.labels now callback h in
      let bip : BatchInProgress = record {
        created_at = now_start;
        label = pos n;
        batch = length st.heap;
      } in
      let opened = (run_callbacks st1 now_start true ln start).1 in
      let (first, seen) : Batches L × ℕ = checked timeout keep_alive now_start check opened in
      let st2 = run_all timeout keep_alive seen first ln all in
      let k =
        collect_all timeout keep_alive n pending (c ∷ id) bip seen start [] first ln all batched
          (collect_checked timeout keep_alive now_start check n pending (c ∷ id) bip start [] opened
            (starts st1 now_start n ln c id registered.0 start s tag number new pending waits) by
            order)
          order between later in
      let (called, same_heap) =
        ends st2 now_last n ln c id last bip callback e k.is_open (ground arith)
          (found_callback st2.labels n pending k.still_waits) in
      (
        called,
        ap (λ heap. flatten 2 heap (length st.heap)) same_heap
            ∙ flatten_batch st2.heap (length st.heap) k.refs start batched s.is_batch k.parts
                k.leaves,
      )
