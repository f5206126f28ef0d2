-- ===== src/IrcEvent/Batches/Between.antt =====
-- ircevent/irc_callback.go: the messages that arrive while a batch is open.
use irc_go.Prelude.{
  ℕ, ◌+◌, ◌-◌, ◌≤◌, ◌==◌, ◌∙◌, ap, ltb, inl, inr, arith, Bool-cases, if◌then◌else◌, Bool, true,
  false, List, [], ◌∷◌, ◌++◌, append_assoc, append-nil, none, some, ◌≡◌, refl, sym, subst, codes,
  Bytes, bytes_eq, length, lookup, string_eq, nat_eq,
}
use irc_go.IrcMsg.Message.{Message, get_tag}
use irc_go.IrcEvent.Labels.{PendingLabel, expire_labels}
use irc_go.IrcEvent.Batches.{
  Batch, new_batch, BatchInProgress, Batches, append_item, load, keep_fresh, expire_batches,
  handle_batched_command, labeled_or_normal, run_callbacks,
}
use irc_go.IrcEvent.Batches.Leaves.{AreLeaves, load_below, AreLeaves-append}
use irc_go.IrcEvent.Batches.Items.{load-append_item}

-- Messages that arrive by a time.
unfoldable pub AreBy : ℕ → List (ℕ × Message) → Type 0
AreBy deadline [] = Unit {0}
AreBy deadline ((now, _) ∷ msgs) = (now ≤ deadline) × AreBy deadline msgs

-- Messages with their times, of which some belong to a batch, and the rest has neither a batch nor a
-- label.
pub data IsBetween (id : Bytes) : List (ℕ × Message) → List Message → Type 0 where
  no_more : IsBetween id [] []
  in_batch :
      {all : List (ℕ × Message)} {batched : List Message} (now : ℕ) (msg : Message)
      → bytes_eq msg.command (codes "BATCH") ≡ false
      → get_tag msg (codes "batch") ≡ some id
      → IsBetween id all batched
      → IsBetween id ((now, msg) ∷ all) (msg ∷ batched)
  outside :
      {all : List (ℕ × Message)} {batched : List Message} (now : ℕ) (msg : Message)
      → bytes_eq msg.command (codes "BATCH") ≡ false
      → get_tag msg (codes "batch") ≡ none
      → get_tag msg (codes "label") ≡ none
      → IsBetween id all batched
      → IsBetween id ((now, msg) ∷ all) batched

lookup-keep_fresh :
    (now keep_alive : ℕ) (id : Bytes) (bip : BatchInProgress)
    (batches : List (Bytes × BatchInProgress))
    → ltb keep_alive (now - bip.created_at) ≡ false
    → lookup id batches ≡ some bip
    → lookup id (keep_fresh now keep_alive batches) ≡ some bip
unfolding lookup
lookup-keep_fresh now keep_alive id bip [] f h = absurd (ground arith)
lookup-keep_fresh now keep_alive id bip ((j, q) ∷ batches) f h = elim (Bool-cases (bytes_eq j id)) [
  | inl e ↦
      let same : q ≡ bip = ground arith in
      let fresh : ltb keep_alive (now - q.created_at) ≡ false =
        ap (λ x. ltb keep_alive (now - x.created_at)) same ∙ f in
      rw fresh (rw e (ap some same))
  | inr e ↦
      let rest = lookup-keep_fresh now keep_alive id bip batches f (rw e at h) in
      elim (Bool-cases (ltb keep_alive (now - q.created_at))) [
        | inl old ↦ rw old rest
        | inr fresh ↦ rw fresh (rw e rest)
      ]
]

module _ {L : Type 0} where
  -- A batch that is open and has taken some messages, while a label waits.
  pub record IsCollecting (n : ℕ) (pending : PendingLabel L) (id : Bytes) (bip : BatchInProgress)
      (start : Message) (got : List Message) (st : Batches L) : Type 0 where
    pub still_waits : lookup n st.labels.label_callbacks ≡ some pending
    pub is_open : lookup id st.batches ≡ some bip
    pub refs : List ℕ
    pub parts : load st.heap bip.batch ≡ some (record { message = start; items = refs })
    pub leaves : AreLeaves st.heap bip.batch refs got

  collect_one :
      (n : ℕ) (pending : PendingLabel L) (id : Bytes) (bip : BatchInProgress) (start msg : Message)
      (got : List Message) (st : Batches L)
      → IsCollecting n pending id bip start got st
      → bytes_eq msg.command (codes "BATCH") ≡ false
      → IsCollecting n pending id bip start (got ++ msg ∷ []) (handle_batched_command st msg id).1
  unfolding handle_batched_command
  collect_one n pending id bip start msg got st k no_batch =
      let b : Batch = record { message = start; items = k.refs } in
      let heap = append_item (st.heap ++ new_batch msg ∷ []) bip.batch (length st.heap) in
      let (grown, last) =
        load-append_item st.heap (new_batch msg) bip.batch (length st.heap) {b = b} k.parts in
      let out : (handle_batched_command st msg id).1 ≡ record st { heap = heap } =
        rw (k.is_open, handle_batched_command) refl in
      subst (IsCollecting n pending id bip start (got ++ msg ∷ [])) (sym out) (record {
        still_waits = k.still_waits;
        is_open = k.is_open;
        refs = k.refs ++ length st.heap ∷ [];
        parts = grown;
        leaves =
            AreLeaves-append st.heap bip.batch k.refs got msg
              (load_below st.heap bip.batch b k.parts) no_batch last k.leaves;
      })

  lookup-expire_labels :
      (now keep_alive n : ℕ) (p : PendingLabel L) (m : List (ℕ × PendingLabel L))
      → ltb keep_alive (now - p.created_at) ≡ false
      → lookup n m ≡ some p
      → lookup n (expire_labels false now keep_alive m).1 ≡ some p
  unfolding lookup expire_labels
  lookup-expire_labels now keep_alive n p [] f h = absurd (ground arith)
  lookup-expire_labels now keep_alive n p ((j, q) ∷ m) f h = elim (Bool-cases (j == n)) [
    | inl e ↦
        let same : q ≡ p = ground arith in
        let fresh : ltb keep_alive (now - q.created_at) ≡ false =
          ap (λ x. ltb keep_alive (now - x.created_at)) same ∙ f in
        rw fresh (rw e (ap some same))
    | inr e ↦
        let rest = lookup-expire_labels now keep_alive n p m f (rw e at h) in
        elim (Bool-cases (ltb keep_alive (now - q.created_at))) [
          | inl old ↦ rw old rest
          | inr fresh ↦ rw fresh (rw e rest)
        ]
  ]

  -- The check of `readLoop` behind a message, with the time of the last one: the state, and the time of
  -- the last check from now on.
  unfoldable pub checked : ℕ → ℕ → ℕ → ℕ → Batches L → Batches L × ℕ
  unfolding expire_batches
  checked timeout keep_alive now last st =
      if ltb timeout (now - last)
      then ((expire_batches st false now keep_alive).1, now)
      else (st, last)

  -- The state behind messages, each at its time, with the checks of `readLoop` behind them.
  unfoldable pub run_all : ℕ → ℕ → ℕ → Batches L → Bool → List (ℕ × Message) → Batches L
  unfolding run_callbacks checked
  run_all timeout keep_alive last st label_negotiated [] = st
  run_all timeout keep_alive last st label_negotiated ((now, msg) ∷ msgs) =
      let (next, check) =
        checked timeout keep_alive now last (run_callbacks st now true label_negotiated msg).1 in
      run_all timeout keep_alive check next label_negotiated msgs

  -- Nothing that is collected expires before its time.
  pub collect_checked :
      (timeout keep_alive now last n : ℕ) (pending : PendingLabel L) (id : Bytes)
      (bip : BatchInProgress) (start : Message) (got : List Message) (st : Batches L)
      → IsCollecting n pending id bip start got st
      → now ≤ pending.created_at + keep_alive
      → pending.created_at ≤ bip.created_at
      → IsCollecting n pending id bip start got (checked timeout keep_alive now last st).0
  unfolding checked expire_batches
  collect_checked timeout keep_alive now last n pending id bip start got st k h l =
      elim (Bool-cases (ltb timeout (now - last))) [
        | inr e ↦ rw e k
        | inl e ↦ rw e (record {
          still_waits =
              lookup-expire_labels now keep_alive n pending st.labels.label_callbacks (ground arith)
                k.still_waits;
          is_open = lookup-keep_fresh now keep_alive id bip st.batches (ground arith) k.is_open;
          refs = k.refs;
          parts = k.parts;
          leaves = k.leaves;
        })
      ]

  one_inside :
      (st : Batches L) (now : ℕ) (label_negotiated : Bool) (id : Bytes) (msg : Message)
      → bytes_eq msg.command (codes "BATCH") ≡ false
      → get_tag msg (codes "batch") ≡ some id
      → (run_callbacks st now true label_negotiated msg).1 ≡ (handle_batched_command st msg id).1
  unfolding run_callbacks
  one_inside st now label_negotiated id msg h k = rw (h, k) refl

  normal_quiet :
      (st : Batches L) (label_negotiated : Bool) (msg : Message)
      → get_tag msg (codes "label") ≡ none
      → (labeled_or_normal st label_negotiated msg).1 ≡ st
  normal_quiet st false msg l = refl
  normal_quiet st true msg l = rw (l, labeled_or_normal) refl

  one_outside :
      (st : Batches L) (now : ℕ) (label_negotiated : Bool) (msg : Message)
      → bytes_eq msg.command (codes "BATCH") ≡ false
      → get_tag msg (codes "batch") ≡ none
      → get_tag msg (codes "label") ≡ none
      → (run_callbacks st now true label_negotiated msg).1 ≡ st
  unfolding run_callbacks
  one_outside st now label_negotiated msg h k l = rw (h, k) (normal_quiet st label_negotiated msg l)

  pub collect_all :
      (timeout keep_alive n : ℕ) (pending : PendingLabel L) (id : Bytes) (bip : BatchInProgress)
      (check : ℕ) (start : Message) (got : List Message) (st : Batches L) (label_negotiated : Bool)
      (all : List (ℕ × Message)) (batched : List Message)
      → IsCollecting n pending id bip start got st
      → pending.created_at ≤ bip.created_at
      → IsBetween id all batched
      → AreBy (pending.created_at + keep_alive) all
      → IsCollecting n pending id bip start
          (got ++ batched)
          (run_all timeout keep_alive check st label_negotiated all)
  unfolding run_all AreBy
  collect_all timeout keep_alive n pending id bip check start got st ln _ _ k l no_more _ =
      subst (λ g. IsCollecting n pending id bip start g st) (sym (append-nil got)) k
  collect_all timeout keep_alive n pending id bip check start got st ln _ _ k l
        (in_batch {all} {batched} now msg h t rest) (by, later) =
      let next = (run_callbacks st now true ln msg).1 in
      let one : IsCollecting n pending id bip start (got ++ msg ∷ []) next =
        subst (IsCollecting n pending id bip start (got ++ msg ∷ []))
          (sym (one_inside st now ln id msg h t))
          (collect_one n pending id bip start msg got st k h) in
      let (after, last) : Batches L × ℕ = checked timeout keep_alive now check next in
      subst
        (λ g. IsCollecting n pending id bip start g (run_all timeout keep_alive last after ln all))
        (append_assoc got (msg ∷ []) batched)
        (collect_all timeout keep_alive n pending id bip last start (got ++ msg ∷ []) after ln all
          batched
          (collect_checked timeout keep_alive now check n pending id bip start (got ++ msg ∷ [])
            next one by l)
          l rest later)
  collect_all timeout keep_alive n pending id bip check start got st ln _ _ k l
        (outside {all} {batched} now msg h t u rest) (by, later) =
      let next = (run_callbacks st now true ln msg).1 in
      let one : IsCollecting n pending id bip start got next =
        subst (IsCollecting n pending id bip start got) (sym (one_outside st now ln msg h t u)) k in
      let (after, last) : Batches L × ℕ = checked timeout keep_alive now check next in
      collect_all timeout keep_alive n pending id bip last start got after ln all batched
        (collect_checked timeout keep_alive now check n pending id bip start got next one by l) l
        rest later
