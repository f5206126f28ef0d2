-- ===== src/IrcEvent/Batches/History.antt =====
-- ircevent/irc.go and ircevent/irc_callback.go: the callbacks for labeled responses from `registerLabel`
-- to `waitForStop`.
use mathlib.Core.List.{Perm, perm_append_comm, perm_append_singleton}
use mathlib.Core.List.Perm
use irc_go.Prelude.{
  ℕ, ◌+◌, ◌<◌, ◌^◌, Bool, true, List, [], ◌∷◌, ◌++◌, append_assoc, append-nil, map, ◌≡◌, sym, ap,
  subst, ◌∙◌, Bytes,
}
use irc_go.IrcMsg.Message.{Message}
use irc_go.IrcEvent.Labels.{register_label, unregister_label, deserialize_label}
use irc_go.IrcEvent.Labels.Waiting.{
  IsLabels, AreLabels, callback_of, waiting, Takes, withdrawn_at, unregister_label-Takes,
  register_label-waiting, expire_labels-Takes, expire_labels-force,
}
use irc_go.IrcEvent.Batches.{Batches, run_callbacks, expire_batches, reset_batches}
use irc_go.IrcEvent.Batches.Once.{called_by, run_callbacks-Calls}

module _ {L : Type 0} where
  -- What has happened to the labels of a client: the callbacks that were registered, those that were
  -- called, with a batch or with nil, and those that were dropped, by `unregisterLabel` or by `Connect`.
  pub data History : Batches L → List L → List L → List L → Type 0 where
    at_start : (st : Batches L) → History (reset_batches st) [] [] []
    after_register :
        {st : Batches L} {registered called dropped : List L} (now : ℕ) (callback : L)
        → st.labels.label_counter + 1 < 2 ^ 63
        → History st registered called dropped
        → History
            (record st { labels = (register_label st.labels now callback).1 })
            (callback ∷ registered)
            called
            dropped
    after_unregister :
        {st : Batches L} {registered called dropped : List L} (label : Bytes)
        → History st registered called dropped
        → History
            (record st { labels = unregister_label st.labels label })
            registered
            called
            (withdrawn_at st.labels (deserialize_label label) ++ dropped)
    after_message :
        {st : Batches L} {registered called dropped : List L} (now : ℕ)
        (batch_negotiated label_negotiated : Bool) (msg : Message)
        → History st registered called dropped
        → History
            (run_callbacks st now batch_negotiated label_negotiated msg).1
            registered
            (called_by (run_callbacks st now batch_negotiated label_negotiated msg).0 ++ called)
            dropped
    after_expiry :
        {st : Batches L} {registered called dropped : List L} (force : Bool) (now keep_alive : ℕ)
        → History st registered called dropped
        → History
            (expire_batches st force now keep_alive).1
            registered
            ((expire_batches st force now keep_alive).0 ++ called)
            dropped
    after_connect :
        {st : Batches L} {registered called dropped : List L}
        → History st registered called dropped
        → History (reset_batches st) registered called (waiting st.labels ++ dropped)

  -- What comes out of the second part goes to the front.
  comes_out :
      (x out before after : List L)
      → Perm before (out ++ after)
      → Perm (x ++ before) (out ++ (x ++ after))
  comes_out x out before after k = subst (Perm (x ++ before)) (append_assoc out x after) (
      Perm.trans
        (subst (Perm (x ++ before)) (sym (append_assoc x out after)) (Perm.append_left x k))
        (Perm.append_right after (perm_append_comm x out)))

  move_called :
      {registered : List L} (called dropped out before after : List L)
      → Perm registered (called ++ (dropped ++ before))
      → Perm before (out ++ after)
      → Perm registered ((out ++ called) ++ (dropped ++ after))
  move_called {registered} called dropped out before after h k =
      subst (Perm registered) (sym (append_assoc out called (dropped ++ after))) (
        Perm.trans h (
          comes_out called out (dropped ++ before) (dropped ++ after)
            (comes_out dropped out before after k)))

  move_dropped :
      {registered : List L} (called dropped out before after : List L)
      → Perm registered (called ++ (dropped ++ before))
      → Perm before (out ++ after)
      → Perm registered (called ++ ((out ++ dropped) ++ after))
  move_dropped {registered} called dropped out before after h k = Perm.trans h (
      Perm.append_left called (
        subst (Perm (dropped ++ before)) (sym (append_assoc out dropped after))
          (comes_out dropped out before after k)))

  one_waits :
      {registered : List L} (called dropped before : List L) (callback : L)
      → Perm registered (called ++ (dropped ++ before))
      → Perm (callback ∷ registered) (called ++ (dropped ++ (before ++ callback ∷ [])))
  one_waits {registered} called dropped before callback h =
      let last : (called ++ (dropped ++ before)) ++ callback ∷ []
          ≡ called ++ (dropped ++ (before ++ callback ∷ [])) =
        append_assoc called (dropped ++ before) (callback ∷ [])
        ∙ ap (λ l. called ++ l) (append_assoc dropped before (callback ∷ [])) in
      Perm.trans (Perm.cons callback h) (
        subst (Perm (callback ∷ (called ++ (dropped ++ before)))) last
          (Perm.symm (perm_append_singleton callback (called ++ (dropped ++ before)))))

  -- Every callback that was registered was called, or was dropped, or waits.
  record IsAccounted (st : Batches L) (registered called dropped : List L) : Type 0 where
    are_labels : IsLabels st.labels
    all_there : Perm registered (called ++ (dropped ++ waiting st.labels))

  called-IsAccounted :
      (st st' : Batches L) (registered called dropped out : List L)
      → IsAccounted st registered called dropped
      → Takes st.labels out st'.labels
      → IsAccounted st' registered (out ++ called) dropped
  called-IsAccounted st st' registered called dropped out v t = record {
    are_labels = t.stays;
    all_there =
        move_called called dropped out (waiting st.labels) (waiting st'.labels) v.all_there t.moved;
  }

  History-IsAccounted :
      {st : Batches L} {registered called dropped : List L}
      → History st registered called dropped
      → IsAccounted st registered called dropped
  unfolding reset_batches waiting IsLabels AreLabels expire_batches
  History-IsAccounted (at_start st) = record { are_labels = tt; all_there = Perm.refl [] }
  History-IsAccounted (after_register {st} {registered} {called} {dropped} now callback small h) =
      let v = History-IsAccounted h in
      let (labels, now_waiting) =
        register_label-waiting st.labels now callback v.are_labels small in
      record {
        are_labels = labels;
        all_there =
            subst (λ l. Perm (callback ∷ registered) (called ++ (dropped ++ l))) (sym now_waiting)
              (one_waits called dropped (waiting st.labels) callback v.all_there);
      }
  History-IsAccounted (after_unregister {st} {registered} {called} {dropped} label h) =
      let v = History-IsAccounted h in
      let t = unregister_label-Takes st.labels label v.are_labels in
      record {
        are_labels = t.stays;
        all_there =
            move_dropped called dropped (withdrawn_at st.labels (deserialize_label label))
              (waiting st.labels) (waiting (unregister_label st.labels label)) v.all_there t.moved;
      }
  History-IsAccounted (after_message {st} {registered} {called} {dropped} now bn ln msg h) =
      let v = History-IsAccounted h in
      let out = run_callbacks st now bn ln msg in
      called-IsAccounted st out.1 registered called dropped (called_by out.0) v
        (run_callbacks-Calls st now bn ln msg v.are_labels)
  History-IsAccounted (after_expiry {st} {registered} {called} {dropped} force now keep_alive h) =
      let v = History-IsAccounted h in
      let out = expire_batches st force now keep_alive in
      called-IsAccounted st out.1 registered called dropped out.0 v
        (expire_labels-Takes st.labels force now keep_alive v.are_labels)
  History-IsAccounted (after_connect {st} {registered} {called} {dropped} h) =
      let v = History-IsAccounted h in
      record {
        are_labels = tt;
        all_there =
            move_dropped called dropped (waiting st.labels) (waiting st.labels) [] v.all_there (
              subst (Perm (waiting st.labels)) (sym (append-nil (waiting st.labels)))
                (Perm.refl (waiting st.labels)));
      }

  -- Whatever has happened, with the counter of labels below 2^63 throughout, each callback that was registered for a labeled response was called once, was
  -- dropped once, or waits once; `waitForStop`, which expires the labels by force, calls exactly those
  -- that wait, so that each was called once or dropped once then.
  pub History-once :
      (st : Batches L) (registered called dropped : List L) (now keep_alive : ℕ)
      → History st registered called dropped
      → Perm registered (called ++ (dropped ++ waiting st.labels))
        × Perm registered (((expire_batches st true now keep_alive).0 ++ called) ++ dropped)
  unfolding expire_batches waiting
  History-once st registered called dropped now keep_alive h =
      let v = History-IsAccounted (after_expiry true now keep_alive h) in
      let failed = (expire_batches st true now keep_alive).0 in
      (
        (History-IsAccounted h).all_there,
        subst (λ l. Perm registered ((failed ++ called) ++ l))
            (ap (λ m. dropped ++ map callback_of m)
                (expire_labels-force now keep_alive st.labels.label_callbacks)
              ∙ append-nil dropped)
            v.all_there,
      )
