-- ===== src/IrcEvent/Connection/Sending/Labeled.antt =====
-- What `SendWithLabel` leaves of the labels that wait for a response.
use irc_go.Prelude.{
  ℕ, ◌+◌, ◌<◌, ◌^◌, ◌==◌, ==_iff, Bool, true, false, List, [], none, some, ◌≡◌, refl, ap, ◌∙◌, sym,
  inl, inr, arith, codes, Bytes, nat_eq, lookup, insert, delete, lookup-insert, lookup-delete,
  Bool-cases, if◌then◌else◌,
}
use irc_go.IrcMsg.Message.{TagMap, set_tag, make_message}
use irc_go.IrcEvent.Labels.{
  PendingLabel, Labels, register_label, unregister_number, unregister_label, key_of,
  serialize_label, registered_as, deserialize_label-serialize_label,
}
use irc_go.IrcEvent.Connection.{Connection}
use irc_go.IrcEvent.Connection.Sending.{failed, send_irc_message, send_with_label}

module _ {L : Type 0} where
  unregister_label-register_label :
      (labels : Labels L) (now k : ℕ) (callback : L)
      → labels.label_counter + 1 < 2 ^ 63
      → lookup (labels.label_counter + 1) labels.label_callbacks ≡ none
      → (let registered = register_label labels now callback in
          lookup k (unregister_label registered.1 registered.0).label_callbacks
          ≡ lookup k labels.label_callbacks)
  unfolding unregister_label unregister_number key_of
  unregister_label-register_label labels now k callback h free =
      let n = labels.label_counter + 1 in
      let p : PendingLabel L = record { created_at = now; callback = callback } in
      let registered : Labels L = record {
        label_callbacks = insert n p labels.label_callbacks;
        label_counter = n;
      } in
      let positive : (n == 0) ≡ false = ground arith in
      let gone : (unregister_label registered (serialize_label n)).label_callbacks
          ≡ delete n (insert n p labels.label_callbacks) =
        ap (λ l. (unregister_number registered l).label_callbacks)
          (deserialize_label-serialize_label n h)
        ∙ rw (positive, unregister_number) refl in
      ap (λ r. lookup k (unregister_label r.1 r.0).label_callbacks)
        (registered_as labels now callback h)
      ∙ ap (lookup k) gone
      ∙ lookup-delete n k (insert n p labels.label_callbacks)
      ∙ (let l = lookup-insert n k p labels.label_callbacks in
          elim (Bool-cases (n == k)) [
            | inl e ↦ rw e (sym free ∙ ap (λ i. lookup i labels.label_callbacks) ((==_iff n k).0 e))
            | inr e ↦ rw e (l ∙ rw e refl)
          ])

  kept_if_failed :
      (b : Bool) (labels : Labels L) (now k : ℕ) (callback : L)
      → labels.label_counter + 1 < 2 ^ 63
      → lookup (labels.label_counter + 1) labels.label_callbacks ≡ none
      → (let registered = register_label labels now callback in
          lookup k
            (if b then unregister_label registered.1 registered.0 else registered.1).label_callbacks
          ≡ (if b
              then lookup k labels.label_callbacks
              else if labels.label_counter + 1 == k
              then some (record { created_at = now; callback = callback })
              else lookup k labels.label_callbacks))
  kept_if_failed true labels now k callback h free =
      unregister_label-register_label labels now k callback h free
  kept_if_failed false labels now k callback h free =
      ap (λ r. lookup k r.1.label_callbacks) (registered_as labels now callback h)
      ∙ lookup-insert (labels.label_counter + 1) k
          (record { created_at = now; callback = callback }) labels.label_callbacks

  -- A failed call, also one that fails since labels were not negotiated, leaves the labels that wait
  -- as they were; any other adds its callback under the next label and keeps the rest. The next label
  -- is to be free, and below 2^63.
  pub send_with_label-lookup :
      (c : Connection) (labels : Labels L) (label_negotiated : Bool) (now k : ℕ) (callback : L)
      (tags : TagMap) (command : Bytes) (params : List Bytes)
      → labels.label_counter + 1 < 2 ^ 63
      → lookup (labels.label_counter + 1) labels.label_callbacks ≡ none
      → (let (out, labels') =
            send_with_label c labels label_negotiated now callback tags command params in
          lookup k labels'.label_callbacks ≡ (
            if failed out
            then lookup k labels.label_callbacks
            else if labels.label_counter + 1 == k
            then some (record { created_at = now; callback = callback })
            else lookup k labels.label_callbacks))
  unfolding send_with_label
  send_with_label-lookup c labels false now k callback tags command params h free = refl
  send_with_label-lookup c labels true now k callback tags command params h free =
      kept_if_failed
        (failed (
          send_irc_message c (
            set_tag (make_message tags [] command params) (codes "label")
              (register_label labels now callback).0)))
        labels now k callback h free
