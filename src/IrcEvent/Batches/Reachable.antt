-- ===== src/IrcEvent/Batches/Reachable.antt =====
-- The states of the batches that the messages of a server lead to, if it nests no batch in itself.
use irc_go.Prelude.{
  ℕ, suc, Bool, List, [], ◌∷◌, Option, none, some, ◌≡◌, refl, inl, inr, arith, Bytes, length,
  Bool-cases,
}
use irc_go.IrcMsg.Message.{Message}
use irc_go.IrcEvent.Labels.{Labels, register_label, unregister_label}
use irc_go.IrcEvent.Batches.{Batches, run_callbacks, expire_batches, handle_batch_with}
use irc_go.IrcEvent.Batches.Forward.{IsForward, AreIn, flatten_total}
use irc_go.IrcEvent.Batches.Invariant.{
  NotSelfNested, IsBatches, keeps-IsBatches, run_callbacks-IsBatches, expire_batches-IsBatches,
}

module _ {L : Type 0} where
  -- `Connect` begins with no batches; then messages arrive, batches expire, and the client
  -- registers labels and takes them back.
  pub data Reachable : Batches L → Type 0 where
    at_start : (labels : Labels L) → Reachable (record { heap = []; batches = []; labels = labels })
    after_message :
        {st : Batches L} (now : ℕ) (batch_negotiated label_negotiated : Bool) (msg : Message)
        → NotSelfNested msg
        → Reachable st
        → Reachable (run_callbacks st now batch_negotiated label_negotiated msg).1
    after_expiry :
        {st : Batches L} (force : Bool) (now keep_alive : ℕ)
        → Reachable st
        → Reachable (expire_batches st force now keep_alive).1
    after_register :
        {st : Batches L} (now : ℕ) (callback : L)
        → Reachable st
        → Reachable (record st { labels = (register_label st.labels now callback).1 })
    after_unregister :
        {st : Batches L} (label : Bytes)
        → Reachable st
        → Reachable (record st { labels = unregister_label st.labels label })

  Reachable-IsBatches : {st : Batches L} → Reachable st → IsBatches st
  unfolding IsForward AreIn
  Reachable-IsBatches (at_start labels) = record { forward = tt; are_in = tt }
  Reachable-IsBatches (after_message {st = st} now bn ln msg ns r) =
      run_callbacks-IsBatches st now bn ln msg ns (Reachable-IsBatches r)
  Reachable-IsBatches (after_expiry {st = st} force now keep_alive r) =
      expire_batches-IsBatches st force now keep_alive (Reachable-IsBatches r)
  Reachable-IsBatches (after_register {st = st} now callback r) =
      keeps-IsBatches st _ refl refl (Reachable-IsBatches r)
  Reachable-IsBatches (after_unregister {st = st} label r) =
      keeps-IsBatches st _ refl refl (Reachable-IsBatches r)

  -- In every state that a client reaches from a server that nests no batch in itself, handling any
  -- batch ends, whatever the batch callbacks say: fuel for one level per batch of the heap and one
  -- more is enough.
  pub handle_batch_with_total :
      (st : Batches L) (callbacks : List (ℕ × (ℕ → Bool))) (batch : Option ℕ)
      → Reachable st
      → (msgs : List Message) × (handle_batch_with callbacks (suc (length st.heap)) st.heap batch
          ≡ some msgs)
  unfolding handle_batch_with
  handle_batch_with_total st callbacks none r = ([], refl)
  handle_batch_with_total st [] (some ref) r =
      flatten_total (length st.heap) st.heap ref (Reachable-IsBatches r).forward (omega arith)
  handle_batch_with_total st ((_, callback) ∷ callbacks) (some ref) r =
      elim (Bool-cases (callback ref)) [
        | inl e ↦ ([], rw e)
        | inr e ↦ rw e (handle_batch_with_total st callbacks (some ref) r)
      ]
