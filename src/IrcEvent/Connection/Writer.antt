-- ===== src/IrcEvent/Connection/Writer.antt =====
-- ircevent/irc.go: `writeLoop`, which takes what `sendInternal` has queued and writes it to the socket.
-- The bytes that the socket has accepted are the wire.
use irc_go.Prelude.{
  ℕ, Bool, false, ◌&&◌, List, [], ◌∷◌, ◌++◌, append_assoc, Option, none, some, ◌≡◌, refl, sym, ap,
  ◌∙◌, inl, inr, arith, Bytes, take, Bool-cases, Option-cases, if◌then◌else◌, zero, suc, length,
  append-nil,
}
use irc_go.IrcEvent.Connection.{ClientError, Connection, is_empty, set_error, pop_write, popped}
use irc_go.IrcEvent.Connection.Lifecycle.{
  Reachable, after_pop, pop_write-kept, first_error, set_error_stops,
}

-- What a round of the loop does: it goes on, returns, or waits in `select`.
pub data Round : Type 0 where
  goes_on returned : Connection → Bytes → Round
  blocked panicked : Round

abbrev pub after_write : Connection → Bytes → Bytes → Option (ℕ × ClientError) → Round
after_write c wire b none = goes_on c (wire ++ b)
after_write c wire b (some (n, err)) = elim (set_error c err) [
  | none ↦ panicked
  | some c' ↦ returned c' (wire ++ take n b)
]

abbrev pub write_popped : Option (Bytes × Connection) → Bytes → Option (ℕ × ClientError) → Round
write_popped none wire failure = blocked
write_popped (some (b, c)) wire failure =
    if is_empty b then goes_on c wire else after_write c wire b failure

-- One round. Where `end` is closed, `select` may take it or, if there is one, what is in the queue:
-- `sees_end` says which. `failure` is what `Write` reports: nothing when it has written all bytes, or
-- how many it has written and the error.
unfoldable pub write_round : Bool → Option (ℕ × ClientError) → Connection → Bytes → Round
unfolding pop_write
write_round sees_end failure c wire =
    if c.end_closed && sees_end then returned c wire else write_popped (pop_write c) wire failure

unfoldable pub joined : List Bytes → Bytes
joined [] = []
joined (b ∷ queue) = b ++ joined queue

pub joined-append : (p q : List Bytes) → joined (p ++ q) ≡ joined p ++ joined q
unfolding joined
joined-append [] q = refl
joined-append (b ∷ p) q =
    ap (λ s. b ++ s) (joined-append p q) ∙ sym (append_assoc b (joined p) (joined q))

-- What a round keeps: the bytes on the wire and in the queue, and the configuration.
pub record KeepsBytes (c : Connection) (wire : Bytes) (c' : Connection) (wire' : Bytes)
    : Type 0 where
  pub same_bytes : wire' ++ joined c'.pwrite ≡ wire ++ joined c.pwrite
  pub same_config : c'.config ≡ c.config

write_popped-KeepsBytes :
    (c c' d : Connection) (wire wire' b : Bytes) (rest : List Bytes)
    → c.pwrite ≡ b ∷ rest
    → d ≡ record c { pwrite = rest }
    → write_popped (some (b, d)) wire none ≡ goes_on c' wire'
    → KeepsBytes c wire c' wire'
unfolding joined
write_popped-KeepsBytes c c' d wire wire' [] rest h k e = record {
  same_bytes =
      (let w : wire ≡ wire' = ground arith in
        let q : d ≡ c' = ground arith in
        sym (ap (λ x. x ++ joined c'.pwrite) w)
        ∙ ap (λ x. wire ++ joined x.pwrite) (sym q ∙ k)
        ∙ ap (λ x. wire ++ joined x) (sym h));
  same_config = let q : d ≡ c' = ground arith in ap (λ x. x.config) (sym q ∙ k);
}
write_popped-KeepsBytes c c' d wire wire' (x ∷ b) rest h k e = record {
  same_bytes =
      (let w : wire ++ x ∷ b ≡ wire' = ground arith in
        let q : d ≡ c' = ground arith in
        sym (ap (λ y. y ++ joined c'.pwrite) w)
        ∙ ap (λ y. (wire ++ x ∷ b) ++ joined y.pwrite) (sym q ∙ k)
        ∙ append_assoc wire (x ∷ b) (joined rest)
        ∙ ap (λ y. wire ++ joined y) (sym h));
  same_config = let q : d ≡ c' = ground arith in ap (λ x. x.config) (sym q ∙ k);
}

-- Where `Write` reports no error, a round that goes on moves the front of the queue to the wire.
pub write_round-KeepsBytes :
    (sees_end : Bool) (c c' : Connection) (wire wire' : Bytes)
    → write_round sees_end none c wire ≡ goes_on c' wire'
    → KeepsBytes c wire c' wire'
unfolding write_round
write_round-KeepsBytes sees_end c c' wire wire' e = elim (Bool-cases (c.end_closed && sees_end)) [
  | inl h ↦ absurd (ground arith)
  | inr h ↦ elim (Option-cases (pop_write c)) [
    | inl k ↦ absurd (ground arith)
    | inr ((b, d), k) ↦
        let (rest, front, kept) = pop_write-kept c d b k in
        write_popped-KeepsBytes c c' d wire wire' b rest front kept (rw (h, k) at e)
  ]
]

not_ended :
    (c : Connection) (wire : Bytes) (failure : Option (ℕ × ClientError))
    → write_round false failure c wire ≡ write_popped (pop_write c) wire failure
unfolding write_round
not_ended c wire failure = ground arith

failed_write :
    (c d : Connection) (wire b : Bytes) (n : ℕ) (err : ClientError)
    → Reachable d
    → d.last_error ≡ c.last_error
    → (c' : Connection) × (after_write d wire b (some (n, err)) ≡ returned c' (wire ++ take n b))
      × (c'.running ≡ false)
      × (c'.last_error ≡ first_error c.last_error err)
failed_write c d wire b n err r same =
    let (_, (c', e, stopped, error)) = set_error_stops d err r in
    (c', rw (e, after_write) refl, stopped, error ∙ ap (λ o. first_error o err) same)

-- Where a reachable connection whose queue has a line in front does not see `end` closed, and `Write`
-- fails after some bytes of that line, the round returns without a panic: the connection no longer
-- runs, it keeps the first error, and the wire has gained those bytes.
pub write_round_fails :
    (c : Connection) (wire : Bytes) (x : ℕ) (b : Bytes) (rest : List Bytes) (n : ℕ)
    (err : ClientError)
    → Reachable c
    → c.pwrite ≡ (x ∷ b) ∷ rest
    → (c' : Connection) × (write_round false (some (n, err)) c wire
        ≡ returned c' (wire ++ take n (x ∷ b)))
      × (c'.running ≡ false)
      × (c'.last_error ≡ first_error c.last_error err)
unfolding pop_write
write_round_fails c wire x b rest n err r h =
    let d : Connection = record c { pwrite = rest } in
    let pop : pop_write c ≡ some (x ∷ b, d) = rw h refl in
    let (c', e, stopped, error) =
      failed_write c d wire (x ∷ b) n err (after_pop c d (x ∷ b) r pop) refl in
    (
      c',
      not_ended c wire (some (n, err)) ∙ ap (λ o. write_popped o wire (some (n, err))) pop ∙ e,
      stopped,
      error,
    )

-- Rounds that do not see `end` closed, and whose `Write` reports no error.
unfoldable pub write_rounds : ℕ → Connection → Bytes → Round
write_rounds zero c wire = goes_on c wire
write_rounds (suc n) c wire = elim (write_round false none c wire) [
  | goes_on c' wire' ↦ write_rounds n c' wire'
  | returned c' wire' ↦ returned c' wire'
  | blocked ↦ blocked
  | panicked ↦ panicked
]

writes_front :
    (c : Connection) (wire b : Bytes) (rest : List Bytes)
    → c.pwrite ≡ b ∷ rest
    → write_round false none c wire ≡ goes_on (record c { pwrite = rest }) (wire ++ b)
unfolding pop_write
writes_front c wire [] rest h =
    not_ended c wire none
    ∙ ap (λ q. write_popped (popped c q) wire none) h
    ∙ ap (goes_on (record c { pwrite = rest })) (sym (append-nil wire))
writes_front c wire (x ∷ b) rest h =
    not_ended c wire none ∙ ap (λ q. write_popped (popped c q) wire none) h

drains :
    (queue : List Bytes) (c : Connection) (wire : Bytes)
    → c.pwrite ≡ queue
    → write_rounds (length queue) c wire ≡ goes_on (record c { pwrite = [] }) (wire ++ joined queue)
unfolding write_rounds joined
drains [] c wire h =
    let f : List Bytes → Connection = λ q. record c { pwrite = q } in
    ap (λ x. goes_on x wire) (ap f h)
    ∙ ap (goes_on (record c { pwrite = [] })) (sym (append-nil wire))
drains (b ∷ rest) c wire h =
    rw (writes_front c wire b rest h, write_rounds)
      (drains rest (record c { pwrite = rest }) (wire ++ b) refl
        ∙ ap (goes_on (record c { pwrite = [] })) (append_assoc wire b (joined rest)))

-- While `end` is not seen closed and `Write` reports no error, as many rounds as lines are in the
-- queue write all of them, in order, behind what is on the wire, and leave the queue empty and the
-- rest of the state as it was; the round after that waits.
pub write_rounds_drain :
    (c : Connection) (wire : Bytes)
    → (write_rounds (length c.pwrite) c wire
        ≡ goes_on (record c { pwrite = [] }) (wire ++ joined c.pwrite))
      × (write_round false none (record c { pwrite = [] }) (wire ++ joined c.pwrite) ≡ blocked)
unfolding pop_write
write_rounds_drain c wire = (
  drains c.pwrite c wire refl,
  not_ended (record c { pwrite = [] }) (wire ++ joined c.pwrite) none,
)
