-- ===== src/IrcEvent/Registry/Reachable.antt =====
-- The registries that a client can reach, and the IDs in them.
use irc_go.Prelude.{
  ℕ, ◌+◌, ◌^◌, ◌%◌, ◌<◌, ◌≤◌, ◌==◌, Bool, true, false, List, [], ◌∷◌, ◌++◌, Option, none, some,
  Bytes, ◌≡◌, refl, subst, ◌⊎◌, inl, inr, arith, bytes_eq, to_upper, upper_byte, string_eq, lookup,
  insert, lookup-delete, Bool-cases, Option-cases,
}
use irc_go.IrcEvent.Registry.{
  rpl_endofmotd, err_nomotd, registration_event, batch_event, CallbackId, Registry, is_rejected,
  next_id, without, replace_first, event_list, add_pair, add_callback_id, add_callback,
  remove_callback_no_mutex, remove_batch_callback_no_mutex, remove_callback, clear_callback,
  replace_callback, add_batch_callback, add_connect_callback,
}
use irc_go.IrcEvent.Registry.Restore.{IsBelow, event_list-insert}

module _ {A : Type 0} where
  IsBelow-mono : (n m : ℕ) (l : List (ℕ × A)) → n ≤ m → IsBelow n l → IsBelow m l
  unfolding IsBelow
  IsBelow-mono n m [] h b = b
  IsBelow-mono n m ((i, f) ∷ l) h (p, q) = (omega arith, IsBelow-mono n m l h q)

  IsBelow-append :
      (n i : ℕ) (f : A) (l : List (ℕ × A)) → i < n → IsBelow n l → IsBelow n (l ++ (i, f) ∷ [])
  unfolding IsBelow
  IsBelow-append n i f [] h b = (h, b)
  IsBelow-append n i f ((j, g) ∷ l) h (p, q) = (p, IsBelow-append n i f l h q)

  IsBelow-without : (n id : ℕ) (l : List (ℕ × A)) → IsBelow n l → IsBelow n (without id l)
  unfolding IsBelow without
  IsBelow-without n id [] b = b
  IsBelow-without n id ((i, f) ∷ l) (p, q) = elim (Bool-cases (i == id)) [
    | inl e ↦ rw e (IsBelow-without n id l q)
    | inr e ↦ rw e (p, IsBelow-without n id l q)
  ]

  OptBelow : ℕ → Option (List (ℕ × A)) → Type 0
  OptBelow n none = Unit {0}
  OptBelow n (some l) = IsBelow n l

  OptBelow-replace_first :
      (n id : ℕ) (f : A) (l : List (ℕ × A)) → IsBelow n l → OptBelow n (replace_first id f l)
  unfolding IsBelow replace_first OptBelow
  OptBelow-replace_first n id f [] b = tt
  OptBelow-replace_first n id f ((i, g) ∷ l) (p, q) = elim (Bool-cases (i == id)) [
    | inl k ↦ rw (k, replace_first) (p, q)
    | inr k ↦ elim (Option-cases (replace_first id f l)) [
      | inl z ↦ rw (k, z, replace_first) tt
      | inr (t, z) ↦
          rw (k, z, replace_first) (p, subst (OptBelow n) z (OptBelow-replace_first n id f l q))
    ]
  ]

module _ {F B : Type 0} where
  -- Every ID in use is below the counter.
  pub record IsRegistry (r : Registry F B) : Type 0 where
    pub events_below : (c : Bytes) → IsBelow r.callback_counter (event_list r c)
    pub batch_below : IsBelow r.callback_counter r.batch_callbacks

  abbrev pub empty_registry : Registry F B
  empty_registry = record { events = []; callback_counter = 0; batch_callbacks = [] }

  -- The operations of a client; two IDs at most are used by one of them.
  pub data Reachable : Registry F B → Type 0 where
    at_start : Reachable empty_registry
    after_add :
        {r : Registry F B} (c : Bytes) (f : F) (prepend : Bool)
        → r.callback_counter + 2 < 2 ^ 64
        → Reachable r
        → Reachable (add_callback_id r c f prepend 0).1
    after_remove :
        {r : Registry F B} (id : CallbackId) → Reachable r → Reachable (remove_callback r id)
    after_clear : {r : Registry F B} (c : Bytes) → Reachable r → Reachable (clear_callback r c)
    after_replace :
        {r : Registry F B} (id : CallbackId) (f : F)
        → Reachable r
        → Reachable (replace_callback r id f).1
    after_add_batch :
        {r : Registry F B} (f : B)
        → r.callback_counter + 2 < 2 ^ 64
        → Reachable r
        → Reachable (add_batch_callback r f).1
    after_add_connect :
        {r : Registry F B} (f : F)
        → r.callback_counter + 2 < 2 ^ 64
        → Reachable r
        → Reachable (add_connect_callback r f).1

  -- A registry with more room and one list set.
  set-IsRegistry :
      (r : Registry F B) (c : Bytes) (l : List (ℕ × F))
      → IsRegistry r
      → IsBelow r.callback_counter l
      → IsRegistry (record r { events = insert c l r.events })
  set-IsRegistry r c l h b = record {
    events_below = λ code. elim (Bool-cases (bytes_eq c code)) [
      | inl e ↦ rw (event_list-insert r c code l, e) b
      | inr e ↦ rw (event_list-insert r c code l, e) (h.events_below code)
    ];
    batch_below = h.batch_below;
  }

  counter-IsRegistry :
      (r : Registry F B) (n : ℕ)
      → r.callback_counter ≤ n
      → IsRegistry r
      → IsRegistry (record r { callback_counter = n })
  unfolding event_list
  counter-IsRegistry r n k h = record {
    events_below =
        λ code. IsBelow-mono r.callback_counter n (event_list r code) k (h.events_below code);
    batch_below = IsBelow-mono r.callback_counter n r.batch_callbacks k h.batch_below;
  }

  add_pair-IsRegistry :
      (r : Registry F B) (c : Bytes) (f : F) (prepend : Bool) (id : ℕ)
      → id < r.callback_counter
      → IsRegistry r
      → IsRegistry (add_pair r c f prepend id).1
  unfolding add_pair IsBelow
  add_pair-IsRegistry r c f true id k h =
      set-IsRegistry r c ((id, f) ∷ event_list r c) h (k, h.events_below c)
  add_pair-IsRegistry r c f false id k h =
      set-IsRegistry r c (event_list r c ++ (id, f) ∷ []) h
        (IsBelow-append r.callback_counter id f (event_list r c) k (h.events_below c))

  add-IsRegistry :
      (r : Registry F B) (c : Bytes) (f : F) (prepend : Bool) (id : ℕ)
      → r.callback_counter + 1 < 2 ^ 64
      → (id ≡ 0) ⊎ (id < r.callback_counter)
      → IsRegistry r
      → IsRegistry (add_callback_id r c f prepend id).1
  unfolding add_callback_id next_id
  add-IsRegistry r c f prepend id u k h = elim (Bool-cases (is_rejected (to_upper c))) [
    | inl e ↦ rw (e, add_callback_id) h
    | inr e ↦ elim (Bool-cases (id == 0)) [
      | inl z ↦
          rw (e, z, add_callback_id)
            (add_pair-IsRegistry (record r { callback_counter = next_id r.callback_counter })
              (to_upper c) f prepend r.callback_counter (omega arith)
              (counter-IsRegistry r (next_id r.callback_counter) (omega arith) h))
      | inr z ↦
          rw (e, z, add_callback_id)
            (add_pair-IsRegistry r (to_upper c) f prepend id (ground arith) h)
    ]
  ]

  remove_at-IsRegistry :
      (r : Registry F B) (c : Bytes) (id : ℕ) (l : List (ℕ × F))
      → event_list r c ≡ l
      → IsRegistry r
      → IsRegistry (remove_callback_no_mutex r c id)
  unfolding remove_callback_no_mutex
  remove_at-IsRegistry r c id [] e h = rw (e, remove_callback_no_mutex) h
  remove_at-IsRegistry r c id (p ∷ l) e h =
      rw (e, remove_callback_no_mutex)
        (set-IsRegistry r c (without id (p ∷ l)) h (
          IsBelow-without r.callback_counter id (p ∷ l)
            (subst (IsBelow r.callback_counter) e (h.events_below c))))

  remove-IsRegistry :
      (r : Registry F B) (id : CallbackId) → IsRegistry r → IsRegistry (remove_callback r id)
  unfolding remove_callback remove_batch_callback_no_mutex event_list
  remove-IsRegistry r id h = elim (Bool-cases (bytes_eq id.command registration_event)) [
    | inl e ↦
        let r1 = remove_callback_no_mutex r rpl_endofmotd id.id in
        rw (e, remove_callback)
          (remove_at-IsRegistry r1 err_nomotd id.id (event_list r1 err_nomotd) refl
            (remove_at-IsRegistry r rpl_endofmotd id.id (event_list r rpl_endofmotd) refl h))
    | inr e ↦ elim (Bool-cases (bytes_eq id.command batch_event)) [
      | inl k ↦
          rw (e, k, remove_callback)
            (record {
              events_below = h.events_below;
              batch_below =
                  IsBelow-without r.callback_counter id.id r.batch_callbacks h.batch_below;
            })
      | inr k ↦
          rw (e, k, remove_callback)
            (remove_at-IsRegistry r id.command id.id (event_list r id.command) refl h)
    ]
  ]

  clear-IsRegistry : (r : Registry F B) (c : Bytes) → IsRegistry r → IsRegistry (clear_callback r c)
  unfolding clear_callback event_list IsBelow
  clear-IsRegistry r c h = record {
    events_below = λ code. elim (Bool-cases (bytes_eq (to_upper c) code)) [
      | inl e ↦ rw (lookup-delete (to_upper c) code r.events, e) tt
      | inr e ↦ rw (lookup-delete (to_upper c) code r.events, e) (h.events_below code)
    ];
    batch_below = h.batch_below;
  }

  replace-IsRegistry :
      (r : Registry F B) (id : CallbackId) (f : F)
      → IsRegistry r
      → IsRegistry (replace_callback r id f).1
  unfolding replace_callback OptBelow
  replace-IsRegistry r id f h =
      elim (Option-cases (replace_first id.id f (event_list r id.command))) [
        | inl z ↦ rw (z, replace_callback) h
        | inr (l, z) ↦
            rw (z, replace_callback)
              (set-IsRegistry r id.command l h (
                subst (OptBelow r.callback_counter) z (
                  OptBelow-replace_first r.callback_counter id.id f (event_list r id.command)
                    (h.events_below id.command))))
      ]

  add_batch-IsRegistry :
      (r : Registry F B) (f : B)
      → r.callback_counter + 2 < 2 ^ 64
      → IsRegistry r
      → IsRegistry (add_batch_callback r f).1
  unfolding add_batch_callback next_id event_list
  add_batch-IsRegistry r f u h =
      let grown = counter-IsRegistry r (next_id r.callback_counter) (omega arith) h in
      record {
        events_below = grown.events_below;
        batch_below =
            IsBelow-append (next_id r.callback_counter) r.callback_counter f r.batch_callbacks
              (omega arith) grown.batch_below;
      }

  endofmotd_ids :
      (r : Registry F B) (f : F)
      → ((add_callback r rpl_endofmotd f).1.callback_counter ≡ (r.callback_counter + 1) % 2 ^ 64)
        × ((add_callback r rpl_endofmotd f).0.id ≡ r.callback_counter)
  unfolding add_callback add_callback_id add_pair next_id to_upper upper_byte is_rejected bytes_eq
  endofmotd_ids r f = (refl, refl)

  add_connect-IsRegistry :
      (r : Registry F B) (f : F)
      → r.callback_counter + 2 < 2 ^ 64
      → IsRegistry r
      → IsRegistry (add_connect_callback r f).1
  unfolding add_connect_callback
  add_connect-IsRegistry r f u h =
      let first = add_callback r rpl_endofmotd f in
      let (counter, id) = endofmotd_ids r f in
      add-IsRegistry first.1 err_nomotd f false first.0.id (omega arith) (inr (omega arith))
        (unfold add_callback in add-IsRegistry r rpl_endofmotd f false 0 (omega arith) (inl refl) h)

  -- In every registry that a client reaches while the counter stays two below the end of a uint64,
  -- the IDs in use, of callbacks and of batch callbacks, are below the counter.
  pub Reachable-IsRegistry : {r : Registry F B} → Reachable r → IsRegistry r
  unfolding event_list IsBelow lookup
  Reachable-IsRegistry at_start = record { events_below = λ c. tt; batch_below = tt }
  Reachable-IsRegistry (after_add {r = r} c f p u h) =
      add-IsRegistry r c f p 0 (omega arith) (inl refl) (Reachable-IsRegistry h)
  Reachable-IsRegistry (after_remove {r = r} id h) = remove-IsRegistry r id (Reachable-IsRegistry h)
  Reachable-IsRegistry (after_clear {r = r} c h) = clear-IsRegistry r c (Reachable-IsRegistry h)
  Reachable-IsRegistry (after_replace {r = r} id f h) =
      replace-IsRegistry r id f (Reachable-IsRegistry h)
  Reachable-IsRegistry (after_add_batch {r = r} f u h) =
      add_batch-IsRegistry r f u (Reachable-IsRegistry h)
  Reachable-IsRegistry (after_add_connect {r = r} f u h) =
      add_connect-IsRegistry r f u (Reachable-IsRegistry h)
