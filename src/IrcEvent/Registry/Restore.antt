-- ===== src/IrcEvent/Registry/Restore.antt =====
-- Removing a callback takes back what adding it did.
use irc_go.Prelude.{
  ℕ, ◌<◌, Bool, true, false, ◌==◌, List, [], ◌∷◌, ◌++◌, Bytes, ◌≡◌, ◌≢◌, refl, sym, ap, ◌∙◌, inl,
  inr, arith, bytes_eq, bytes_eq_iff, to_upper, upper_byte, string_eq, insert, lookup-insert,
  if◌then◌else◌, ==_refl, ||-eq-false, Bool-cases,
}
use irc_go.IrcEvent.Registry.{
  registration_event, batch_event, rpl_endofmotd, err_nomotd, Registry, is_rejected, next_id,
  without, event_list, add_pair, add_callback_id, add_callback, remove_callback_no_mutex,
  remove_callback, add_connect_callback, get_callbacks,
}

-- Every ID of a list is below a bound.
unfoldable pub IsBelow : {A : Type 0} → ℕ → List (ℕ × A) → Type 0
IsBelow n [] = Unit
IsBelow n ((i, f) ∷ l) = (i < n) × IsBelow n l

pub without-append :
    {A : Type 0} (n : ℕ) (f : A) (l : List (ℕ × A)) → IsBelow n l → without n (l ++ (n, f) ∷ []) ≡ l
unfolding without IsBelow
without-append n f [] h = ground (arith, ==_refl n)
without-append n f ((i, g) ∷ l) (h, hs) = ground (arith, without-append n f l hs)

without_last :
    {F : Type 0} (n m : ℕ) (f : F) (l : List (ℕ × F))
    → (m == n) ≡ false
    → without n (l ++ (m, f) ∷ []) ≡ without n l ++ (m, f) ∷ []
unfolding without
without_last n m f [] h = ground arith
without_last n m f ((i, g) ∷ l) h = ground (arith, without_last n m f l h)

accepted : (c : Bytes) → is_rejected c ≡ false → bytes_eq c batch_event ≡ false
unfolding is_rejected
accepted [] h = cc
accepted (c ∷ s) h = (||-eq-false (c == b'*') (bytes_eq (c ∷ s) batch_event) h).1

pub differs : (a b : Bytes) → a ≢ b → bytes_eq a b ≡ false
differs a b ne = elim (Bool-cases (bytes_eq a b)) [
  | inl e ↦ absurd (ne ((bytes_eq_iff a b).0 e))
  | inr e ↦ e
]

module _ {F B : Type 0} where
  -- What a list of callbacks is after one of them was set.
  pub event_list-insert :
      (r : Registry F B) (c code : Bytes) (l : List (ℕ × F))
      → event_list (record r { events = insert c l r.events }) code
        ≡ (if bytes_eq c code then l else event_list r code)
  unfolding event_list
  event_list-insert r c code l = elim (Bool-cases (bytes_eq c code)) [
    | inl e ↦ rw (lookup-insert c code l r.events, e)
    | inr e ↦ rw (lookup-insert c code l r.events, e)
  ]

  removed_at :
      (r : Registry F B) (c : Bytes) (id : ℕ) (code : Bytes) (l : List (ℕ × F))
      → event_list r c ≡ l
      → event_list (remove_callback_no_mutex r c id) code
        ≡ (if bytes_eq c code then without id l else event_list r code)
  unfolding remove_callback_no_mutex without
  removed_at r c id code [] e = elim (Bool-cases (bytes_eq c code)) [
    | inl s ↦ rw (e, s, remove_callback_no_mutex, without) (rw (sym ((bytes_eq_iff c code).0 s)) e)
    | inr s ↦ rw (e, s, remove_callback_no_mutex)
  ]
  removed_at r c id code (p ∷ l) e =
      rw (e, remove_callback_no_mutex) (event_list-insert r c code (without id (p ∷ l)))

  pub event_list-remove :
      (r : Registry F B) (c : Bytes) (id : ℕ) (code : Bytes)
      → event_list (remove_callback_no_mutex r c id) code
        ≡ (if bytes_eq c code then without id (event_list r c) else event_list r code)
  event_list-remove r c id code = removed_at r c id code (event_list r c) refl

  pub event_list-add :
      (r : Registry F B) (c : Bytes) (f : F) (prepend : Bool) (id : ℕ) (code : Bytes)
      → event_list (add_pair r c f prepend id).1 code ≡ (
          if bytes_eq c code
          then (if prepend then (id, f) ∷ event_list r c else event_list r c ++ (id, f) ∷ [])
          else event_list r code)
  event_list-add r c f prepend id code = unfold add_pair in event_list-insert r c code _

  -- An accepted command is dispatched to the new callback behind those that it had, or before them
  -- if it is to be prepended, whatever the ID; the callbacks of all other commands stay.
  pub get_callbacks-add_callback_id :
      (r : Registry F B) (command : Bytes) (f : F) (prepend : Bool) (id_num : ℕ) (code : Bytes)
      → is_rejected (to_upper command) ≡ false
      → let out = add_callback_id r command f prepend id_num in
        get_callbacks out.1 code ≡ (
          if bytes_eq (to_upper command) (to_upper code)
          then (if prepend
              then (out.0.id, f) ∷ get_callbacks r command
              else get_callbacks r command ++ (out.0.id, f) ∷ [])
          else get_callbacks r code)
  unfolding add_callback_id get_callbacks add_pair event_list
  get_callbacks-add_callback_id r command f prepend id_num code h =
      elim (Bool-cases (id_num == 0)) [
        | inl e ↦
            rw (h, e, add_callback_id)
              (event_list-add (record r { callback_counter = next_id r.callback_counter })
                (to_upper command) f prepend r.callback_counter (to_upper code))
        | inr e ↦
            rw (h, e, add_callback_id)
              (event_list-add r (to_upper command) f prepend id_num (to_upper code))
      ]

  -- What is left of a list, after its own removal or another's.
  restored :
      (r : Registry F B) (c : Bytes) (f : F) (id : ℕ) (code : Bytes)
      → IsBelow id (event_list r c)
      → event_list (remove_callback_no_mutex (add_pair r c f false id).1 c id) code
        ≡ event_list r code
  restored r c f id code below = elim (Bool-cases (bytes_eq c code)) [
    | inl e ↦
        let same = (bytes_eq_iff c code).0 e in
        event_list-remove (add_pair r c f false id).1 c id code
        ∙ rw e (
            ap (without id) (event_list-add r c f false id c ∙ rw ((bytes_eq_iff c c).1 refl))
            ∙ without-append id f (event_list r c) below
            ∙ ap (event_list r) same)
    | inr e ↦
        event_list-remove (add_pair r c f false id).1 c id code
        ∙ rw e (event_list-add r c f false id code ∙ rw e)
  ]

  -- Removing a callback by the ID under which it was added restores the callbacks of every command,
  -- if the command is accepted and not the registration event, and if the IDs of its callbacks are
  -- below the counter.
  pub remove_callback-add_callback :
      (r : Registry F B) (command : Bytes) (f : F) (code : Bytes)
      → is_rejected (to_upper command) ≡ false
      → to_upper command ≢ registration_event
      → IsBelow r.callback_counter (event_list r (to_upper command))
      → let out = add_callback r command f in
        get_callbacks (remove_callback out.1 out.0) code ≡ get_callbacks r code
  unfolding add_callback add_callback_id get_callbacks remove_callback add_pair event_list
  remove_callback-add_callback r command f code h ne below =
      rw
        (
          h,
          remove_callback,
          differs (to_upper command) registration_event ne,
          accepted (to_upper command) h,
        )
        (restored (record r { callback_counter = next_id r.callback_counter }) (to_upper command) f
          r.callback_counter (to_upper code) below)

  restored_twice :
      (r : Registry F B) (c d : Bytes) (f : F) (id : ℕ) (code : Bytes)
      → c ≢ d
      → IsBelow id (event_list r c)
      → IsBelow id (event_list r d)
      → event_list
          (remove_callback_no_mutex
            (remove_callback_no_mutex (add_pair (add_pair r c f false id).1 d f false id).1 c id)
            d
            id)
          code
        ≡ event_list r code
  restored_twice r c d f id code ne below_c below_d =
      let r1 = (add_pair r c f false id).1 in
      let x = (add_pair r1 d f false id).1 in
      let y = remove_callback_no_mutex x c id in
      let cd = differs c d ne in
      let dc = differs d c (λ e. ne (sym e)) in
      elim (Bool-cases (bytes_eq d code)) [
        | inl e ↦
            event_list-remove y d id code
            ∙ rw e (
                ap (without id) (
                  event_list-remove x c id d
                  ∙ rw cd (
                      event_list-add r1 d f false id d
                      ∙ rw ((bytes_eq_iff d d).1 refl)
                          (ap (λ l. l ++ (id, f) ∷ []) (event_list-add r c f false id d ∙ rw cd))))
                ∙ without-append id f (event_list r d) below_d
                ∙ ap (event_list r) ((bytes_eq_iff d code).0 e))
        | inr e ↦
            event_list-remove y d id code
            ∙ rw e (elim (Bool-cases (bytes_eq c code)) [
              | inl k ↦
                  event_list-remove x c id code
                  ∙ rw k (
                      ap (without id) (
                        event_list-add r1 d f false id c
                        ∙ rw dc (event_list-add r c f false id c ∙ rw ((bytes_eq_iff c c).1 refl)))
                      ∙ without-append id f (event_list r c) below_c
                      ∙ ap (event_list r) ((bytes_eq_iff c code).0 k))
              | inr k ↦
                  event_list-remove x c id code
                  ∙ rw k (
                      event_list-add r1 d f false id code
                      ∙ rw e (event_list-add r c f false id code ∙ rw k))
            ])
      ]

  -- Removing a connect callback by its ID restores the callbacks of every command, if the counter
  -- was not 0 and the IDs of the callbacks of 376 and 422 are below it.
  pub remove_callback-add_connect_callback :
      (r : Registry F B) (f : F) (code : Bytes)
      → (r.callback_counter == 0) ≡ false
      → IsBelow r.callback_counter (event_list r rpl_endofmotd)
      → IsBelow r.callback_counter (event_list r err_nomotd)
      → let out = add_connect_callback r f in
        get_callbacks (remove_callback out.1 out.0) code ≡ get_callbacks r code
  unfolding add_connect_callback add_callback add_callback_id get_callbacks remove_callback add_pair
      event_list bytes_eq is_rejected to_upper upper_byte
  remove_callback-add_connect_callback r f code ne below376 below422 = rw ne (
      restored_twice (record r { callback_counter = next_id r.callback_counter }) rpl_endofmotd
        err_nomotd f r.callback_counter (to_upper code)
        (λ e.
          let z : bytes_eq rpl_endofmotd err_nomotd ≡ true =
            (bytes_eq_iff rpl_endofmotd err_nomotd).1 e in
          cc)
        below376 below422)

  other_stays :
      (r : Registry F B) (c d : Bytes) (f : F) (id other : ℕ)
      → bytes_eq c d ≡ false
      → (other == id) ≡ false
      → event_list
          (remove_callback_no_mutex
            (remove_callback_no_mutex (add_pair (add_pair r c f false id).1 d f false other).1 c id)
            d
            id)
          d
        ≡ without id (event_list r d) ++ (other, f) ∷ []
  other_stays r c d f id other ne h =
      let r1 = (add_pair r c f false id).1 in
      let x = (add_pair r1 d f false other).1 in
      let own = (bytes_eq_iff d d).1 refl in
      event_list-remove (remove_callback_no_mutex x c id) d id d
      ∙ rw own (
          ap (without id) (
            event_list-remove x c id d
            ∙ rw ne (
                event_list-add r1 d f false other d
                ∙ rw own
                    (ap (λ l. l ++ (other, f) ∷ []) (event_list-add r c f false id d ∙ rw ne))))
          ∙ without_last id other f (event_list r d) h)

  -- If the counter was 0, the copy of a connect callback for 422 has the ID 1, and is still there
  -- after its removal.
  pub connect_callback_stays :
      (r : Registry F B) (f : F)
      → r.callback_counter ≡ 0
      → let out = add_connect_callback r f in
        get_callbacks (remove_callback out.1 out.0) err_nomotd
        ≡ without 0 (get_callbacks r err_nomotd) ++ (1, f) ∷ []
  unfolding add_connect_callback add_callback add_callback_id get_callbacks remove_callback add_pair
      event_list bytes_eq is_rejected to_upper upper_byte next_id
  connect_callback_stays r f z =
      rw z
        (other_stays (record r { callback_counter = 2 }) rpl_endofmotd err_nomotd f 0 1 refl refl)
