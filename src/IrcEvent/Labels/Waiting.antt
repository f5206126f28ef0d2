-- ===== src/IrcEvent/Labels/Waiting.antt =====
-- ircevent/irc_callback.go: the callbacks that wait, as a multiset, and what each operation takes out
-- of it.
use mathlib.Core.List.{Perm, perm_middle}
use mathlib.Core.List.Perm
use irc_go.Prelude.{
  ℕ, ◌+◌, ◌≤◌, ◌<◌, ◌%◌, ◌^◌, Bool, true, false, ◌||◌, ◌-◌, ◌==◌, ltb, List, [], ◌∷◌, ◌++◌, map,
  map-append, Option, none, some, ◌≡◌, refl, sym, ap, subst, ◌∙◌, inl, inr, arith, nat_eq, lookup,
  delete, insert_new, lookup-insert, lookup-delete, ==_iff, Bytes, Bool-cases, Option-cases,
  if◌then◌else◌,
}
use irc_go.IrcEvent.Labels.{
  Int64, key_of, PendingLabel, Labels, register_label, unregister_number, unregister_label,
  deserialize_label, get_label_callback, expire_labels,
}

module _ {L : Type 0} where
  -- No label is above the last one, and none is there twice.
  unfoldable pub AreLabels : ℕ → List (ℕ × PendingLabel L) → Type 0
  AreLabels limit [] = Unit {0}
  AreLabels limit ((n, _) ∷ m) = (lookup n m ≡ none) × (n ≤ limit) × AreLabels limit m

  unfoldable pub IsLabels : Labels L → Type 0
  IsLabels st = AreLabels st.label_counter st.label_callbacks

  abbrev pub callback_of : ℕ × PendingLabel L → L
  callback_of (n, p) = p.callback

  unfoldable pub waiting : Labels L → List L
  waiting st = map callback_of st.label_callbacks

  AreLabels-fresh :
      (limit n : ℕ) (m : List (ℕ × PendingLabel L))
      → AreLabels limit m
      → limit < n
      → lookup n m ≡ none
  unfolding AreLabels lookup
  AreLabels-fresh limit n [] v h = refl
  AreLabels-fresh limit n ((j, p) ∷ m) (_, l, v) h =
      let rest = AreLabels-fresh limit n m v h in ground arith

  AreLabels-append :
      (limit : ℕ) (p : PendingLabel L) (m : List (ℕ × PendingLabel L))
      → AreLabels limit m
      → AreLabels (limit + 1) (m ++ (limit + 1, p) ∷ [])
  unfolding AreLabels lookup
  AreLabels-append limit p [] v = (refl, omega arith, tt)
  AreLabels-append limit p ((j, q) ∷ m) (u, l, v) = (
    sym (
          ap (lookup j)
            (insert_new (limit + 1) p m (AreLabels-fresh limit (limit + 1) m v (omega arith))))
        ∙ lookup-insert (limit + 1) j p m
        ∙ (let differs : (limit + 1 == j) ≡ false = ground arith in rw differs u),
    omega arith,
    AreLabels-append limit p m v,
  )

  AreLabels-delete :
      (limit n : ℕ) (m : List (ℕ × PendingLabel L))
      → AreLabels limit m
      → AreLabels limit (delete n m)
  unfolding AreLabels delete
  AreLabels-delete limit n [] v = tt
  AreLabels-delete limit n ((j, p) ∷ m) (u, l, v) = elim (Bool-cases (j == n)) [
    | inl e ↦ rw e (AreLabels-delete limit n m v)
    | inr e ↦ rw e (
      lookup-delete n j m ∙ (let differs : (n == j) ≡ false = ground arith in rw differs u),
      l,
      AreLabels-delete limit n m v,
    )
  ]

  delete-none : (n : ℕ) (m : List (ℕ × PendingLabel L)) → lookup n m ≡ none → delete n m ≡ m
  unfolding lookup delete
  delete-none n [] h = refl
  delete-none n ((j, p) ∷ m) h = ground (arith, delete-none n m)

  delete-Perm :
      (limit n : ℕ) (p : PendingLabel L) (m : List (ℕ × PendingLabel L))
      → AreLabels limit m
      → lookup n m ≡ some p
      → Perm (map callback_of m) (p.callback ∷ map callback_of (delete n m))
  unfolding AreLabels lookup delete
  delete-Perm limit n p [] v h = absurd (ground arith)
  delete-Perm limit n p ((j, q) ∷ m) (u, l, v) h = elim (Bool-cases (j == n)) [
    | inl e ↦
        let same : q ≡ p = ground arith in
        let none_left : lookup n m ≡ none = ap (λ k. lookup k m) (sym ((==_iff j n).0 e)) ∙ u in
        rw (e, delete-none n m none_left)
          (subst (λ x. Perm (q.callback ∷ map callback_of m) (x ∷ map callback_of m))
            (ap (λ x. x.callback) same) (Perm.refl (q.callback ∷ map callback_of m)))
    | inr e ↦
        let found : lookup n m ≡ some p = ground arith in
        rw e (
          Perm.trans (Perm.cons q.callback (delete-Perm limit n p m v found))
            (Perm.swap p.callback q.callback (map callback_of (delete n m))))
  ]

  -- What is taken out of the callbacks that wait.
  pub record Takes (st : Labels L) (out : List L) (st' : Labels L) : Type 0 where
    pub stays : IsLabels st'
    pub moved : Perm (waiting st) (out ++ waiting st')

  pub Takes-nothing : (st : Labels L) → IsLabels st → Takes st [] st
  Takes-nothing st v = record { stays = v; moved = Perm.refl (waiting st) }

  abbrev pub listed : Option L → List L
  listed none = []
  listed (some f) = f ∷ []

  pub get_label_callback-Takes :
      (st : Labels L) (label : Int64)
      → IsLabels st
      → Takes st (listed (get_label_callback st label).0) (get_label_callback st label).1
  unfolding get_label_callback
  get_label_callback-Takes st label v =
      elim (Option-cases (lookup (key_of label) st.label_callbacks)) [
        | inl e ↦ rw (e, get_label_callback) (Takes-nothing st v)
        | inr (p, e) ↦
            rw (e, get_label_callback)
              (unfold IsLabels waiting in
                record {
                  stays = AreLabels-delete st.label_counter (key_of label) st.label_callbacks v;
                  moved = delete-Perm st.label_counter (key_of label) p st.label_callbacks v e;
                })
      ]

  -- What `unregisterLabel` withdraws.
  unfoldable pub withdrawn_at : Labels L → Int64 → List L
  withdrawn_at st label = if key_of label == 0 then [] else listed (get_label_callback st label).0

  unregister_at-Takes :
      (st : Labels L) (label : Int64)
      → IsLabels st
      → Takes st (withdrawn_at st label) (unregister_number st label)
  unfolding get_label_callback unregister_number withdrawn_at
  unregister_at-Takes st label v = elim (Bool-cases (key_of label == 0)) [
    | inl zero ↦ rw zero (Takes-nothing st v)
    | inr positive ↦ rw positive (elim (Option-cases (lookup (key_of label) st.label_callbacks)) [
      | inl e ↦
          let same : delete (key_of label) st.label_callbacks ≡ st.label_callbacks =
            delete-none (key_of label) st.label_callbacks e in
          rw (e, get_label_callback)
            (subst (λ m. Takes st [] (record st { label_callbacks = m })) (sym same)
              (Takes-nothing st v))
      | inr (p, e) ↦
          rw (e, get_label_callback)
            (unfold IsLabels waiting in
              record {
                stays = AreLabels-delete st.label_counter (key_of label) st.label_callbacks v;
                moved = delete-Perm st.label_counter (key_of label) p st.label_callbacks v e;
              })
    ])
  ]

  pub unregister_label-Takes :
      (st : Labels L) (label_str : Bytes)
      → IsLabels st
      → Takes st (withdrawn_at st (deserialize_label label_str)) (unregister_label st label_str)
  unfolding unregister_label
  unregister_label-Takes st label_str v = unregister_at-Takes st (deserialize_label label_str) v

  pub register_label-waiting :
      (st : Labels L) (now : ℕ) (callback : L)
      → IsLabels st
      → st.label_counter + 1 < 2 ^ 63
      → (IsLabels (register_label st now callback).1)
        × (waiting (register_label st now callback).1 ≡ waiting st ++ callback ∷ [])
  unfolding register_label IsLabels waiting
  register_label-waiting st now callback v h =
      let same : st.label_counter + 1 ≡ (st.label_counter + 1) % 2 ^ 64 = omega arith in
      let n = (st.label_counter + 1) % 2 ^ 64 in
      let p : PendingLabel L = record { created_at = now; callback = callback } in
      let added =
        insert_new n p st.label_callbacks
          (AreLabels-fresh st.label_counter n st.label_callbacks v (omega arith)) in
      (
        subst (AreLabels n) (sym added) (
            subst (λ k. AreLabels k (st.label_callbacks ++ (k, p) ∷ [])) same
              (AreLabels-append st.label_counter p st.label_callbacks v)),
        ap (map callback_of) added ∙ map-append callback_of st.label_callbacks ((n, p) ∷ []),
      )

  expire_labels-kept :
      (force : Bool) (now keep_alive n : ℕ) (m : List (ℕ × PendingLabel L))
      → lookup n m ≡ none
      → lookup n (expire_labels force now keep_alive m).1 ≡ none
  unfolding expire_labels lookup
  expire_labels-kept force now keep_alive n [] h = refl
  expire_labels-kept force now keep_alive n ((j, p) ∷ m) h =
      ground (arith, expire_labels-kept force now keep_alive n m)

  expire_labels-AreLabels :
      (force : Bool) (now keep_alive limit : ℕ) (m : List (ℕ × PendingLabel L))
      → AreLabels limit m
      → AreLabels limit (expire_labels force now keep_alive m).1
  unfolding expire_labels AreLabels
  expire_labels-AreLabels force now keep_alive limit [] v = tt
  expire_labels-AreLabels force now keep_alive limit ((j, p) ∷ m) (u, l, v) =
      let rest = expire_labels-AreLabels force now keep_alive limit m v in
      elim (Bool-cases (force || ltb keep_alive (now - p.created_at))) [
        | inl e ↦ rw e rest
        | inr e ↦ rw e (expire_labels-kept force now keep_alive j m u, l, rest)
      ]

  expire_labels-Perm :
      (force : Bool) (now keep_alive : ℕ) (m : List (ℕ × PendingLabel L))
      → Perm (map callback_of m) (
          (expire_labels force now keep_alive m).0
          ++ map callback_of (expire_labels force now keep_alive m).1)
  unfolding expire_labels
  expire_labels-Perm force now keep_alive [] = Perm.refl []
  expire_labels-Perm force now keep_alive ((j, p) ∷ m) =
      let rest = expire_labels-Perm force now keep_alive m in
      let out = expire_labels force now keep_alive m in
      elim (Bool-cases (force || ltb keep_alive (now - p.created_at))) [
        | inl e ↦ rw e (Perm.cons p.callback rest)
        | inr e ↦ rw e (
            Perm.trans (Perm.cons p.callback rest)
              (Perm.symm (perm_middle {a = p.callback} out.0 (map callback_of out.1))))
      ]

  pub expire_labels-Takes :
      (st : Labels L) (force : Bool) (now keep_alive : ℕ)
      → IsLabels st
      → (let (failed, kept) = expire_labels force now keep_alive st.label_callbacks in
          Takes st failed (record st { label_callbacks = kept }))
  unfolding IsLabels waiting
  expire_labels-Takes st force now keep_alive v = record {
    stays = expire_labels-AreLabels force now keep_alive st.label_counter st.label_callbacks v;
    moved = expire_labels-Perm force now keep_alive st.label_callbacks;
  }

  -- By force, all are.
  pub expire_labels-force :
      (now keep_alive : ℕ) (m : List (ℕ × PendingLabel L))
      → (expire_labels true now keep_alive m).1 ≡ []
  unfolding expire_labels
  expire_labels-force now keep_alive [] = refl
  expire_labels-force now keep_alive ((j, p) ∷ m) = expire_labels-force now keep_alive m
