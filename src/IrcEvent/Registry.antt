-- ===== src/IrcEvent/Registry.antt =====
-- ircevent/irc_callback.go: the registry of callbacks (`addCallback` and its relatives). The mutex
-- makes each operation one step. A callback is a value of a type that the client chooses.
pub mod Restore
pub mod Reachable
use irc_go.Prelude.{
  ℕ, ◌+◌, ◌%◌, ◌^◌, Bool, true, false, ◌||◌, ◌==◌, List, [], ◌∷◌, ◌++◌, Option, none, some, Bytes,
  codes, bytes_eq, has_prefix, to_upper, string_eq, lookup, insert, delete, if◌then◌else◌,
}

-- The fake events, "\x00REGISTRATION" and "\x00DISCONNECT".
abbrev pub registration_event : Bytes
registration_event = 0 ∷ codes "REGISTRATION"

abbrev pub disconnect_event : Bytes
disconnect_event = 0 ∷ codes "DISCONNECT"

abbrev pub batch_event : Bytes
batch_event = codes "BATCH"

abbrev pub rpl_endofmotd : Bytes
rpl_endofmotd = codes "376"

abbrev pub err_nomotd : Bytes
err_nomotd = codes "422"

pub record CallbackId : Type 0 where
  pub command : Bytes
  pub id : ℕ

-- The fields of `Connection` under `eventsMutex`.
pub record Registry (F B : Type 0) : Type 0 where
  pub events : List (Bytes × List (ℕ × F))
  pub callback_counter : ℕ
  pub batch_callbacks : List (ℕ × B)

abbrev pub list_or_nil : {A : Type 0} → Option (List A) → List A
list_or_nil none = []
list_or_nil (some l) = l

-- The commands that `addCallback` turns away.
unfoldable pub is_rejected : Bytes → Bool
is_rejected [] = true
is_rejected (c ∷ s) = c == b'*' || bytes_eq (c ∷ s) batch_event

-- `callbackCounter++` on a uint64.
unfoldable pub next_id : ℕ → ℕ
next_id n = (n + 1) % 2 ^ 64

unfoldable pub without : {A : Type 0} → ℕ → List (ℕ × A) → List (ℕ × A)
without id [] = []
without id ((i, f) ∷ l) = if i == id then without id l else (i, f) ∷ without id l

-- The list with the pair of the first entry of an ID replaced; `none` if the ID is not there.
unfoldable pub replace_first : {A : Type 0} → ℕ → A → List (ℕ × A) → Option (List (ℕ × A))
replace_first id f [] = none
replace_first id f ((i, g) ∷ l) =
    if i == id
    then some ((i, f) ∷ l)
    else elim (replace_first id f l) [ none ↦ none | some l' ↦ some ((i, g) ∷ l') ]

module _ {F B : Type 0} where
  -- `irc.events[command]`.
  unfoldable pub event_list : Registry F B → Bytes → List (ℕ × F)
  event_list r command = list_or_nil (lookup command r.events)

  unfoldable pub add_pair : Registry F B → Bytes → F → Bool → ℕ → CallbackId × Registry F B
  unfolding event_list
  add_pair r command callback prepend id_num =
      let current = event_list r command in
      (
        record { command = command; id = id_num },
        record r {
          events =
              insert command
                (if prepend
                  then (id_num, callback) ∷ current
                  else current ++ (id_num, callback) ∷ [])
                r.events;
        },
      )

  -- `addCallback`: `id_num` 0 asks for a new ID.
  unfoldable pub add_callback_id : Registry F B → Bytes → F → Bool → ℕ → CallbackId × Registry F B
  add_callback_id r command callback prepend id_num =
      let upper = to_upper command in
      if is_rejected upper
      then (record { command = []; id = 0 }, r)
      else if id_num == 0
      then add_pair (record r { callback_counter = next_id r.callback_counter }) upper callback
          prepend r.callback_counter
      else add_pair r upper callback prepend id_num

  unfoldable pub add_callback : Registry F B → Bytes → F → CallbackId × Registry F B
  unfolding add_callback_id
  add_callback r command callback = add_callback_id r command callback false 0

  unfoldable pub remove_callback_no_mutex : Registry F B → Bytes → ℕ → Registry F B
  remove_callback_no_mutex r code id = elim (event_list r code) [
    | [] ↦ r
    | p ∷ l ↦ record r { events = insert code (without id (p ∷ l)) r.events }
  ]

  unfoldable pub remove_batch_callback_no_mutex : Registry F B → ℕ → Registry F B
  remove_batch_callback_no_mutex r id = record r { batch_callbacks = without id r.batch_callbacks }

  unfoldable pub remove_callback : Registry F B → CallbackId → Registry F B
  remove_callback r id =
      if bytes_eq id.command registration_event
      then remove_callback_no_mutex (remove_callback_no_mutex r rpl_endofmotd id.id) err_nomotd
          id.id
      else if bytes_eq id.command batch_event
      then remove_batch_callback_no_mutex r id.id
      else remove_callback_no_mutex r id.command id.id

  unfoldable pub clear_callback : Registry F B → Bytes → Registry F B
  clear_callback r command = record r { events = delete (to_upper command) r.events }

  unfoldable pub replace_callback : Registry F B → CallbackId → F → Bool × Registry F B
  replace_callback r id callback = elim (replace_first id.id callback (event_list r id.command)) [
    | none ↦ (false, r)
    | some l ↦ (true, record r { events = insert id.command l r.events })
  ]

  unfoldable pub add_batch_callback : Registry F B → B → CallbackId × Registry F B
  add_batch_callback r callback = (
    record { command = batch_event; id = r.callback_counter },
    record r {
      callback_counter = next_id r.callback_counter;
      batch_callbacks = r.batch_callbacks ++ (r.callback_counter, callback) ∷ [];
    },
  )

  -- Both copies are meant to have one ID.
  unfoldable pub add_connect_callback : Registry F B → F → CallbackId × Registry F B
  add_connect_callback r callback =
      let (id376, r1) = add_callback r rpl_endofmotd callback in
      let (_, r2) = add_callback_id r1 err_nomotd callback false id376.id in
      (record { command = registration_event; id = id376.id }, r2)

  unfoldable pub add_disconnect_callback : Registry F B → F → CallbackId × Registry F B
  add_disconnect_callback r callback = add_callback r disconnect_event callback

  unfoldable pub get_callbacks : Registry F B → Bytes → List (ℕ × F)
  get_callbacks r code = event_list r (to_upper code)
