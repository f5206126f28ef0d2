-- ===== src/Tests/Event.antt =====
-- Package ircevent on small inputs.
use irc_go.Prelude.{
  ℕ, ◌+◌, ◌<◌, ◌^◌, true, false, List, [], ◌∷◌, Bytes, ◌++◌, none, some, ◌≡◌, ◌≢◌, refl, arith,
  codes, length, bytes_eq, cut, to_upper, upper_byte, string_eq, lookup, insert, map,
}
use irc_go.IrcMsg.Message.{Message, no_message, get_tag}
use irc_go.IrcEvent.Registry.{
  registration_event, rpl_endofmotd, err_nomotd, Registry, is_rejected, without, event_list,
  add_callback_id, add_callback, add_pair, next_id, remove_callback, add_connect_callback,
  get_callbacks,
}
use irc_go.IrcEvent.Registry.Restore.{IsBelow, remove_callback-add_callback, connect_callback_stays}
use irc_go.IrcEvent.Registry.Reachable.{
  at_start, after_add, after_add_connect, IsRegistry, Reachable-IsRegistry,
}
use irc_go.IrcEvent.Labels.{Labels, pos}
use irc_go.IrcEvent.Batches.{new_batch, Batches, BatchInProgress, handle_batch_command, flatten}
use irc_go.IrcEvent.Batches.Items.{flatten-handle_batch_command}
use irc_go.IrcEvent.Caps.{
  CapResult, CapState, cap_result, handle_cap_ls, wait_for_caps, all_answered, fields, field_parts,
  advertise, split_cap_token, partition_caps,
}
use irc_go.IrcEvent.Numerics.{numerics}
use irc_go.IrcEvent.Caps.Negotiated.{handle_cap_ls-wait_for_caps}

-- A registry that has used the ID 0 for PING; callbacks are numbers here.
abbrev one_callback : Registry ℕ ℕ
one_callback = record {
  events = (codes "PING", (0, 7) ∷ []) ∷ [];
  callback_counter = 1;
  batch_callbacks = [];
}

ping_accepted : is_rejected (to_upper (codes "ping")) ≡ false
unfolding is_rejected to_upper upper_byte bytes_eq
ping_accepted = refl

ping-IsBelow : IsBelow 1 (event_list one_callback (to_upper (codes "ping")))
unfolding IsBelow event_list lookup bytes_eq to_upper upper_byte
ping-IsBelow = (omega arith, tt)

ping_differs : to_upper (codes "ping") ≢ registration_event
unfolding to_upper upper_byte
ping_differs e = ground arith

remove_callback-add_callback_example :
    let out = add_callback one_callback (codes "ping") 8 in
    get_callbacks (remove_callback out.1 out.0) (codes "PING")
    ≡ get_callbacks one_callback (codes "PING")
remove_callback-add_callback_example =
    remove_callback-add_callback one_callback (codes "ping") 8 (codes "PING") ping_accepted
      ping_differs ping-IsBelow

motd-IsBelow : IsBelow 1 (event_list one_callback rpl_endofmotd)
unfolding IsBelow event_list lookup bytes_eq
motd-IsBelow = tt

no_motd-IsBelow : IsBelow 1 (event_list one_callback err_nomotd)
unfolding IsBelow event_list lookup bytes_eq
no_motd-IsBelow = tt

abbrev fresh : Registry ℕ ℕ
fresh = record { events = []; callback_counter = 0; batch_callbacks = [] }

connect_callback_stays_example :
    let out = add_connect_callback fresh 8 in
    get_callbacks (remove_callback out.1 out.0) err_nomotd
    ≡ without 0 (get_callbacks fresh err_nomotd) ++ (1, 8) ∷ []
connect_callback_stays_example = connect_callback_stays fresh 8 refl

pinged_room : (add_callback_id fresh (codes "ping") 8 true 0).1.callback_counter + 2 < 2 ^ 64
unfolding add_callback_id add_pair is_rejected to_upper upper_byte bytes_eq next_id
pinged_room = omega arith

Reachable-IsRegistry_example :
    IsRegistry (add_connect_callback (add_callback_id fresh (codes "ping") 8 true 0).1 9).1
Reachable-IsRegistry_example =
    Reachable-IsRegistry
      (after_add_connect 9 (pinged_room) (after_add (codes "ping") 8 true (omega arith) at_start))

abbrev no_labels : Labels ℕ
no_labels = record { label_callbacks = []; label_counter = 41 }

abbrev batch_line : Message
batch_line = record no_message {
  command = codes "BATCH";
  params = codes "+x" ∷ codes "chathistory" ∷ [];
  tags = (codes "batch", codes "x") ∷ [];
}

abbrev no_batches : Batches ℕ
no_batches = record { heap = []; batches = []; labels = no_labels }

abbrev open_batch : BatchInProgress
open_batch = record { created_at = 5; label = pos 0; batch = 0 }

abbrev one_batch : Batches ℕ
one_batch = record {
  heap = new_batch batch_line ∷ [];
  batches = (codes "x", open_batch) ∷ [];
  labels = no_labels;
}

tagged : get_tag batch_line (codes "batch") ≡ some (codes "x")
unfolding get_tag lookup bytes_eq
tagged = refl

no_open_batch : lookup (codes "x") no_batches.batches ≡ none
unfolding lookup
no_open_batch = refl

flatten-handle_batch_command_example :
    flatten 1000 (handle_batch_command no_batches 5 batch_line).1.heap 0 ≡ none
flatten-handle_batch_command_example =
    flatten-handle_batch_command no_batches 5 batch_line b'x' [] (codes "chathistory" ∷ []) 1000
      refl tagged no_open_batch

abbrev requesting : CapState
requesting = record {
  request_caps = codes "batch" ∷ codes "sasl" ∷ [];
  caps_advertised = [];
  caps_acked = [];
  registered = false;
  caps_chan = [];
  caps_room = 2;
  cap_flags = 0;
}

abbrev answer : CapResult
answer = record { cap_name = codes "batch"; ack = true }

one_request : 1 ≡ length (handle_cap_ls requesting [] (codes "batch echo=a")).0
unfolding handle_cap_ls advertise fields field_parts split_cap_token partition_caps lookup insert
    bytes_eq cut
one_request = refl

handle_cap_ls-wait_for_caps_example :
    (wait_for_caps 2 [] (
      map cap_result
        ((handle_cap_ls requesting [] (codes "batch echo=a")).1.caps_chan ++ answer ∷ []))).0
    ≡ all_answered
handle_cap_ls-wait_for_caps_example =
    handle_cap_ls-wait_for_caps requesting (codes "batch echo=a") (answer ∷ []) refl refl refl
      (one_request)

-- The numerics that `setupCallbacks` uses.
abbrev used_numerics : List Bytes
used_numerics =
    codes "ERR_NICKNAMEINUSE"
    ∷ codes "ERR_UNAVAILRESOURCE"
    ∷ codes "RPL_WELCOME"
    ∷ codes "RPL_ISUPPORT"
    ∷ codes "RPL_ENDOFMOTD"
    ∷ codes "ERR_NOMOTD"
    ∷ []

numerics_looked_up :
    map (λ name. lookup name numerics) used_numerics
    ≡ map some
        (codes "433" ∷ codes "437" ∷ codes "001" ∷ codes "005" ∷ codes "376" ∷ codes "422" ∷ [])
unfolding lookup bytes_eq
numerics_looked_up = refl
