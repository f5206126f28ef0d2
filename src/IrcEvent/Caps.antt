-- ===== src/IrcEvent/Caps.antt =====
-- ircevent: the negotiation of capabilities. `handleCAP` and its helpers in irc_callback.go,
-- `negotiateCaps` in irc.go, `processAckedCaps` and the tests of its flags in irc_struct.go. What is
-- sent to the server is returned, a command with its parameters as one list.
pub mod Negotiated
use Prim.Native.Nat.{bit_and, bit_or}
use irc_go.Prelude.{
  ℕ, zero, suc, ◌+◌, ◌≤◌, ◌<◌, Bool, true, false, ◌&&◌, ◌||◌, not, ◌==◌, ltb, within, List, [], ◌∷◌,
  ◌++◌, Option, none, some, codes, Bytes, bytes_eq, cut, length, string_eq, lookup, insert,
  if◌then◌else◌,
}
use irc_go.IrcMsg.Message.{Message, TagMap}

pub record CapResult : Type 0 where
  pub cap_name : Bytes
  pub ack : Bool

-- The fields of `Connection` for capabilities. `caps_room` is the capacity of `capsChan`.
pub record CapState : Type 0 where
  pub request_caps : List Bytes
  pub caps_advertised : TagMap
  pub caps_acked : TagMap
  pub registered : Bool
  pub caps_chan : List CapResult
  pub caps_room : ℕ
  pub cap_flags : ℕ

unfoldable pub slice_contains : Bytes → List Bytes → Bool
slice_contains str [] = false
slice_contains str (x ∷ list) = bytes_eq x str || slice_contains str list

unfoldable pub split_cap_token : Bytes → Bytes × Bytes
split_cap_token token = elim (cut b'=' token) [ none ↦ (token, []) | some (p, r) ↦ (p, r) ]

abbrev push_field : Bytes → List Bytes → List Bytes
push_field [] l = l
push_field (c ∷ s) l = (c ∷ s) ∷ l

-- `strings.Fields` on ASCII white space: the field that the text begins in, and the others.
unfoldable pub field_parts : Bytes → Bytes × List Bytes
field_parts [] = ([], [])
field_parts (c ∷ s) =
    let rest = field_parts s in
    if within 9 13 c || c == b' ' then ([], push_field rest.0 rest.1) else (c ∷ rest.0, rest.1)

unfoldable pub fields : Bytes → List Bytes
fields s = push_field (field_parts s).0 (field_parts s).1

-- The send that gives up where the channel is full.
unfoldable pub send_result : CapState → Bytes → Bool → CapState
send_result st name ack =
    if ltb (length st.caps_chan) st.caps_room
    then record st { caps_chan = st.caps_chan ++ record { cap_name = name; ack = ack } ∷ [] }
    else st

unfoldable pub send_results : CapState → List Bytes → CapState
send_results st [] = st
send_results st (c ∷ caps) = send_results (send_result st c false) caps

-- The loop over the tokens of ACK and NAK.
unfoldable pub answer_tokens : CapState → Bool → List Bytes → CapState
answer_tokens st ack [] = st
answer_tokens st ack (token ∷ tokens) =
    let name = (split_cap_token token).0 in
    answer_tokens (if slice_contains name st.request_caps then send_result st name ack else st) ack
      tokens

-- The loop over the tokens of LS.
unfoldable pub advertise : TagMap → List Bytes → TagMap
advertise caps [] = caps
advertise caps (token ∷ tokens) =
    let (name, value) = split_cap_token token in advertise (insert name value caps) tokens

-- The requested capabilities that are advertised, and the others.
unfoldable pub partition_caps : TagMap → List Bytes → List Bytes × List Bytes
partition_caps advertised [] = ([], [])
partition_caps advertised (c ∷ caps) =
    let rest = partition_caps advertised caps in
    elim (lookup c advertised) [ some _ ↦ (c ∷ rest.0, rest.1) | none ↦ (rest.0, c ∷ rest.1) ]

abbrev pub request : List Bytes → List (List Bytes)
request [] = []
request (c ∷ caps) = (codes "CAP" ∷ codes "REQ" ∷ c ∷ []) ∷ request caps

-- `handleCAPLS`, on the parameters behind the first, the last of them apart.
unfoldable pub handle_cap_ls : CapState → List Bytes → Bytes → List (List Bytes) × CapState
handle_cap_ls st front last =
    if st.registered
    then ([], st)
    else let st1 = record st { caps_advertised = advertise st.caps_advertised (fields last) } in
      elim front [
        | _ ∷ _ ↦ ([], st1)
        | [] ↦
            let parts = partition_caps st1.caps_advertised st.request_caps in
            (request parts.0, send_results st1 parts.1)
      ]

-- A list that is not empty, its last element apart.
abbrev pub split_last : Bytes → List Bytes → List Bytes × Bytes
split_last p [] = ([], p)
split_last p (q ∷ ps) = let rest = split_last q ps in (p ∷ rest.0, rest.1)

abbrev pub cap_command : CapState → Bytes → Bytes → List Bytes → List (List Bytes) × CapState
cap_command st subcommand p ps =
    if bytes_eq subcommand (codes "LS")
    then handle_cap_ls st (split_last p ps).0 (split_last p ps).1
    else if bytes_eq subcommand (codes "ACK")
    then ([], answer_tokens st true (fields p))
    else if bytes_eq subcommand (codes "NAK")
    then ([], answer_tokens st false (fields p))
    else ([], st)

unfoldable pub handle_cap : CapState → Message → List (List Bytes) × CapState
handle_cap st msg = elim msg.params [
  | [] ↦ ([], st)
  | _ ∷ rest ↦ elim rest [
    | [] ↦ ([], st)
    | subcommand ∷ params ↦ elim params [ [] ↦ ([], st) | p ∷ ps ↦ cap_command st subcommand p ps ]
  ]
]

-- The bits of `capFlags`.
abbrev pub cap_flag_batch : ℕ
cap_flag_batch = 1

abbrev pub cap_flag_message_tags : ℕ
cap_flag_message_tags = 2

abbrev pub cap_flag_labeled_response : ℕ
cap_flag_labeled_response = 4

abbrev pub cap_flag_multiline : ℕ
cap_flag_multiline = 8

unfoldable pub flag_bits : Bool → Bool → Bool → Bool → ℕ
flag_bits has_batch has_label has_tags has_multiline =
    let f1 = if has_batch then bit_or 0 cap_flag_batch else 0 in
    let f2 = if has_batch && has_label then bit_or f1 cap_flag_labeled_response else f1 in
    let f3 = if has_tags then bit_or f2 cap_flag_message_tags else f2 in
    if has_tags && has_batch && has_multiline then bit_or f3 cap_flag_multiline else f3

unfoldable pub record_acked : TagMap → TagMap → List Bytes → TagMap
record_acked acked advertised [] = acked
record_acked acked advertised (c ∷ caps) =
    record_acked (insert c (elim (lookup c advertised) [ none ↦ [] | some v ↦ v ]) acked) advertised
      caps

unfoldable pub process_acked_caps : CapState → List Bytes → CapState
process_acked_caps st acknowledged = record st {
  caps_acked = record_acked st.caps_acked st.caps_advertised acknowledged;
  cap_flags =
      flag_bits (slice_contains (codes "batch") acknowledged)
        (slice_contains (codes "labeled-response") acknowledged)
        (slice_contains (codes "message-tags") acknowledged)
        (slice_contains (codes "draft/multiline") acknowledged
          || slice_contains (codes "multiline") acknowledged);
}

unfoldable pub batch_negotiated : CapState → Bool
batch_negotiated st = not (bit_and st.cap_flags cap_flag_batch == 0)

unfoldable pub label_negotiated : CapState → Bool
label_negotiated st = not (bit_and st.cap_flags cap_flag_labeled_response == 0)

-- What `negotiateCaps` waits for.
pub data CapEvent : Type 0 where
  cap_result : CapResult → CapEvent
  cap_timeout cap_end : CapEvent

pub data Waited : Type 0 where
  all_answered timed_out disconnected out_of_events : Waited

-- The loop of `negotiateCaps` on the events in their order: how it ended, and the capabilities
-- that were acknowledged by then.
unfoldable pub wait_for_caps : ℕ → List Bytes → List CapEvent → Waited × List Bytes
wait_for_caps zero acked events = (all_answered, acked)
wait_for_caps (suc n) acked [] = (out_of_events, acked)
wait_for_caps (suc n) acked (cap_result r ∷ events) =
    wait_for_caps n (if r.ack then acked ++ r.cap_name ∷ [] else acked) events
wait_for_caps (suc n) acked (cap_timeout ∷ events) = (timed_out, acked)
wait_for_caps (suc n) acked (cap_end ∷ events) = (disconnected, acked)
