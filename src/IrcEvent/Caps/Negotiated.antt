-- ===== src/IrcEvent/Caps/Negotiated.antt =====
-- Each requested capability is asked for or turned down, and what the flags then say.
use Prim.Native.Nat.{bit_and}
use irc_go.Prelude.{
  ℕ, zero, suc, ◌+◌, ◌≤◌, Bool, true, false, ◌&&◌, ◌||◌, not, ◌==◌, ltb, List, [], ◌∷◌, ◌++◌,
  append-nil, append_assoc, map, ◌≡◌, refl, sym, ap, ◌∙◌, inl, inr, arith, codes, Bytes, length,
  length-append, string_eq, lookup, if◌then◌else◌, lt→ltb, Option-cases,
}
use irc_go.IrcMsg.Message.{TagMap}
use irc_go.IrcEvent.Caps.{
  CapResult, CapState, slice_contains, fields, send_result, send_results, advertise, partition_caps,
  request, handle_cap_ls, flag_bits, process_acked_caps, batch_negotiated, label_negotiated,
  cap_result, all_answered, wait_for_caps,
}

flag_bits_read :
    (b l t m : Bool)
    → (not (bit_and (flag_bits b l t m) 1 == 0) ≡ b)
      × (not (bit_and (flag_bits b l t m) 4 == 0) ≡ (b && l))
unfolding flag_bits
flag_bits_read true true true true = (refl, refl)
flag_bits_read true true true false = (refl, refl)
flag_bits_read true true false _ = (refl, refl)
flag_bits_read true false true true = (refl, refl)
flag_bits_read true false true false = (refl, refl)
flag_bits_read true false false _ = (refl, refl)
flag_bits_read false _ true _ = (refl, refl)
flag_bits_read false _ false _ = (refl, refl)

-- The flags say that batches are negotiated if `batch` was acknowledged, and labels if both `batch`
-- and `labeled-response` were, whatever the flags said before.
pub process_acked_caps-flags :
    (st : CapState) (acked : List Bytes)
    → let st' = process_acked_caps st acked in
      (batch_negotiated st' ≡ slice_contains (codes "batch") acked)
      × (label_negotiated st' ≡ (
          slice_contains (codes "batch") acked && slice_contains (codes "labeled-response") acked))
unfolding process_acked_caps batch_negotiated label_negotiated
process_acked_caps-flags st acked =
    flag_bits_read (slice_contains (codes "batch") acked)
      (slice_contains (codes "labeled-response") acked)
      (slice_contains (codes "message-tags") acked)
      (slice_contains (codes "draft/multiline") acked || slice_contains (codes "multiline") acked)

partition_all :
    (advertised : TagMap) (caps : List Bytes)
    → length (partition_caps advertised caps).0 + length (partition_caps advertised caps).1
      ≡ length caps
unfolding partition_caps
partition_all advertised [] = omega arith
partition_all advertised (c ∷ caps) = elim (Option-cases (lookup c advertised)) [
  | inl e ↦ rw (e, partition_caps) (ground (arith, partition_all advertised caps))
  | inr (v, e) ↦ rw (e, partition_caps) (ground (arith, partition_all advertised caps))
]

-- The result for a capability that the server does not have.
abbrev no_result : Bytes → CapResult
no_result c = record { cap_name = c; ack = false }

-- A channel with room takes all results, in order.
send_results-chan :
    (st : CapState) (caps : List Bytes)
    → length st.caps_chan + length caps ≤ st.caps_room
    → (send_results st caps).caps_chan ≡ st.caps_chan ++ map no_result caps
unfolding send_results
send_results-chan st [] h = sym (append-nil st.caps_chan)
send_results-chan st (c ∷ caps) h =
    let has_room : ltb (length st.caps_chan) st.caps_room ≡ true =
      lt→ltb (length st.caps_chan) st.caps_room (ground arith) in
    let sent : send_result st c false ≡ record st { caps_chan = st.caps_chan ++ no_result c ∷ [] } =
      unfold send_result in rw has_room in
    ap (λ s. (send_results s caps).caps_chan) sent
    ∙ send_results-chan (record st { caps_chan = st.caps_chan ++ no_result c ∷ [] }) caps
        (rw (length-append st.caps_chan (no_result c ∷ [])) (ground arith))
    ∙ append_assoc st.caps_chan (no_result c ∷ []) (map no_result caps)

length-request : (caps : List Bytes) → length (request caps) ≡ length caps
length-request [] = refl
length-request (c ∷ caps) = ap (λ n. suc n) (length-request caps)

wait_for_caps-answered :
    (n : ℕ) (acked : List Bytes) (results : List CapResult)
    → length results ≡ n
    → (wait_for_caps n acked (map cap_result results)).0 ≡ all_answered
unfolding wait_for_caps
wait_for_caps-answered zero acked results e = refl
wait_for_caps-answered (suc n) acked [] e = absurd (omega arith)
wait_for_caps-answered (suc n) acked (r ∷ results) e =
    wait_for_caps-answered n (if r.ack then acked ++ r.cap_name ∷ [] else acked) results
      (omega arith)

length-map : {A B : Type 0} (f : A → B) (l : List A) → length (map f l) ≡ length l
length-map f [] = refl
length-map f (x ∷ l) = ap (λ n. suc n) (length-map f l)

-- When the last line of a CAP LS is read before the end of registration, with `capsChan` empty and
-- of room for one result per requested capability, then the results that it leaves in the channel
-- and as many answers as it makes the client send requests complete the loop of `negotiateCaps`.
pub handle_cap_ls-wait_for_caps :
    (st : CapState) (last : Bytes) (answers : List CapResult)
    → st.registered ≡ false
    → st.caps_chan ≡ []
    → st.caps_room ≡ length st.request_caps
    → length answers ≡ length (handle_cap_ls st [] last).0
    → (wait_for_caps
        (length st.request_caps)
        []
        (map cap_result ((handle_cap_ls st [] last).1.caps_chan ++ answers))).0
      ≡ all_answered
unfolding handle_cap_ls
handle_cap_ls-wait_for_caps st last answers reg empty room len =
    let none_yet : length st.caps_chan ≡ 0 = ap length empty in
    let st1 : CapState = record st {
      caps_advertised = advertise st.caps_advertised (fields last);
    } in
    let parts = partition_caps st1.caps_advertised st.request_caps in
    let total = partition_all st1.caps_advertised st.request_caps in
    let out : handle_cap_ls st [] last ≡ (request parts.0, send_results st1 parts.1) = rw reg in
    let chan_len : length (handle_cap_ls st [] last).1.caps_chan ≡ length parts.1 =
      ap (λ o. length o.1.caps_chan) out
      ∙ ap length (send_results-chan st1 parts.1 (omega arith))
      ∙ length-append st.caps_chan (map no_result parts.1)
      ∙ (let m = length-map no_result parts.1 in omega arith) in
    let sent_len : length (handle_cap_ls st [] last).0 ≡ length parts.0 =
      ap (λ o. length o.0) out ∙ length-request parts.0 in
    wait_for_caps-answered (length st.request_caps) []
      ((handle_cap_ls st [] last).1.caps_chan ++ answers)
      (length-append (handle_cap_ls st [] last).1.caps_chan answers ∙ omega arith)
