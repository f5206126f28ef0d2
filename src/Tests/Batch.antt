-- ===== src/Tests/Batch.antt =====
-- Package ircevent: the handling of a batch that a server has sent.
use irc_go.Prelude.{
  ℕ, suc, ◌+◌, true, false, List, [], ◌∷◌, none, some, refl, ◌≡◌, arith, codes, length, bytes_eq,
  lookup, string_eq,
}
use irc_go.IrcMsg.Message.{Message, no_message, get_tag}
use irc_go.IrcEvent.Labels.{Labels, register_label, serialize_label, format_loop, digit}
use irc_go.IrcEvent.Batches.{Batches, call_label, run_callbacks, flatten, handle_batch_with}
use irc_go.IrcEvent.Batches.Between.{AreBy, IsBetween, no_more, in_batch, outside, run_all}
use irc_go.IrcEvent.Batches.Collect.{IsMark, run_callbacks-collects}
use irc_go.IrcEvent.Batches.Invariant.{NotSelfNested}
use irc_go.IrcEvent.Batches.Reachable.{at_start, after_message, handle_batch_with_total}

abbrev chathistory : Message
chathistory = record no_message {
  command = codes "BATCH";
  params = codes "+x" ∷ codes "chathistory" ∷ [];
}

abbrev no_labels : Labels ℕ
no_labels = record { label_callbacks = []; label_counter = 0 }

abbrev started : Batches ℕ
started =
    (run_callbacks (record { heap = []; batches = []; labels = no_labels }) 5 true false
      chathistory).1

chathistory-NotSelfNested : NotSelfNested chathistory
unfolding NotSelfNested get_tag lookup bytes_eq
chathistory-NotSelfNested id ps e k = ground arith

handle_batch_with_total_example :
    (msgs : List Message) × (handle_batch_with
        ((0, (λ _. false)) ∷ [])
        (suc (length started.heap))
        started.heap
        (some 0)
      ≡ some msgs)
handle_batch_with_total_example =
    handle_batch_with_total started ((0, (λ _. false)) ∷ []) (some 0)
      (after_message 5 true false chathistory chathistory-NotSelfNested (at_start no_labels))

abbrev nothing_open : Batches ℕ
nothing_open = record { heap = []; batches = []; labels = no_labels }

abbrev labeled_start : Message
labeled_start = record no_message {
  command = codes "BATCH";
  params = codes "+x" ∷ codes "labeled-response" ∷ [];
  tags = (codes "label", codes "1") ∷ [];
}

abbrev labeled_end : Message
labeled_end = record no_message { command = codes "BATCH"; params = codes "-x" ∷ [] }

abbrev in_x : Message
in_x = record no_message {
  command = codes "NOTICE";
  params = codes "dan" ∷ codes "first" ∷ [];
  tags = (codes "batch", codes "x") ∷ [];
}

abbrev not_in_x : Message
not_in_x = record no_message { command = codes "PING"; params = codes "now" ∷ [] }

abbrev also_in_x : Message
also_in_x = record in_x { params = codes "dan" ∷ codes "second" ∷ [] }

abbrev arrived : List (ℕ × Message)
arrived = (6, in_x) ∷ (7, not_in_x) ∷ (8, also_in_x) ∷ []

arrived-IsBetween : IsBetween (codes "x") arrived (in_x ∷ also_in_x ∷ [])
unfolding bytes_eq get_tag lookup
arrived-IsBetween =
    in_batch 6 in_x refl refl
      (outside 7 not_in_x refl refl refl (in_batch 8 also_in_x refl refl no_more))

start-IsMark : IsMark b'+' (codes "x") labeled_start
unfolding bytes_eq get_tag lookup
start-IsMark = record {
  is_batch = refl;
  not_nested = refl;
  rest = codes "labeled-response" ∷ [];
  marked = refl;
}

end-IsMark : IsMark b'-' (codes "x") labeled_end
unfolding bytes_eq get_tag lookup
end-IsMark = record { is_batch = refl; not_nested = refl; rest = []; marked = refl }

start_labeled : get_tag labeled_start (codes "label") ≡ some (register_label no_labels 5 17).0
unfolding get_tag lookup bytes_eq register_label serialize_label format_loop digit
start_labeled = refl

x_unused : lookup (codes "x") nothing_open.batches ≡ none
unfolding lookup
x_unused = refl

arrived_by : AreBy (5 + 240) ((5, labeled_start) ∷ arrived)
unfolding AreBy
arrived_by = (omega arith, (omega arith, (omega arith, (omega arith, tt))))

run_callbacks-collects_example :
    let st1 = record nothing_open { labels = (register_label no_labels 5 17).1 } in
    let out =
      run_callbacks
        (run_all 2 240 1 st1 true ((5, labeled_start) ∷ arrived))
        9
        true
        true
        labeled_end in
    (out.0 ≡ call_label 17 0) × (flatten 2 out.1.heap 0 ≡ some (in_x ∷ also_in_x ∷ []))
run_callbacks-collects_example =
    run_callbacks-collects 2 240 1 nothing_open 5 5 9 b'x' true 17 [] labeled_start labeled_end
      arrived (in_x ∷ also_in_x ∷ []) (omega arith) (omega arith) arrived_by start-IsMark
      start_labeled x_unused arrived-IsBetween end-IsMark
