-- ===== src/IrcMsg/RoundTrip/ReadBack.antt =====
-- `parseLine` after `line`.
use irc_go.Prelude.{
  ℕ, Bool, true, false, not, ◌&&◌, List, [], ◌∷◌, ◌++◌, append_assoc, append-nil, none, some, ◌≡◌,
  refl, sym, subst, ◌∙◌, ap, arith, Bytes, contains, cut-append, cut-eq-none, trim_suffix, to_upper,
  ◌==◌,
}
use irc_go.IrcMsg.Tags.{is_empty}
use irc_go.IrcMsg.Message.{TagMap, Message, no_message, returns}
use irc_go.IrcMsg.Line.{write_params, write_source, line}
use irc_go.IrcMsg.Parse.{
  trim_initial_spaces, is_ascii, split_command, parse_command, parse_source, parse_body,
  parse_params, parse_tagged, strip_newline, parse_line,
}
use irc_go.IrcMsg.RoundTrip.Params.{write_params-space, parse_params-behind_space}
use irc_go.IrcMsg.RoundTrip.TagText.{
  tags_text, parse_tags-tags_text, tags_text-lacks_space, IsSendable,
}
use irc_go.IrcMsg.RoundTrip.TagMaps.{IsTagMap, update_tags-rebuild}
use irc_go.IrcMsg.RoundTrip.Serialized.{
  body_of, head_text, line-IsSerialized, write_head-buf, write_head-IsSendable,
}

-- The first byte of a command would not be taken for that of the tags or of the source.
abbrev pub starts_plainly : Bytes → Bool
starts_plainly [] = false
starts_plainly (c ∷ _) = not (c == b'@') && not (c == b':')

-- Messages that a line can stand for: the command a word of ASCII in upper case, the source with
-- no space, and the tags in two maps with distinct keys.
pub record IsCanonical (msg : Message) : Type 0 where
  pub upper : to_upper msg.command ≡ msg.command
  pub ascii : is_ascii msg.command ≡ true
  pub word : contains b' ' msg.command ≡ false
  pub plain : starts_plainly msg.command ≡ true
  pub source_word : contains b' ' msg.source ≡ false
  pub regular : IsTagMap false msg.tags
  pub client : IsTagMap true msg.client_only_tags

trim_suffix-concat : (b : ℕ) (s : Bytes) → trim_suffix b (s ++ b ∷ []) ≡ s
unfolding trim_suffix
trim_suffix-concat b [] = ground arith
trim_suffix-concat b (c ∷ []) = ground arith
trim_suffix-concat b (c ∷ d ∷ s) = ap (◌∷◌ c) (trim_suffix-concat b (d ∷ s))

-- CR LF at the end is taken off.
pub strip_newline-crlf : (s : Bytes) → strip_newline (s ++ b'\r' ∷ b'\n' ∷ []) ≡ s
unfolding strip_newline
strip_newline-crlf s =
    rw (sym (append_assoc s (b'\r' ∷ []) (b'\n' ∷ [])), trim_suffix-concat b'\n' (s ++ b'\r' ∷ []))
      (trim_suffix-concat b'\r' s)

trim-plain :
    (c : ℕ) (s t : Bytes)
    → contains b' ' (c ∷ s) ≡ false
    → trim_initial_spaces ((c ∷ s) ++ t) ≡ (c ∷ s) ++ t
unfolding trim_initial_spaces contains
trim-plain c s t h = ground arith

-- The command and the parameters behind it.
split_written :
    (force : Bool) (command : Bytes) (ps : List Bytes) (out : Bytes)
    → contains b' ' command ≡ false
    → write_params force ps ≡ some out
    → (rest : Bytes) × (split_command (command ++ out) ≡ (command, rest)) × (parse_params rest ≡ ps)
unfolding split_command
split_written force command [] out w h =
    let e : [] ≡ out = unfold write_params in cc in
    subst
      (λ o.
        (rest : Bytes) × (split_command (command ++ o) ≡ (command, rest))
        × (parse_params rest ≡ []))
      e
      (
        [],
        rw (append-nil command, cut-eq-none b' ' command w, split_command) (rw append-nil),
        unfold parse_params trim_initial_spaces in refl,
      )
split_written force command (p ∷ ps) out w h =
    let (r, e) = write_params-space force p ps h in
    (
      r,
      rw (e, cut-append b' ' command r w, split_command),
      parse_params-behind_space force (p ∷ ps) r (h ∙ ap some e),
    )

-- The command and its parameters are read into the message.
parse_command-written :
    (msg : Message) (force : Bool) (command : Bytes) (ps : List Bytes) (out : Bytes)
    → to_upper command ≡ command
    → is_ascii command ≡ true
    → contains b' ' command ≡ false
    → is_empty command ≡ false
    → write_params force ps ≡ some out
    → parse_command msg none (command ++ out)
      ≡ returns (record msg { command = command; params = ps }) none
parse_command-written msg force command ps out u a w n h =
    let (rest, s, p) = split_written force command ps out w h in
    unfold parse_command in rw (s, n, a, u, p)

not_colon : (c : ℕ) → (not (c == b'@') && not (c == b':')) ≡ true → (c == b':') ≡ false
not_colon c h = ground arith

trim_colon : (s : Bytes) → trim_initial_spaces (b':' ∷ s) ≡ b':' ∷ s
unfolding trim_initial_spaces
trim_colon s = refl

-- The source, with the text `(c ∷ s) ++ t` behind it that begins with neither a space nor a colon.
parse_source-written :
    (msg : Message) (source : Bytes) (c : ℕ) (s t : Bytes)
    → contains b' ' source ≡ false
    → contains b' ' (c ∷ s) ≡ false
    → starts_plainly (c ∷ s) ≡ true
    → parse_source (record msg { source = [] }) none (write_source source ++ ((c ∷ s) ++ t))
      ≡ parse_command (record msg { source = source }) none ((c ∷ s) ++ t)
unfolding parse_source write_source
parse_source-written msg [] c s t h k p =
    rw (trim-plain c s t k, parse_source) (rw (not_colon c p, trim-plain c s t k))
parse_source-written msg (d ∷ source) c s t h k p =
    rw (trim_colon, parse_source)
      (rw
        (
          append_assoc (d ∷ source) (b' ' ∷ []) ((c ∷ s) ++ t),
          cut-append b' ' (d ∷ source) ((c ∷ s) ++ t) h,
        )
        (rw (trim-plain c s t k)))

abbrev no_tag_start : Bytes → Bool
no_tag_start [] = false
no_tag_start (c ∷ _) = not (c == b'@')

not_at : (c : ℕ) → not (c == b'@') ≡ true → (c == b'@') ≡ false
not_at c h = ground arith

tagged_rest :
    (tags client : TagMap) (t : Bytes × Bytes) (all : TagMap) (rest : Bytes)
    → tags ++ client ≡ t ∷ all
    → IsTagMap false tags
    → IsTagMap true client
    → IsSendable (tags ++ client)
    → parse_tagged 0 0 (head_text (t ∷ all) ++ rest)
      ≡ parse_source (record no_message { tags = tags; client_only_tags = client }) none rest
unfolding parse_tagged parse_body
tagged_rest tags client t all rest e h k s =
    let sendable : IsSendable (t ∷ all) = rw e at s in
    rw (
      append_assoc (tags_text true (t ∷ all)) (b' ' ∷ []) rest,
      cut-append b' ' (tags_text true (t ∷ all)) rest
          (tags_text-lacks_space true (t ∷ all) sendable),
      parse_tagged,
      parse_tags-tags_text no_message (t ∷ all) sendable,
      ← e,
      update_tags-rebuild tags client h k,
    )

-- The tags, with any text behind them that is not taken for tags.
parse_tagged-written :
    (tags client : TagMap) (rest : Bytes)
    → IsTagMap false tags
    → IsTagMap true client
    → IsSendable (tags ++ client)
    → no_tag_start rest ≡ true
    → parse_tagged 0 0 (head_text (tags ++ client) ++ rest)
      ≡ parse_source (record no_message { tags = tags; client_only_tags = client }) none rest
unfolding parse_tagged parse_body
parse_tagged-written [] [] [] h k s p = cc
parse_tagged-written [] [] (c ∷ rest) h k s p = rw (not_at c p, parse_tagged)
parse_tagged-written [] (t ∷ client) rest h k s p =
    tagged_rest [] (t ∷ client) t client rest refl h k s
parse_tagged-written (t ∷ tags) client rest h k s p =
    tagged_rest (t ∷ tags) client t (tags ++ client) rest refl h k s

starts_source :
    (source command t : Bytes)
    → starts_plainly command ≡ true
    → no_tag_start (write_source source ++ (command ++ t)) ≡ true
unfolding write_source
starts_source [] [] t p = cc
starts_source [] (c ∷ s) t p = ground arith
starts_source (d ∷ source) command t p = refl

reads_source :
    (msg : Message) (source command t : Bytes)
    → contains b' ' source ≡ false
    → contains b' ' command ≡ false
    → starts_plainly command ≡ true
    → parse_source (record msg { source = [] }) none (write_source source ++ (command ++ t))
      ≡ parse_command (record msg { source = source }) none (command ++ t)
reads_source msg source [] t h k p = cc
reads_source msg source (c ∷ s) t h k p = parse_source-written msg source c s t h k p

read_body :
    (msg : Message) {params : Bytes}
    → IsCanonical msg
    → is_empty msg.command ≡ false
    → IsSendable (msg.tags ++ msg.client_only_tags)
    → write_params msg.force_trailing msg.params ≡ some params
    → parse_tagged 0 0 (
        head_text (msg.tags ++ msg.client_only_tags)
        ++ (write_source msg.source ++ (msg.command ++ params)))
      ≡ returns (record msg { force_trailing = false }) none
read_body msg {params} m ne sendable w =
    let tagged = record no_message { tags = msg.tags; client_only_tags = msg.client_only_tags } in
    parse_tagged-written msg.tags msg.client_only_tags
      (write_source msg.source ++ (msg.command ++ params)) m.regular m.client sendable
      (starts_source msg.source msg.command params m.plain)
    ∙ reads_source tagged msg.source msg.command params m.source_word m.word m.plain
    ∙ parse_command-written (record tagged { source = msg.source }) msg.force_trailing msg.command
        msg.params params m.upper m.ascii m.word ne w

-- A line that `line` assembles with no error from a canonical message, under any limits, is read
-- back by `parseLine` as that message, except that the request for a trailing parameter is gone.
pub parse_line-line :
    (msg : Message) (tag_limit client_limit server_limit truncate_len : ℕ) {out : Bytes}
    → IsCanonical msg
    → line msg tag_limit client_limit server_limit truncate_len ≡ returns out none
    → parse_line out 0 0 ≡ returns (record msg { force_trailing = false }) none
unfolding parse_line
parse_line-line msg a b c d m h =
    let (params, z) = line-IsSerialized msg a b c d h in
    rw (z.ends, strip_newline-crlf (body_of msg params), z.clean, write_head-buf msg)
      (read_body msg m z.has_command (write_head-IsSendable msg z.no_tag_error) z.written)
