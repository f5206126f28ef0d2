-- ===== src/IrcMsg/RoundTrip/Serialized.antt =====
-- What `line` returns when it reports no error.
use irc_go.Prelude.{
  ℕ, ◌+◌, ◌-◌, true, false, [], ◌∷◌, ◌++◌, Option, none, some, ◌≡◌, refl, arith, Bytes, length,
  take, Option-cases, inl, inr,
}
use irc_go.IrcMsg.Tags.{is_empty}
use irc_go.IrcMsg.Utf8.{chop_end}
use irc_go.IrcMsg.Message.{MsgError, body_too_long, TagMap, Message, returns}
use irc_go.IrcMsg.Line.{
  Writer, tags_start, write_tags, write_head, write_params, write_source, finish, truncate_line,
  line,
}
use irc_go.IrcMsg.Parse.{has_forbidden}
use irc_go.IrcMsg.RoundTrip.TagText.{
  IsSendable, tags_text, write_tags-buf, write_tags-append, write_tags-IsSendable,
}

abbrev pub body_of : Message → Bytes → Bytes
body_of msg params = (write_head msg).buf ++ (write_source msg.source ++ (msg.command ++ params))

-- What is known of a line that was assembled with no error.
pub record IsSerialized (msg : Message) (out params : Bytes) : Type 0 where
  pub has_command : is_empty msg.command ≡ false
  pub no_tag_error : (write_head msg).tag_error ≡ false
  pub written : write_params msg.force_trailing msg.params ≡ some params
  pub ends : out ≡ body_of msg params ++ b'\r' ∷ b'\n' ∷ []
  pub clean : has_forbidden (body_of msg params) ≡ false

finish-none :
    (buf : Bytes) {err : Option MsgError} {out : Bytes}
    → finish buf err ≡ returns out none
    → (err ≡ none) × (out ≡ buf ++ b'\r' ∷ b'\n' ∷ []) × (has_forbidden buf ≡ false)
unfolding finish
finish-none buf h = ground arith

truncate_line-none :
    (buf : Bytes) (len_tags truncate_len : ℕ) {out : Bytes}
    → truncate_line buf len_tags truncate_len ≡ returns out none
    → (out ≡ buf ++ b'\r' ∷ b'\n' ∷ []) × (has_forbidden buf ≡ false)
unfolding truncate_line
truncate_line-none buf len_tags truncate_len {out} h =
    elim (Option-cases (chop_end (take (len_tags + truncate_len - 2) buf))) [
      | inl e ↦ ground (arith, finish-none buf {err = none} {out = out})
      | inr (cut, e) ↦ ground (
        arith,
        finish-none buf {err = none} {out = out},
        finish-none cut {err = some body_too_long} {out = out},
      )
    ]

pub line-IsSerialized :
    (msg : Message) (a b c d : ℕ) {out : Bytes}
    → line msg a b c d ≡ returns out none
    → (params : Bytes) × IsSerialized msg out params
unfolding line
line-IsSerialized msg a b c d {out} h =
    elim (Option-cases (write_params msg.force_trailing msg.params)) [
      | inl e ↦ absurd (ground arith)
      | inr (params, e) ↦ (
        params,
        ground (
          arith,
          truncate_line-none (body_of msg params) (length (write_head msg).buf) d {out = out},
        ),
      )
    ]

-- The tags, with `@` in front and a space behind, or nothing.
abbrev pub head_text : TagMap → Bytes
head_text [] = []
head_text (t ∷ tags) = b'@' ∷ (tags_text true (t ∷ tags) ++ b' ' ∷ [])

all_written : (tags client : TagMap) → Writer
all_written tags client = write_tags (write_tags tags_start tags) client

all_written-buf :
    (tags client : TagMap) → (all_written tags client).buf ≡ b'@' ∷ tags_text true (tags ++ client)
unfolding all_written
all_written-buf tags client =
    rw (write_tags-append tags_start tags client) (write_tags-buf tags_start (tags ++ client))

all_written-IsSendable :
    (tags client : TagMap)
    → (all_written tags client).tag_error ≡ false
    → IsSendable (tags ++ client)
unfolding all_written
all_written-IsSendable tags client h =
    write_tags-IsSendable tags_start (tags ++ client) (rw write_tags-append at h)

head_in :
    (msg : Message) (tags client : TagMap)
    → (write_head (record msg { tags = tags; client_only_tags = client })).buf
      ≡ head_text (tags ++ client)
unfolding write_head all_written
head_in msg [] [] = refl
head_in msg [] (t ∷ client) = rw (all_written-buf [] (t ∷ client))
head_in msg (t ∷ tags) client = rw (all_written-buf (t ∷ tags) client)

pub write_head-buf :
    (msg : Message) → (write_head msg).buf ≡ head_text (msg.tags ++ msg.client_only_tags)
write_head-buf msg = head_in msg msg.tags msg.client_only_tags

head_in-IsSendable :
    (msg : Message) (tags client : TagMap)
    → (write_head (record msg { tags = tags; client_only_tags = client })).tag_error ≡ false
    → IsSendable (tags ++ client)
unfolding write_head all_written
head_in-IsSendable msg [] [] h = tt
head_in-IsSendable msg [] (t ∷ client) h = all_written-IsSendable [] (t ∷ client) h
head_in-IsSendable msg (t ∷ tags) client h = all_written-IsSendable (t ∷ tags) client h

pub write_head-IsSendable :
    (msg : Message)
    → (write_head msg).tag_error ≡ false
    → IsSendable (msg.tags ++ msg.client_only_tags)
write_head-IsSendable msg = head_in-IsSendable msg msg.tags msg.client_only_tags
