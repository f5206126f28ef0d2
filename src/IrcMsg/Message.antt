-- ===== src/IrcMsg/Message.antt =====
-- ircmsg/message.go: the message, its tag operations and its errors.
use irc_go.Prelude.{
  Bool, true, false, ◌==◌, List, [], ◌∷◌, Option, none, some, Bytes, string_eq, lookup, insert,
  delete, if◌then◌else◌,
}

pub data MsgError : Type 0 where
  line_is_empty line_contains_bad_char body_too_long tags_too_long : MsgError
  invalid_tag_content command_missing bad_param : MsgError

abbrev pub TagMap : Type 0
TagMap = List (Bytes × Bytes)

-- A nil map and an empty one are not told apart.
pub record Message : Type 0 where
  pub source : Bytes
  pub command : Bytes
  pub params : List Bytes
  pub force_trailing : Bool
  pub tags : TagMap
  pub client_only_tags : TagMap

-- The zero value.
abbrev pub no_message : Message
no_message = record {
  source = [];
  command = [];
  params = [];
  force_trailing = false;
  tags = [];
  client_only_tags = [];
}

-- What a function with an error result does: it returns a value with an error or nil, or panics.
pub data Outcome {ℓ} (A : Type ℓ) : Type ℓ where
  returns : A → Option MsgError → Outcome A
  panics : Outcome A

unfoldable pub set_force_trailing : Message → Message
set_force_trailing msg = record msg { force_trailing = true }

-- `none` is the result (false, "").
unfoldable pub get_tag : Message → Bytes → Option Bytes
get_tag msg [] = none
get_tag msg (c ∷ name) =
    if c == b'+' then lookup (c ∷ name) msg.client_only_tags else lookup (c ∷ name) msg.tags

abbrev is_some {ℓ} : {A : Type ℓ} → Option A → Bool
is_some none = false
is_some (some _) = true

unfoldable pub has_tag : Message → Bytes → Bool
unfolding get_tag
has_tag msg name = is_some (get_tag msg name)

unfoldable pub set_tag : Message → Bytes → Bytes → Message
set_tag msg [] value = msg
set_tag msg (c ∷ name) value =
    if c == b'+'
    then record msg { client_only_tags = insert (c ∷ name) value msg.client_only_tags }
    else record msg { tags = insert (c ∷ name) value msg.tags }

unfoldable pub delete_tag : Message → Bytes → Message
delete_tag msg [] = msg
delete_tag msg (c ∷ name) =
    if c == b'+'
    then record msg { client_only_tags = delete (c ∷ name) msg.client_only_tags }
    else record msg { tags = delete (c ∷ name) msg.tags }

unfoldable pub update_tags : Message → TagMap → Message
unfolding set_tag
update_tags msg [] = msg
update_tags msg ((name, value) ∷ tags) = update_tags (set_tag msg name value) tags

add_all : TagMap → TagMap → TagMap
add_all result [] = result
add_all result ((name, value) ∷ m) = add_all (insert name value result) m

unfoldable pub all_tags : Message → TagMap
unfolding add_all
all_tags msg = add_all (add_all [] msg.tags) msg.client_only_tags

unfoldable pub make_message : TagMap → Bytes → Bytes → List Bytes → Message
unfolding update_tags
make_message tags source command params =
    update_tags (record no_message { source = source; command = command; params = params }) tags
