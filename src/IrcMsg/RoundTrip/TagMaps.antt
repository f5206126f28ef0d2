-- ===== src/IrcMsg/RoundTrip/TagMaps.antt =====
-- The tag maps of a message: distinct keys, client-only ones behind `+`.
use irc_go.Prelude.{
  Bool, true, false, [], ◌∷◌, ◌++◌, append_assoc, append-nil, none, ◌≡◌, refl, ◌∙◌, arith, Bytes,
  string_eq, lookup, insert_new, bytes_eq, bytes_eq_iff, ◌==◌,
}
use irc_go.IrcMsg.Message.{TagMap, Message, no_message, set_tag, update_tags}

abbrev pub is_client_only : Bytes → Bool
is_client_only [] = false
is_client_only (c ∷ _) = c == b'+'

-- A map as Go keeps it: no key twice, no empty key, and every key on its side.
abbrev pub IsTagMap : Bool → TagMap → Type 0
IsTagMap client [] = Unit {0}
IsTagMap client ((tag, val) ∷ tags) =
    (is_client_only tag ≡ client)
    × (bytes_eq tag [] ≡ false)
    × (lookup tag tags ≡ none)
    × IsTagMap client tags

-- No key of the second map is in the first.
abbrev AreApart : TagMap → TagMap → Type 0
AreApart m [] = Unit {0}
AreApart m ((tag, _) ∷ tags) = (lookup tag m ≡ none) × AreApart m tags

AreApart-nil : (tags : TagMap) → AreApart [] tags
unfolding lookup
AreApart-nil [] = tt
AreApart-nil (t ∷ tags) = (refl, AreApart-nil tags)

lookup-concat :
    (j k v : Bytes) (m : TagMap)
    → lookup j m ≡ none
    → bytes_eq k j ≡ false
    → lookup j (m ++ (k, v) ∷ []) ≡ none
unfolding lookup
lookup-concat j k v [] h e = ground arith
lookup-concat j k v ((i, w) ∷ m) h e = ground (arith, lookup-concat j k v m)

AreApart-concat :
    (k v : Bytes) (m tags : TagMap)
    → AreApart m tags
    → lookup k tags ≡ none
    → AreApart (m ++ (k, v) ∷ []) tags
unfolding lookup
AreApart-concat k v m [] h n = tt
AreApart-concat k v m ((j, w) ∷ tags) (h, hs) n = (
  lookup-concat j k v m h (ground (arith, bytes_eq_iff k j, bytes_eq_iff j k)),
  AreApart-concat k v m tags hs (ground arith),
)

set_tag-regular :
    (msg : Message) (pre : TagMap) (tag val : Bytes)
    → is_client_only tag ≡ false
    → bytes_eq tag [] ≡ false
    → lookup tag pre ≡ none
    → set_tag (record msg { tags = pre }) tag val ≡ record msg { tags = pre ++ (tag, val) ∷ [] }
unfolding set_tag bytes_eq
set_tag-regular msg pre [] val c e n = cc
set_tag-regular msg pre (t ∷ tag) val c e n = rw (c, insert_new (t ∷ tag) val pre n)

set_tag-client :
    (msg : Message) (pre : TagMap) (tag val : Bytes)
    → is_client_only tag ≡ true
    → bytes_eq tag [] ≡ false
    → lookup tag pre ≡ none
    → set_tag (record msg { client_only_tags = pre }) tag val
      ≡ record msg { client_only_tags = pre ++ (tag, val) ∷ [] }
unfolding set_tag bytes_eq
set_tag-client msg pre [] val c e n = cc
set_tag-client msg pre (t ∷ tag) val c e n = rw (c, insert_new (t ∷ tag) val pre n)

update_tags-regular :
    (msg : Message) (pre tags : TagMap)
    → IsTagMap false tags
    → AreApart pre tags
    → update_tags (record msg { tags = pre }) tags ≡ record msg { tags = pre ++ tags }
unfolding update_tags
update_tags-regular msg pre [] h a = rw append-nil
update_tags-regular msg pre ((tag, val) ∷ tags) (c, e, n, h) (new, a) =
    rw (set_tag-regular msg pre tag val c e new) (
      update_tags-regular msg (pre ++ (tag, val) ∷ []) tags h (AreApart-concat tag val pre tags a n)
      ∙ rw append_assoc)

update_tags-client :
    (msg : Message) (pre tags : TagMap)
    → IsTagMap true tags
    → AreApart pre tags
    → update_tags (record msg { client_only_tags = pre }) tags
      ≡ record msg { client_only_tags = pre ++ tags }
unfolding update_tags
update_tags-client msg pre [] h a = rw append-nil
update_tags-client msg pre ((tag, val) ∷ tags) (c, e, n, h) (new, a) =
    rw (set_tag-client msg pre tag val c e new) (
      update_tags-client msg (pre ++ (tag, val) ∷ []) tags h (AreApart-concat tag val pre tags a n)
      ∙ rw append_assoc)

update_tags-append :
    (msg : Message) (a b : TagMap) → update_tags msg (a ++ b) ≡ update_tags (update_tags msg a) b
unfolding update_tags
update_tags-append msg [] b = refl
update_tags-append msg ((tag, val) ∷ a) b = update_tags-append (set_tag msg tag val) a b

-- Setting all tags of a message, regular ones first, rebuilds its two maps.
pub update_tags-rebuild :
    (tags client : TagMap)
    → IsTagMap false tags
    → IsTagMap true client
    → update_tags no_message (tags ++ client)
      ≡ record no_message { tags = tags; client_only_tags = client }
update_tags-rebuild tags client h k =
    update_tags-append no_message tags client
    ∙ rw (update_tags-regular no_message [] tags h (AreApart-nil tags))
        (update_tags-client (record no_message { tags = tags }) [] client k (AreApart-nil client))
