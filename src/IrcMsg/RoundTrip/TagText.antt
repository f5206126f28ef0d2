-- ===== src/IrcMsg/RoundTrip/TagText.antt =====
-- The text of the tags: what `writeTags` writes, and how `parseTags` reads it.
use irc_go.Prelude.{
  ℕ, zero, suc, ◌≤◌, Bool, true, false, [], ◌∷◌, ◌++◌, append_assoc, append-nil, some, inl, inr,
  ◌⊎◌, ◌≡◌, ◌≢◌, refl, ◌∙◌, sym, arith, Bytes, length, length-append, contains, contains-append,
  cut-append, cut-eq-none, if◌then◌else◌,
}
use irc_go.IrcMsg.Tags.{escape_tag_value, validate_tag_name, is_name_char}
use irc_go.IrcMsg.Tags.Unescape.{unescape-escape}
use irc_go.IrcMsg.Utf8.{valid_string}
use irc_go.IrcMsg.Message.{TagMap, Message, set_tag, update_tags}
use irc_go.IrcMsg.Parse.{split_pair, parse_tag, parse_tags_loop, parse_tags}
use irc_go.IrcMsg.Line.{Writer, value_part, write_tag, write_tags}
use irc_go.IrcMsg.RoundTrip.Escaped.{
  IsSeparator, escape-lacks, validate_tag_name-lacks, valid_string-escape,
}

-- Names and values that `line` accepts.
abbrev pub IsSendable : TagMap → Type 0
IsSendable [] = Unit {0}
IsSendable ((tag, val) ∷ tags) =
    (validate_tag_name tag ≡ true) × (valid_string val ≡ true) × IsSendable tags

abbrev pub tag_text : Bytes → Bytes → Bytes
tag_text tag val = tag ++ value_part val

-- The tags joined by `;`; the flag says that nothing stands in front.
abbrev pub tags_text : Bool → TagMap → Bytes
tags_text first [] = []
tags_text first ((tag, val) ∷ tags) =
    (if first then [] else b';' ∷ []) ++ (tag_text tag val ++ tags_text false tags)

pub write_tags-buf :
    (w : Writer) (tags : TagMap) → (write_tags w tags).buf ≡ w.buf ++ tags_text w.first_tag tags
unfolding write_tags
write_tags-buf w [] = sym (append-nil w.buf)
write_tags-buf w ((tag, val) ∷ tags) = write_tags-buf (write_tag w tag val) tags ∙ simp append_assoc

pub write_tags-append :
    (w : Writer) (a b : TagMap) → write_tags (write_tags w a) b ≡ write_tags w (a ++ b)
unfolding write_tags
write_tags-append w [] b = refl
write_tags-append w ((tag, val) ∷ a) b = write_tags-append (write_tag w tag val) a b

error_stays :
    (w : Writer) (tags : TagMap) → (write_tags w tags).tag_error ≡ false → w.tag_error ≡ false
unfolding write_tags write_tag
error_stays w [] h = h
error_stays w ((tag, val) ∷ tags) h = ground (arith, error_stays (write_tag w tag val) tags)

-- No error flag: every tag is acceptable.
pub write_tags-IsSendable :
    (w : Writer) (tags : TagMap) → (write_tags w tags).tag_error ≡ false → IsSendable tags
unfolding write_tags write_tag
write_tags-IsSendable w [] h = tt
write_tags-IsSendable w ((tag, val) ∷ tags) h = ground (
  arith,
  error_stays (write_tag w tag val) tags,
  write_tags-IsSendable (write_tag w tag val) tags h,
)

value_part-lacks : (b : ℕ) (val : Bytes) → IsSeparator b → contains b (value_part val) ≡ false
unfolding value_part
value_part-lacks b [] h = unfold contains in refl
value_part-lacks b (c ∷ val) h = unfold contains in ground (arith, escape-lacks b (c ∷ val) h)

-- A tag is written with no `;` and no space.
pub tag_text-lacks :
    (b : ℕ) (tag val : Bytes)
    → (b ≡ b';') ⊎ (b ≡ b' ')
    → validate_tag_name tag ≡ true
    → contains b (tag_text tag val) ≡ false
tag_text-lacks b tag val h v =
    rw (contains-append b tag (value_part val), value_part-lacks b val (ground arith))
      (ground (
        arith,
        validate_tag_name-lacks b tag (unfold is_name_char in ground arith) (ground arith) v,
      ))

lacks_equals : (tag : Bytes) → validate_tag_name tag ≡ true → contains b'=' tag ≡ false
lacks_equals tag v = validate_tag_name-lacks b'=' tag (unfold is_name_char in refl) refl v

split_pair-tag_text :
    (tag val : Bytes)
    → validate_tag_name tag ≡ true
    → split_pair (tag_text tag val) ≡ (tag, escape_tag_value val)
unfolding split_pair value_part
split_pair-tag_text tag [] v =
    rw (append-nil tag, cut-eq-none b'=' tag (lacks_equals tag v), split_pair)
      (rw (append-nil tag) (unfold escape_tag_value in refl))
split_pair-tag_text tag (c ∷ val) v =
    rw (cut-append b'=' tag (escape_tag_value (c ∷ val)) (lacks_equals tag v), split_pair)

-- One tag is read as it was set.
parse_tag-tag_text :
    (msg : Message) (tag val : Bytes)
    → validate_tag_name tag ≡ true
    → valid_string val ≡ true
    → parse_tag msg (tag_text tag val) ≡ some (set_tag msg tag val)
unfolding parse_tag
parse_tag-tag_text msg tag val v u =
    rw (split_pair-tag_text tag val v, v, valid_string-escape val u, unescape-escape val)

-- The rounds of the loop, for a first tag `c ∷ s`.
loop_last :
    (f : ℕ) (msg : Message) (c : ℕ) (s : Bytes) {msg' : Message}
    → contains b';' (c ∷ s) ≡ false
    → parse_tag msg (c ∷ s) ≡ some msg'
    → parse_tags_loop (suc f) msg (c ∷ s) ≡ (msg', false)
unfolding parse_tags_loop
loop_last f msg c s h e = rw (cut-eq-none b';' (c ∷ s) h, e, parse_tags_loop)

loop_more :
    (f : ℕ) (msg : Message) (c : ℕ) (s rest : Bytes) {msg' : Message}
    → contains b';' (c ∷ s) ≡ false
    → parse_tag msg (c ∷ s) ≡ some msg'
    → parse_tags_loop (suc f) msg ((c ∷ s) ++ b';' ∷ rest) ≡ parse_tags_loop f msg' rest
unfolding parse_tags_loop
loop_more f msg c s rest h e = rw (cut-append b';' (c ∷ s) rest h, e, parse_tags_loop)

loop_empty : (f : ℕ) (msg : Message) → parse_tags_loop f msg [] ≡ (msg, false)
unfolding parse_tags_loop
loop_empty zero msg = refl
loop_empty (suc f) msg = refl

name-ne-nil : validate_tag_name [] ≢ true
unfolding validate_tag_name
name-ne-nil h = cc

loop-tags_text :
    (f : ℕ) (msg : Message) (tags : TagMap)
    → IsSendable tags
    → length (tags_text true tags) ≤ f
    → parse_tags_loop f msg (tags_text true tags) ≡ (update_tags msg tags, false)
unfolding update_tags
loop-tags_text f msg [] s l = loop_empty f msg
loop-tags_text f msg (([], val) ∷ tags) (v, u, s) l = absurd (name-ne-nil v)
loop-tags_text zero msg ((c ∷ tag, val) ∷ tags) s l = elim l [ ]
loop-tags_text (suc f) msg ((c ∷ tag, val) ∷ []) (v, u, s) l = rw (append-nil) (
    loop_last f msg c (tag ++ value_part val) (tag_text-lacks b';' (c ∷ tag) val (inl refl) v)
      (parse_tag-tag_text msg (c ∷ tag) val v u))
loop-tags_text (suc f) msg ((c ∷ tag, val) ∷ (name, w) ∷ tags) (v, u, s) l =
    loop_more f msg c (tag ++ value_part val) (tags_text true ((name, w) ∷ tags))
      (tag_text-lacks b';' (c ∷ tag) val (inl refl) v) (parse_tag-tag_text msg (c ∷ tag) val v u)
    ∙ loop-tags_text f (set_tag msg (c ∷ tag) val) ((name, w) ∷ tags) s (
        omega
          (arith, length-append (tag ++ value_part val) (b';' ∷ tags_text true ((name, w) ∷ tags))))

-- The tags that `line` writes are read in order, with no error.
pub parse_tags-tags_text :
    (msg : Message) (tags : TagMap)
    → IsSendable tags
    → parse_tags msg (tags_text true tags) ≡ (update_tags msg tags, false)
unfolding parse_tags
parse_tags-tags_text msg tags s = loop-tags_text _ msg tags s (omega arith)

pub tags_text-lacks_space :
    (first : Bool) (tags : TagMap) → IsSendable tags → contains b' ' (tags_text first tags) ≡ false
unfolding contains
tags_text-lacks_space first [] s = refl
tags_text-lacks_space true ((tag, val) ∷ tags) (v, u, s) =
    rw
      (
        contains-append b' ' (tag_text tag val) (tags_text false tags),
        tag_text-lacks b' ' tag val (inr refl) v,
      )
      (tags_text-lacks_space false tags s)
tags_text-lacks_space false ((tag, val) ∷ tags) (v, u, s) =
    rw
      (
        contains-append b' ' (tag_text tag val) (tags_text false tags),
        tag_text-lacks b' ' tag val (inr refl) v,
      )
      (tags_text-lacks_space false tags s)
