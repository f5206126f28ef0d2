-- ===== src/IrcMsg/Line/Limits.antt =====
-- What a line that `line` returns looks like, truncated or not, and how long it can be.
use irc_go.Prelude.{
  ℕ, ◌+◌, ◌-◌, ◌≤◌, ◌<◌, Bool, true, false, not, ◌&&◌, ◌||◌, ◌==◌, ltb, [], ◌∷◌, ◌++◌, Option, none,
  some, Bytes, length, length-append, length-take, take, contains, ◌≡◌, ap, inl, inr, arith,
  Bool-cases, Option-cases,
}
use irc_go.IrcMsg.Message.{MsgError, body_too_long, Message, returns}
use irc_go.IrcMsg.Utf8.{chop_end}
use irc_go.IrcMsg.Utf8.Truncate.{chop_end-prefix}
use irc_go.IrcMsg.Line.{write_head, write_params, write_source, finish, truncate_line, line}

-- One line of `limit` bytes at most, with its CR LF at the end and nowhere else, and no NUL.
unfoldable pub IsLine : ℕ → Bytes → Type 0
IsLine limit out =
    (body : Bytes) × (out ≡ body ++ b'\r' ∷ b'\n' ∷ [])
    × ((contains 0 body || contains b'\r' body || contains b'\n' body) ≡ false)
    × (length body + 2 ≤ limit)

-- The errors that come with a line.
unfoldable pub has_line : Option MsgError → Bool
has_line none = true
has_line (some body_too_long) = true
has_line (some _) = false

finish-IsLine :
    (buf out : Bytes) (err e : Option MsgError) (limit : ℕ)
    → finish buf err ≡ returns out e
    → has_line e ≡ true
    → length buf + 2 ≤ limit
    → IsLine limit out
unfolding finish has_line IsLine
finish-IsLine buf out err e limit h k l =
    elim (Bool-cases (contains 0 buf || contains b'\r' buf || contains b'\n' buf)) [
      | inl b ↦ absurd (ground arith)
      | inr b ↦ (buf, ground arith, b, l)
    ]

length-chop_end : (n : ℕ) (s t : Bytes) → chop_end (take n s) ≡ some t → length t ≤ n
length-chop_end n s t e =
    let (gone, k, _) = chop_end-prefix (take n s) e in
    let total = ap length k in omega (arith, length-append t gone, length-take n s)

truncate_line-IsLine :
    (buf out : Bytes) (e : Option MsgError) (len_tags truncate_len : ℕ)
    → 0 < truncate_len
    → truncate_line buf len_tags truncate_len ≡ returns out e
    → has_line e ≡ true
    → IsLine (len_tags + truncate_len) out
unfolding truncate_line
truncate_line-IsLine buf out e len_tags truncate_len p h k =
    elim (Bool-cases (not (truncate_len == 0) && ltb truncate_len (length buf - len_tags + 2))) [
      | inr a ↦ finish-IsLine buf out none e (len_tags + truncate_len) (rw a at h) k (ground arith)
      | inl a ↦ elim (Bool-cases (ltb (len_tags + truncate_len) 2)) [
        | inl b ↦ absurd (ground arith)
        | inr b ↦ elim (Option-cases (chop_end (take (len_tags + truncate_len - 2) buf))) [
          | inl n ↦ absurd (ground arith)
          | inr (t, n) ↦
              let l = length-chop_end (len_tags + truncate_len - 2) buf t n in
              finish-IsLine t out (some body_too_long) e (len_tags + truncate_len) (ground arith) k
                (ground arith)
        ]
      ]
    ]

-- With a limit on the tags and one on the rest, what `line` returns without an error, or cut off
-- with the error that the body is too long, is one line whose tags and whose rest keep their limits.
pub line-IsLine :
    (msg : Message) (tag_limit client server truncate_len : ℕ) (out : Bytes) (e : Option MsgError)
    → 0 < tag_limit
    → 0 < truncate_len
    → line msg tag_limit client server truncate_len ≡ returns out e
    → has_line e ≡ true
    → (length (write_head msg).buf ≤ tag_limit)
      × IsLine (length (write_head msg).buf + truncate_len) out
unfolding line has_line
line-IsLine msg tag_limit client server truncate_len out e p q h k =
    elim (Option-cases (write_params msg.force_trailing msg.params)) [
      | inl n ↦ absurd (ground arith)
      | inr (params, n) ↦
          let head = write_head msg in
          let buf = head.buf ++ (write_source msg.source ++ (msg.command ++ params)) in
          let (kept, cut) : (length head.buf ≤ tag_limit)
              × (truncate_line buf (length head.buf) truncate_len ≡ returns out e) =
            ground arith in
          (kept, truncate_line-IsLine buf out e (length head.buf) truncate_len q cut k)
    ]
