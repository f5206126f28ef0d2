-- ===== src/IrcMsg/Userhost.antt =====
-- ircmsg/userhost.go: sources of the form name!user@host, and the accessors of a message's source
-- in ircmsg/message.go and ircevent/irc_struct.go.
use irc_go.Prelude.{
  ℕ, false, [], ◌∷◌, ◌++◌, append-nil, Option, none, some, inl, inr, ◌≡◌, ◌≢◌, refl, subst, arith,
  Bytes, contains, contains-append, cut, cut-append, cut-eq-none, cut-eq-some, contains-of-cut,
  ◌==◌, Option-cases,
}
use irc_go.IrcMsg.Message.{Message}

pub record Nuh : Type 0 where
  pub name : Bytes
  pub user : Bytes
  pub host : Bytes

-- The part in front of the first `b`, and the one behind it if there is one.
unfoldable pub split_at_byte : ℕ → Bytes → Bytes × Bytes
split_at_byte b s = elim (cut b s) [ none ↦ (s, []) | some (p, r) ↦ (p, r) ]

-- `none` is MalformedNUH.
unfoldable pub parse_nuh : Bytes → Option Nuh
unfolding split_at_byte
parse_nuh [] = none
parse_nuh (c ∷ s) =
    let (left, host) = split_at_byte b'@' (c ∷ s) in
    let (name, user) = split_at_byte b'!' left in
    some (record { name = name; user = user; host = host })

unfoldable pub with_mark : ℕ → Bytes → Bytes
with_mark b [] = []
with_mark b (c ∷ s) = b ∷ (c ∷ s)

unfoldable pub canonical : Nuh → Bytes
unfolding with_mark
canonical n = (n.name ++ with_mark b'!' n.user) ++ with_mark b'@' n.host

-- `(*Message).Nick`, which is `ExtractNick` of the source.
unfoldable pub nick : Message → Bytes
unfolding parse_nuh
nick msg = elim (parse_nuh msg.source) [ none ↦ [] | some n ↦ n.name ]

-- Sources that print without ambiguity: no mark in the name, and no `@` in the user.
pub record IsPlain (n : Nuh) : Type 0 where
  pub name_at : contains b'@' n.name ≡ false
  pub name_bang : contains b'!' n.name ≡ false
  pub user_at : contains b'@' n.user ≡ false

split-with_mark :
    (b : ℕ) (p r : Bytes) → contains b p ≡ false → split_at_byte b (p ++ with_mark b r) ≡ (p, r)
unfolding split_at_byte with_mark
split-with_mark b p [] h = rw (append-nil p, cut-eq-none b p h, split_at_byte) (rw append-nil)
split-with_mark b p (c ∷ r) h = rw (cut-append b p (c ∷ r) h, split_at_byte)

with_mark-lacks :
    (a b : ℕ) (s : Bytes)
    → (b == a) ≡ false
    → contains a s ≡ false
    → contains a (with_mark b s) ≡ false
unfolding with_mark contains
with_mark-lacks a b [] h k = refl
with_mark-lacks a b (c ∷ s) h k = ground arith

parse_nuh-cons :
    (s left host name user : Bytes)
    → s ≢ []
    → split_at_byte b'@' s ≡ (left, host)
    → split_at_byte b'!' left ≡ (name, user)
    → parse_nuh s ≡ some (record { name = name; user = user; host = host })
parse_nuh-cons [] left host name user h p q = absurd (h refl)
parse_nuh-cons (c ∷ s) left host name user h p q = unfold parse_nuh in rw (p, q)

-- A source that is not empty is read back from its canonical form, if its name has no mark and its
-- user no `@`.
pub parse_nuh-canonical :
    (n : Nuh) → IsPlain n → canonical n ≢ [] → parse_nuh (canonical n) ≡ some n
parse_nuh-canonical n h ne =
    parse_nuh-cons (canonical n) (n.name ++ with_mark b'!' n.user) n.host n.name n.user ne
      (unfold canonical in
        split-with_mark b'@' (n.name ++ with_mark b'!' n.user) n.host (
          rw (contains-append b'@' n.name (with_mark b'!' n.user), h.name_at)
            (with_mark-lacks b'@' b'!' n.user refl h.user_at)))
      (split-with_mark b'!' n.name n.user h.name_bang)

split-lacks : (b : ℕ) (s : Bytes) → contains b (split_at_byte b s).0 ≡ false
unfolding split_at_byte
split-lacks b s = elim (Option-cases (cut b s)) [
  | inl n ↦ rw (n, split_at_byte) (contains-of-cut b s n)
  | inr ((q, t), f) ↦ rw (f, split_at_byte) (cut-eq-some b s f).1
]

behind :
    (a b : ℕ) (q t : Bytes)
    → contains a (q ++ b ∷ t) ≡ false
    → (contains a q ≡ false) × (contains a t ≡ false)
unfolding contains
behind a b q t h = ground (arith, contains-append a q (b ∷ t))

split-part-lacks :
    (a b : ℕ) (s : Bytes)
    → contains a s ≡ false
    → (contains a (split_at_byte b s).0 ≡ false) × (contains a (split_at_byte b s).1 ≡ false)
unfolding split_at_byte
split-part-lacks a b s h = elim (Option-cases (cut b s)) [
  | inl n ↦ rw (n, split_at_byte) (h, unfold contains in refl)
  | inr ((q, t), f) ↦ rw (f, split_at_byte) (behind a b q t (rw (cut-eq-some b s f).0 at h))
]

parse_nuh-IsPlain : (s : Bytes) {n : Nuh} → parse_nuh s ≡ some n → IsPlain n
parse_nuh-IsPlain [] {n} e = let e' : none ≡ some n = unfold parse_nuh in e in cc
parse_nuh-IsPlain (c ∷ s) {n} e =
    let left = (split_at_byte b'@' (c ∷ s)).0 in
    let parts = split-part-lacks b'@' b'!' left (split-lacks b'@' (c ∷ s)) in
    let right = split_at_byte b'!' left in
    let read : Nuh = record {
      name = right.0;
      user = right.1;
      host = (split_at_byte b'@' (c ∷ s)).1;
    } in
    let same : read ≡ n = unfold parse_nuh in cc in
    subst IsPlain same
      (record { name_at = parts.0; name_bang = split-lacks b'!' left; user_at = parts.1 })

-- Normalising a source a second time changes nothing: what was parsed from any source is parsed
-- again from its canonical form, if that is not empty.
pub parse_nuh-stable :
    (s : Bytes) {n : Nuh}
    → parse_nuh s ≡ some n
    → canonical n ≢ []
    → parse_nuh (canonical n) ≡ some n
parse_nuh-stable s {n} e = parse_nuh-canonical n (parse_nuh-IsPlain s e)
