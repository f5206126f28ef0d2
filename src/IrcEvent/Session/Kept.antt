-- ===== src/IrcEvent/Session/Kept.antt =====
-- Which callbacks of `setupCallbacks` touch the tokens of ISUPPORT.
use irc_go.Prelude.{
  Bool, true, false, ◌||◌, List, [], ◌∷◌, ◌≡◌, refl, inl, inr, arith, codes, Bytes, bytes_eq,
  bytes_eq_iff, Bool-cases, string_eq,
}
use irc_go.IrcMsg.Message.{Message}
use irc_go.IrcMsg.Userhost.{nick}
use irc_go.IrcEvent.Connection.{is_empty}
use irc_go.IrcEvent.Session.{
  Session, handle_ping, handle_pong, handle_rpl_welcome, handle_registration,
  handle_unavailable_nick, handle_isupport, handle_nick, base_callback, first_nick, changed_nick,
}

-- RPL_ISUPPORT, and the messages that end registration.
abbrev pub gives_tokens : Message → Bool
gives_tokens e = bytes_eq e.command (codes "005")

abbrev pub ends_registration : Message → Bool
ends_registration e = bytes_eq e.command (codes "376") || bytes_eq e.command (codes "422")

pub record IsKept (st st' : Session) : Type 0 where
  pub registered : st'.registered ≡ st.registered
  pub partial : st'.isupport_partial ≡ st.isupport_partial
  pub isupport : st'.isupport ≡ st.isupport

same-IsKept : (st : Session) → IsKept st st
same-IsKept st = record { registered = refl; partial = refl; isupport = refl }

first_nick-IsKept : (st : Session) (ps : List Bytes) → IsKept st (first_nick st ps)
first_nick-IsKept st [] = same-IsKept st
first_nick-IsKept st (p ∷ _) = record { registered = refl; partial = refl; isupport = refl }

changed_nick-IsKept : (st : Session) (ps : List Bytes) → IsKept st (changed_nick st ps)
changed_nick-IsKept st [] = same-IsKept st
changed_nick-IsKept st (p ∷ _) = record { registered = refl; partial = refl; isupport = refl }

handle_nick-IsKept : (st : Session) (e : Message) → IsKept st (handle_nick st e).1
unfolding handle_nick
handle_nick-IsKept st e = elim (Bool-cases (bytes_eq (nick e) st.conn.current_nick)) [
  | inl k ↦ rw k (changed_nick-IsKept st e.params)
  | inr k ↦ rw k (same-IsKept st)
]

handle_unavailable_nick-IsKept :
    (st : Session) (e : Message) → IsKept st (handle_unavailable_nick st e).1
unfolding handle_unavailable_nick
handle_unavailable_nick-IsKept st e = elim (Bool-cases (is_empty st.conn.current_nick)) [
  | inl k ↦ rw k (record { registered = refl; partial = refl; isupport = refl })
  | inr k ↦ rw k (same-IsKept st)
]

-- Any other message leaves the tokens and the state of registration as they are.
pub base_callback-IsKept :
    (st : Session) (e : Message)
    → gives_tokens e ≡ false
    → ends_registration e ≡ false
    → IsKept st (base_callback st e).1
unfolding base_callback handle_ping handle_pong handle_rpl_welcome
base_callback-IsKept st e t r = elim (Bool-cases (bytes_eq e.command (codes "PING"))) [
  | inl k0 ↦ rw k0 (same-IsKept st)
  | inr k0 ↦ rw k0 (elim (Bool-cases (bytes_eq e.command (codes "PONG"))) [
    | inl k1 ↦ rw k1 (record { registered = refl; partial = refl; isupport = refl })
    | inr k1 ↦
        rw k1
          (elim (Bool-cases
            (bytes_eq e.command (codes "433") || bytes_eq e.command (codes "437"))) [
              | inl k2 ↦ rw k2 (handle_unavailable_nick-IsKept st e)
              | inr k2 ↦ rw k2 (elim (Bool-cases (bytes_eq e.command (codes "001"))) [
                | inl k3 ↦ rw k3 (first_nick-IsKept st e.params)
                | inr k3 ↦
                    rw (k3, t)
                      (elim (Bool-cases (bytes_eq e.command (codes "NICK"))) [
                        | inl k5 ↦ rw k5 (handle_nick-IsKept st e)
                        | inr k5 ↦ rw (k5, r) (same-IsKept st)
                      ])
              ])
            ])
  ])
]

pub base_callback-isupport :
    (st : Session) (e : Message) → gives_tokens e ≡ true → base_callback st e ≡ handle_isupport st e
unfolding base_callback bytes_eq
base_callback-isupport st e h =
    let q : e.command ≡ codes "005" = (bytes_eq_iff _ _).0 h in rw q refl

pub base_callback-registration :
    (st : Session) (e : Message)
    → ends_registration e ≡ true
    → base_callback st e ≡ handle_registration st e
unfolding base_callback bytes_eq
base_callback-registration st e h = elim (Bool-cases (bytes_eq e.command (codes "376"))) [
  | inl k ↦ let q : e.command ≡ codes "376" = (bytes_eq_iff _ _).0 k in rw q refl
  | inr k ↦
      let l : bytes_eq e.command (codes "422") ≡ true = ground arith in
      let q : e.command ≡ codes "422" = (bytes_eq_iff _ _).0 l in rw q refl
]
