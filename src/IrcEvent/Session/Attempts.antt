-- ===== src/IrcEvent/Session/Attempts.antt =====
-- The nicks that the client tries while the server refuses them.
use irc_go.Prelude.{
  ℕ, zero, suc, ◌+◌, ◌-◌, ◌*◌, ◌/◌, ◌%◌, ◌<◌, true, ltb, within, List, [], ◌∷◌, ◌++◌, some, ◌≡◌,
  ◌≢◌, refl, sym, ap, ◌∙◌, inl, inr, arith, codes, Bytes, Bool-cases, drop,
}
use irc_go.IrcMsg.Message.{Message}
use irc_go.IrcEvent.Connection.{is_empty, decimal}
use irc_go.IrcEvent.Session.{
  Session, Sent, decimal_loop, format_decimal, nick_to_try, handle_unavailable_nick,
}

decimal-append :
    (acc : ℕ) (s : Bytes) (n d : ℕ)
    → d < 10
    → decimal acc s ≡ some n
    → decimal acc (s ++ (d + b'0') ∷ []) ≡ some (n * 10 + d)
decimal-append acc [] n d h e = ground arith
decimal-append acc (c ∷ s) n d h e = elim (Bool-cases (within b'0' b'9' c)) [
  | inl k ↦ rw k (decimal-append (acc * 10 + (c - b'0')) s n d h (rw k at e))
  | inr k ↦ absurd (ground arith)
]

decimal-decimal_loop : (f n : ℕ) → n < f → decimal 0 (decimal_loop f n) ≡ some n
unfolding decimal_loop
decimal-decimal_loop zero n h = absurd (omega arith)
decimal-decimal_loop (suc f) n h = elim (Bool-cases (ltb n 10)) [
  | inl e ↦ rw e (decimal-append 0 [] 0 n (ground arith) refl ∙ ap some (omega arith))
  | inr e ↦ rw e (
      decimal-append 0 (decimal_loop f (n / 10)) (n / 10) (n % 10) (omega arith)
        (decimal-decimal_loop f (n / 10) (ground arith))
      ∙ ap some (omega arith))
]

-- The digits of a number are those of no other number.
format_decimal-injective : (m n : ℕ) → format_decimal m ≡ format_decimal n → m ≡ n
unfolding format_decimal
format_decimal-injective m n e =
    let a = decimal-decimal_loop (suc m) m (omega arith) in
    let b = decimal-decimal_loop (suc n) n (omega arith) in
    let k : some m ≡ some n = sym a ∙ ap (decimal 0) e ∙ b in ground arith

append_cancel : (s t u : Bytes) → s ++ t ≡ s ++ u → t ≡ u
append_cancel [] t u e = e
append_cancel (c ∷ s) t u e = append_cancel s t u (ap (drop 1) e)

nick_to_try-injective : (n : Bytes) (i j : ℕ) → nick_to_try n i ≡ nick_to_try n j → i ≡ j
unfolding nick_to_try
nick_to_try-injective n i j e = format_decimal-injective i j (ap (drop 1) (append_cancel n _ _ e))

-- The state after a number of refusals.
unfoldable pub after_refusals : ℕ → Session → Message → Session
unfolding handle_unavailable_nick
after_refusals zero st e = st
after_refusals (suc n) st e = after_refusals n (handle_unavailable_nick st e).1 e

after_refusals-state :
    (n : ℕ) (st : Session) (e : Message)
    → is_empty st.conn.current_nick ≡ true
    → (after_refusals n st e ≡ record st { nick_counter = st.nick_counter + n })
unfolding after_refusals handle_unavailable_nick
after_refusals-state zero st e h = ap (λ k. record st { nick_counter = k }) (omega arith)
after_refusals-state (suc n) st e h =
    let next : (handle_unavailable_nick st e).1 ≡ record st { nick_counter = st.nick_counter + 1 } =
      rw h refl in
    ap (λ x. after_refusals n x e) next
    ∙ after_refusals-state n (record st { nick_counter = st.nick_counter + 1 }) e h
    ∙ ap (λ k. record st { nick_counter = k }) (omega arith)

attempt :
    (n : ℕ) (st : Session) (e : Message)
    → is_empty st.conn.current_nick ≡ true
    → (handle_unavailable_nick (after_refusals n st e) e).0
      ≡ (codes "NICK", nick_to_try st.conn.config.nick (st.nick_counter + n) ∷ []) ∷ []
unfolding handle_unavailable_nick
attempt n st e h =
    let now : (handle_unavailable_nick (record st { nick_counter = st.nick_counter + n }) e).0
        ≡ (codes "NICK", nick_to_try st.conn.config.nick (st.nick_counter + n) ∷ []) ∷ [] =
      rw h refl in
    ap (λ x. (handle_unavailable_nick x e).0) (after_refusals-state n st e h) ∙ now

-- The nick of the only message, or nothing.
abbrev nick_sent : List Sent → Bytes
nick_sent ((_, n ∷ _) ∷ _) = n
nick_sent _ = []

-- As long as the server has assigned no nick, each refusal makes the client try one that it has not
-- tried before.
pub handle_unavailable_nick_differs :
    (i j : ℕ) (st : Session) (e : Message)
    → is_empty st.conn.current_nick ≡ true
    → i ≢ j
    → (handle_unavailable_nick (after_refusals i st e) e).0
      ≢ (handle_unavailable_nick (after_refusals j st e) e).0
handle_unavailable_nick_differs i j st e h ne k =
    let same = ap nick_sent (sym (attempt i st e h) ∙ k ∙ attempt j st e h) in
    let m =
      nick_to_try-injective st.conn.config.nick (st.nick_counter + i) (st.nick_counter + j) same in
    ne (omega arith)
