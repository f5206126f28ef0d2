-- ===== src/IrcEvent/Connection/Lifecycle.antt =====
-- The connections that a client can reach: stopping one never panics, and neither does a tick.
use irc_go.Prelude.{
  ℕ, ◌≤◌, ◌<◌, ◌/◌, true, false, List, [], ◌∷◌, ◌++◌, Option, none, some, ◌≡◌, ◌⊎◌, refl, sym,
  subst, ap, ◌∙◌, inl, inr, arith, Bytes, Bool-cases, Option-cases,
}
use irc_go.IrcEvent.Connection.{
  ClientError, client_has_quit, Connection, TickAction, close_end, set_error, record_pong,
  tick_state, send_internal, popped, pop_write, check_config, prepare, open_socket, start_quit,
  set_nick, set_current_nick,
}
use irc_go.IrcEvent.Connection.Checked.{IsReady, check_config-IsReady}

pub data Reachable : Connection → Type 0 where
  at_start : (c : Connection) → c.running ≡ false → Reachable c
  after_prepare : (c : Connection) → Reachable c → Reachable (prepare c).1
  after_open :
      (c : Connection) → Reachable c → (prepare c).0 ≡ none → Reachable (open_socket (prepare c).1)
  after_close : (c c' : Connection) → Reachable c → close_end c ≡ some c' → Reachable c'
  after_error :
      (c c' : Connection) (err : ClientError)
      → Reachable c
      → set_error c err ≡ some c'
      → Reachable c'
  after_pong : (c : Connection) (param : Bytes) → Reachable c → Reachable (record_pong c param)
  after_tick :
      (c c' : Connection) (now tick : ℕ) (action : TickAction)
      → Reachable c
      → tick_state c now tick ≡ some (action, c')
      → Reachable c'
  after_send :
      (c c' : Connection) (b : Bytes) (err : Option ClientError)
      → Reachable c
      → send_internal c b ≡ some (err, c')
      → Reachable c'
  after_pop :
      (c c' : Connection) (b : Bytes) → Reachable c → pop_write c ≡ some (b, c') → Reachable c'
  after_quit : (c : Connection) (now : ℕ) → Reachable c → Reachable (start_quit c now)
  after_set_nick : (c : Connection) (n : Bytes) → Reachable c → Reachable (set_nick c n)
  after_current_nick : (c : Connection) (n : Bytes) → Reachable c → Reachable (set_current_nick c n)

-- The parts of the state that decide whether stopping or a tick can panic.
unfoldable pub IsLive : Connection → Type 0
IsLive c =
    (c.end_closed ≡ false)
    × (c.last_error ≡ none)
    × (0 < c.config.timeout)
    × (c.config.timeout ≤ c.config.keep_alive)

unfoldable pub IsSound : Connection → Type 0
IsSound c = (c.running ≡ false) ⊎ IsLive c

close_end_running :
    (c : Connection)
    → c.running ≡ true
    → c.end_closed ≡ false
    → close_end c ≡ some (record c { running = false; end_closed = true })
unfolding close_end
close_end_running c h k = rw (h, k) refl

close_end_stopped : (c : Connection) → c.running ≡ false → close_end c ≡ some c
unfolding close_end
close_end_stopped c h = rw h refl

some-injective : {A : Type 0} (a b : A) → some a ≡ some b → a ≡ b
some-injective a b e = ground arith

-- Where a running client has `end` open, closing does not panic and leaves the client stopped.
close_end_stops :
    (c : Connection)
    → (c.running ≡ false) ⊎ (c.end_closed ≡ false)
    → (c' : Connection) × (close_end c ≡ some c')
      × (c'.running ≡ false)
      × (c'.last_error ≡ c.last_error)
close_end_stops c (inl h) = (c, close_end_stopped c h, h, refl)
close_end_stops c (inr open_end) = elim (Bool-cases c.running) [
  | inl h ↦
      (record c { running = false; end_closed = true }, close_end_running c h open_end, refl, refl)
  | inr h ↦ (c, close_end_stopped c h, h, refl)
]

can_close : (c : Connection) → IsSound c → (c.running ≡ false) ⊎ (c.end_closed ≡ false)
unfolding IsSound IsLive
can_close c (inl h) = inl h
can_close c (inr (h, _, _, _)) = inr h

close_end-IsSound : (c c' : Connection) → IsSound c → close_end c ≡ some c' → IsSound c'
unfolding IsSound
close_end-IsSound c c' h e =
    let (d, k, stopped, _) = close_end_stops c (can_close c h) in
    inl (subst (λ x. x.running ≡ false) (some-injective d c' (sym k ∙ e)) stopped)

-- The error that `getError` gives after `setError`.
abbrev pub first_error : Option ClientError → ClientError → Option ClientError
first_error none err = some err
first_error (some e) err = some e

set_error_first :
    (c : Connection) (err : ClientError)
    → (c.running ≡ false) ⊎ (c.end_closed ≡ false)
    → c.last_error ≡ none
    → (c' : Connection) × (set_error c err ≡ some c')
      × (c'.running ≡ false)
      × (c'.last_error ≡ first_error c.last_error err)
unfolding set_error
set_error_first c err h k =
    let (c', out, stopped, l) = close_end_stops (record c { last_error = some err }) h in
    let now : set_error c err ≡ close_end (record c { last_error = some err }) = rw k refl in
    (c', now ∙ out, stopped, l ∙ sym (ap (λ o. first_error o err) k))

set_error_out :
    (c : Connection) (err : ClientError)
    → IsSound c
    → (c' : Connection) × (set_error c err ≡ some c')
      × (c'.running ≡ false)
      × (c'.last_error ≡ first_error c.last_error err)
unfolding set_error IsSound IsLive
set_error_out c err (inl h) = elim (Option-cases c.last_error) [
  | inl k ↦ set_error_first c err (inl h) k
  | inr (e, k) ↦ (c, rw k refl, h, k ∙ sym (ap (λ o. first_error o err) k))
]
set_error_out c err (inr (h, k, _, _)) = set_error_first c err (inr h) k

set_error-IsSound :
    (c c' : Connection) (err : ClientError) → IsSound c → set_error c err ≡ some c' → IsSound c'
unfolding IsSound
set_error-IsSound c c' err h e =
    let (d, k, stopped, _) = set_error_out c err h in
    inl (subst (λ x. x.running ≡ false) (some-injective d c' (sym k ∙ e)) stopped)

-- What a tick leaves of the state.
tick_state-kept :
    (c c' : Connection) (now tick : ℕ) (action : TickAction)
    → tick_state c now tick ≡ some (action, c')
    → (c' ≡ c) ⊎ (c' ≡ record c { ping_sent = true })
unfolding tick_state
tick_state-kept c c' now tick action e = ground arith

tick_state_total :
    (c : Connection) (now tick : ℕ)
    → 0 < c.config.timeout
    → c.config.timeout ≤ c.config.keep_alive
    → (out : TickAction × Connection) × (tick_state c now tick ≡ some out)
unfolding tick_state
tick_state_total c now tick p q = elim (Option-cases (tick_state c now tick)) [
  | inl e ↦
      absurd (let k : 0 < c.config.keep_alive / c.config.timeout = grind arith in ground arith)
  | inr out ↦ out
]

tick_state-IsSound :
    (c c' : Connection) (now tick : ℕ) (action : TickAction)
    → IsSound c
    → tick_state c now tick ≡ some (action, c')
    → IsSound c'
unfolding IsSound IsLive
tick_state-IsSound c c' now tick action h e = elim (tick_state-kept c c' now tick action e) [
  | inl k ↦ subst IsSound (sym k) h
  | inr k ↦ subst IsSound (sym k) h
]

send_internal-IsSound :
    (c c' : Connection) (b : Bytes) (err : Option ClientError)
    → IsSound c
    → send_internal c b ≡ some (err, c')
    → IsSound c'
unfolding send_internal IsSound IsLive
send_internal-IsSound c c' b err h e =
    let k : (c' ≡ c) ⊎ (c' ≡ record c { pwrite = c.pwrite ++ b ∷ [] }) = ground arith in
    elim k [ inl k ↦ subst IsSound (sym k) h | inr k ↦ subst IsSound (sym k) h ]

popped-kept :
    (c c' : Connection) (b : Bytes) (queue : List Bytes)
    → popped c queue ≡ some (b, c')
    → (rest : List Bytes) × (queue ≡ b ∷ rest) × (c' ≡ record c { pwrite = rest })
popped-kept c c' b [] e = absurd (ground arith)
popped-kept c c' b (x ∷ rest) e = (rest, ground arith, ground arith)

-- What is taken from the queue is its front.
pub pop_write-kept :
    (c c' : Connection) (b : Bytes)
    → pop_write c ≡ some (b, c')
    → (rest : List Bytes) × (c.pwrite ≡ b ∷ rest) × (c' ≡ record c { pwrite = rest })
unfolding pop_write
pop_write-kept c c' b e = popped-kept c c' b c.pwrite e

pop_write-IsSound :
    (c c' : Connection) (b : Bytes) → IsSound c → pop_write c ≡ some (b, c') → IsSound c'
unfolding IsSound IsLive
pop_write-IsSound c c' b h e = let (_, _, k) = pop_write-kept c c' b e in subst IsSound (sym k) h

record_pong-IsSound : (c : Connection) (param : Bytes) → IsSound c → IsSound (record_pong c param)
unfolding record_pong IsSound IsLive
record_pong-IsSound c param h =
    let k : (record_pong c param ≡ c) ⊎ (record_pong c param ≡ record c { ping_sent = false }) =
      ground arith in
    elim k [ inl k ↦ subst IsSound (sym k) h | inr k ↦ subst IsSound (sym k) h ]

prepare-IsSound : (c : Connection) → IsSound c → IsSound (prepare c).1
unfolding prepare IsSound IsLive
prepare-IsSound c h = elim (Bool-cases c.quit) [ inl k ↦ rw k h | inr k ↦ inl (rw k refl) ]

open_socket-IsSound : (c : Connection) → (prepare c).0 ≡ none → IsSound (open_socket (prepare c).1)
unfolding prepare open_socket IsSound IsLive IsReady
open_socket-IsSound c h = elim (Bool-cases c.quit) [
  | inl k ↦ absurd (let e : (prepare c).0 ≡ some client_has_quit = rw k refl in ground arith)
  | inr k ↦
      let e : (check_config c.config).0 ≡ none =
        (let r : (prepare c).0 ≡ (check_config c.config).0 = rw k refl in sym r ∙ h) in
      let (_, _, _, p, q, _, _, _, _) =
        check_config-IsReady c.config (check_config c.config).1
          (let g : (check_config c.config).0 ≡ none = e in ground arith) in
      rw k (inr (refl, refl, p, q))
]

pub Reachable-IsSound : (c : Connection) → Reachable c → IsSound c
unfolding IsSound IsLive start_quit set_nick set_current_nick
Reachable-IsSound c (at_start _ h) = inl h
Reachable-IsSound _ (after_prepare c r) = prepare-IsSound c (Reachable-IsSound c r)
Reachable-IsSound _ (after_open c r h) = open_socket-IsSound c h
Reachable-IsSound _ (after_close c c' r e) = close_end-IsSound c c' (Reachable-IsSound c r) e
Reachable-IsSound _ (after_error c c' err r e) =
    set_error-IsSound c c' err (Reachable-IsSound c r) e
Reachable-IsSound _ (after_pong c param r) = record_pong-IsSound c param (Reachable-IsSound c r)
Reachable-IsSound _ (after_tick c c' now tick a r e) =
    tick_state-IsSound c c' now tick a (Reachable-IsSound c r) e
Reachable-IsSound _ (after_send c c' b err r e) =
    send_internal-IsSound c c' b err (Reachable-IsSound c r) e
Reachable-IsSound _ (after_pop c c' b r e) = pop_write-IsSound c c' b (Reachable-IsSound c r) e
Reachable-IsSound _ (after_quit c now r) = Reachable-IsSound c r
Reachable-IsSound _ (after_set_nick c n r) = Reachable-IsSound c r
Reachable-IsSound _ (after_current_nick c n r) = Reachable-IsSound c r

-- A reachable connection can always be stopped without a panic, by `close_end` and by `set_error`;
-- it no longer runs then, and it keeps the first error that was set since `Connect`.
pub set_error_stops :
    (c : Connection) (err : ClientError)
    → Reachable c
    → ((c' : Connection) × (close_end c ≡ some c') × (c'.running ≡ false))
      × ((c' : Connection) × (set_error c err ≡ some c')
          × (c'.running ≡ false)
          × (c'.last_error ≡ first_error c.last_error err))
set_error_stops c err r =
    let h = Reachable-IsSound c r in
    let (c', k, stopped, _) = close_end_stops c (can_close c h) in
    ((c', k, stopped), set_error_out c err h)

-- A tick of a reachable connection that is running does not divide by zero.
pub tick_state_divides :
    (c : Connection) (now tick : ℕ)
    → Reachable c
    → c.running ≡ true
    → (out : TickAction × Connection) × (tick_state c now tick ≡ some out)
unfolding IsSound IsLive
tick_state_divides c now tick r running = elim (Reachable-IsSound c r) [
  | inl h ↦ absurd (ground arith)
  | inr h ↦ tick_state_total c now tick h.2 h.3
]
