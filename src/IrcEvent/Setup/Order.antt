-- ===== src/IrcEvent/Setup/Order.antt =====
-- Which callbacks come first.
use irc_go.Prelude.{
  Bool, true, false, ◌&&◌, not, List, [], ◌∷◌, map, ◌≡◌, refl, ap, ◌∙◌, arith, codes, Bytes,
  bytes_eq, bytes_eq_iff, to_upper, upper_byte, if◌then◌else◌,
}
use irc_go.IrcEvent.Registry.{Registry, is_rejected, add_callback, add_callback_id, get_callbacks}
use irc_go.IrcEvent.Registry.Restore.{get_callbacks-add_callback_id}
use irc_go.IrcEvent.Setup.{
  Callback, library, first_commands, sasl_commands, ctcp_commands, last_commands, add_commands,
  prepend_command, setup_callbacks,
}

-- The commands are accepted, and none of them is the code.
abbrev misses : Bytes → List Bytes → Bool
misses code [] = true
misses code (c ∷ cs) =
    not (is_rejected (to_upper c))
    && (not (bytes_eq (to_upper c) (to_upper code)) && misses code cs)

module _ {F B : Type 0} where
  get_callbacks-add_commands :
      (r : Registry (Callback F) B) (code : Bytes) (cs : List Bytes)
      → misses code cs ≡ true
      → get_callbacks (add_commands r cs) code ≡ get_callbacks r code
  unfolding add_commands add_callback
  get_callbacks-add_commands r code [] h = refl
  get_callbacks-add_commands r code (c ∷ cs) h =
      let accepted : is_rejected (to_upper c) ≡ false = ground arith in
      let other : bytes_eq (to_upper c) (to_upper code) ≡ false = ground arith in
      let rest : misses code cs ≡ true = ground arith in
      get_callbacks-add_commands (add_callback_id r c (library c) false 0).1 code cs rest
      ∙ get_callbacks-add_callback_id r c (library c) false 0 code accepted
      ∙ rw other refl

  -- The callbacks of a command, in the order of their calls.
  unfoldable pub callbacks_of : Registry (Callback F) B → Bytes → List (Callback F)
  callbacks_of r code = map (λ p. p.1) (get_callbacks r code)

  callbacks_of-add_commands :
      (r : Registry (Callback F) B) (code : Bytes) (cs : List Bytes)
      → misses code cs ≡ true
      → callbacks_of (add_commands r cs) code ≡ callbacks_of r code
  unfolding callbacks_of
  callbacks_of-add_commands r code cs h =
      ap (map (λ p. p.1)) (get_callbacks-add_commands r code cs h)

  callbacks_of-optional :
      (r : Registry (Callback F) B) (code : Bytes) (b : Bool) (cs : List Bytes)
      → misses code cs ≡ true
      → callbacks_of (add_commands r (if b then cs else [])) code ≡ callbacks_of r code
  callbacks_of-optional r code true cs h = callbacks_of-add_commands r code cs h
  callbacks_of-optional r code false cs h = callbacks_of-add_commands r code [] refl

  callbacks_of-prepended :
      (r : Registry (Callback F) B) (c : Bytes)
      → is_rejected (to_upper c) ≡ false
      → callbacks_of (prepend_command r c) c ≡ library c ∷ callbacks_of r c
  unfolding callbacks_of prepend_command
  callbacks_of-prepended r c h =
      let same : bytes_eq (to_upper c) (to_upper c) ≡ true = (bytes_eq_iff _ _).1 refl in
      let first = get_callbacks-add_callback_id r c (library c) true 0 c h in
      let out = add_callback_id r c (library c) true 0 in
      let chosen : get_callbacks out.1 c ≡ (out.0.id, library c) ∷ get_callbacks r c =
        first ∙ rw same refl in
      ap (map (λ p. p.1)) chosen

  callbacks_of-prepend_command :
      (r : Registry (Callback F) B) (c code : Bytes)
      → is_rejected (to_upper c) ≡ false
      → bytes_eq (to_upper c) (to_upper code) ≡ false
      → callbacks_of (prepend_command r c) code ≡ callbacks_of r code
  unfolding callbacks_of prepend_command
  callbacks_of-prepend_command r c code h k =
      ap (map (λ p. p.1)) (get_callbacks-add_callback_id r c (library c) true 0 code h ∙ rw k refl)

  -- The last steps leave the callbacks of a command that they do not name.
  end_motd :
      (r : Registry (Callback F) B) (code : Bytes) (use_sasl enable_ctcp : Bool)
      → misses code (codes "ERROR" ∷ codes "CAP" ∷ []) ≡ true
      → misses code sasl_commands ≡ true
      → misses code ctcp_commands ≡ true
      → callbacks_of
          (add_commands
            (add_commands
              (add_commands r (codes "ERROR" ∷ codes "CAP" ∷ []))
              (if use_sasl then sasl_commands else []))
            (if enable_ctcp then ctcp_commands else []))
          code
        ≡ callbacks_of r code
  end_motd r code use_sasl enable_ctcp a b c =
      callbacks_of-optional _ code enable_ctcp ctcp_commands c
      ∙ callbacks_of-optional _ code use_sasl sasl_commands b
      ∙ callbacks_of-add_commands r code (codes "ERROR" ∷ codes "CAP" ∷ []) a

-- On the first call, the callbacks of the library for NICK, 376 and 422 come before all callbacks that
-- the client has added for them, which keep their order.
pub setup_callbacks_first :
    {F B : Type 0} (r : Registry (Callback F) B) (use_sasl enable_ctcp : Bool)
    → let r' = setup_callbacks false use_sasl enable_ctcp r in
      (callbacks_of r' (codes "NICK") ≡ library (codes "NICK") ∷ callbacks_of r (codes "NICK"))
      × (callbacks_of r' (codes "376") ≡ library (codes "376") ∷ callbacks_of r (codes "376"))
      × (callbacks_of r' (codes "422") ≡ library (codes "422") ∷ callbacks_of r (codes "422"))
unfolding setup_callbacks is_rejected to_upper upper_byte bytes_eq
setup_callbacks_first {F} {B} r use_sasl enable_ctcp = (
  callbacks_of-add_commands _ (codes "NICK") last_commands refl
      ∙ callbacks_of-prepend_command _ (codes "422") (codes "NICK") refl refl
      ∙ callbacks_of-prepend_command _ (codes "376") (codes "NICK") refl refl
      ∙ end_motd _ (codes "NICK") use_sasl enable_ctcp refl refl refl
      ∙ callbacks_of-prepended _ (codes "NICK") refl
      ∙ ap (λ l. library (codes "NICK") ∷ l)
          (callbacks_of-add_commands r (codes "NICK") first_commands refl),
  callbacks_of-add_commands _ (codes "376") last_commands refl
      ∙ callbacks_of-prepend_command _ (codes "422") (codes "376") refl refl
      ∙ callbacks_of-prepended _ (codes "376") refl
      ∙ ap (λ l. library (codes "376") ∷ l)
          (end_motd _ (codes "376") use_sasl enable_ctcp refl refl refl
            ∙ callbacks_of-prepend_command _ (codes "NICK") (codes "376") refl refl
            ∙ callbacks_of-add_commands r (codes "376") first_commands refl),
  callbacks_of-add_commands _ (codes "422") last_commands refl
      ∙ callbacks_of-prepended _ (codes "422") refl
      ∙ ap (λ l. library (codes "422") ∷ l)
          (callbacks_of-prepend_command _ (codes "376") (codes "422") refl refl
            ∙ end_motd _ (codes "422") use_sasl enable_ctcp refl refl refl
            ∙ callbacks_of-prepend_command _ (codes "NICK") (codes "422") refl refl
            ∙ callbacks_of-add_commands r (codes "422") first_commands refl),
)
