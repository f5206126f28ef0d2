-- ===== src/IrcFmt/Escape/Panics.antt =====
-- `Escape` reads behind the end of a text.
use irc_go.Prelude.{ℕ, true, [], ◌∷◌, none, ◌≡◌, refl, arith}
use irc_go.IrcFmt.Split.{colour, is_digit}
use irc_go.IrcFmt.Escape.{
  val_to_escape, replace_all, escape_colour, escape_round, escape_loop, escape,
}

colour_panics :
    (fore back last : ℕ)
    → is_digit fore ≡ true
    → is_digit back ≡ true
    → escape_round b'$' (b'c' ∷ fore ∷ b',' ∷ back ∷ last ∷ []) ≡ none
unfolding escape_round escape_colour
colour_panics fore back last f b = rw f (rw b)

-- A colour code with a foreground of one digit and a background of one digit, behind which there is
-- one more character that has no escape, makes `Escape` panic.
pub escape_panics :
    (fore back last : ℕ)
    → is_digit fore ≡ true
    → is_digit back ≡ true
    → val_to_escape last ≡ last ∷ []
    → escape (colour ∷ fore ∷ b',' ∷ back ∷ last ∷ []) ≡ none
unfolding escape replace_all escape_loop
escape_panics fore back last f b l =
    let ef : val_to_escape fore ≡ fore ∷ [] = unfold val_to_escape in ground arith in
    let eb : val_to_escape back ≡ back ∷ [] = unfold val_to_escape in ground arith in
    let ec : val_to_escape b',' ≡ b',' ∷ [] = unfold val_to_escape in refl in
    let ek : val_to_escape colour ≡ b'$' ∷ b'c' ∷ [] = unfold val_to_escape in refl in
    rw (ek, ef, ec, eb, l) (rw (colour_panics fore back last f b, escape_loop))
