-- ===== src/Tests/Utils.antt =====
-- Package ircutils on small inputs.
use irc_go.Prelude.{
  true, false, [], ◌∷◌, ◌++◌, none, some, ◌≡◌, ◌≤◌, ◌<◌, refl, inr, arith, codes, length, contains,
}
use irc_go.IrcUtils.Sasl.{
  new_sasl_buffer, encode_sasl_response, encode_to_string, encode_loop, base64_char, decode,
  drop_newlines, decode_quanta, base64_value, last_quantum,
}
use irc_go.IrcUtils.Sasl.Chunks.{add_chunks, add_chunks-encode_sasl_response}
use irc_go.IrcUtils.Sasl.Base64.{AllBytes}
use irc_go.IrcUtils.Sasl.Limit.{IsWithin}
use irc_go.IrcUtils.Hostnames.{
  hostname_is_valid, hostname_is_valid-AllParts, AllParts, split, join, parts_are_valid,
  part_is_valid, first_is, last_is, chars_are_valid, is_allowed, lower_byte,
}
use irc_go.IrcUtils.Sanitize.{sanitize_text, sanitize_text-bounds}

encoded : encode_sasl_response (codes "jilles") ≡ codes "amlsbGVz" ∷ []
unfolding encode_sasl_response encode_to_string encode_loop base64_char
encoded = refl

decoded : decode (codes "amls\r\nbA==") ≡ some (codes "jill")
unfolding decode drop_newlines decode_quanta base64_value last_quantum
decoded = refl

jill-AllBytes : AllBytes (codes "jill")
unfolding AllBytes
jill-AllBytes = (omega arith, (omega arith, (omega arith, (omega arith, tt))))

add_chunks-encode_sasl_response_example :
    add_chunks (new_sasl_buffer 8) (encode_sasl_response (codes "jill"))
    ≡ some ((record { done = true; output = codes "jill"; err = none }, []), new_sasl_buffer 8)
add_chunks-encode_sasl_response_example =
    add_chunks-encode_sasl_response 8 (codes "jill") jill-AllBytes (inr (omega arith))

valid_name : hostname_is_valid (codes "irc.Example-1.net") ≡ true
unfolding hostname_is_valid split parts_are_valid part_is_valid first_is last_is chars_are_valid
    is_allowed lower_byte contains
valid_name = refl

-- A name with U+212A, the Kelvin sign.
kelvin_name : hostname_is_valid (226 ∷ 132 ∷ 170 ∷ codes ".net") ≡ true
unfolding hostname_is_valid split parts_are_valid part_is_valid first_is last_is chars_are_valid
    is_allowed lower_byte contains
kelvin_name = refl

hostname_is_valid-AllParts_example :
    let (part, parts) = split b'.' (codes "irc.Example-1.net") in
    (length (codes "irc.Example-1.net") ≤ 200)
    × (part ++ join b'.' parts ≡ codes "irc.Example-1.net")
    × (0 < length parts)
    × AllParts (part ∷ parts)
hostname_is_valid-AllParts_example =
    hostname_is_valid-AllParts (codes "irc.Example-1.net") valid_name

sanitize_text-bounds_example :
    (length (sanitize_text (codes "a\r\nb c") 5) ≤ 5)
    × (contains b'\n' (sanitize_text (codes "a\r\nb c") 5) ≡ false)
sanitize_text-bounds_example = sanitize_text-bounds (codes "a\r\nb c") 5 b'\n' refl

eight-IsWithin : IsWithin (new_sasl_buffer 8)
unfolding IsWithin new_sasl_buffer
eight-IsWithin = inr (omega arith)
