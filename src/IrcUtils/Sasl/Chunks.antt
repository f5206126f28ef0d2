-- ===== src/IrcUtils/Sasl/Chunks.antt =====
-- The buffer takes a response apart that was put into chunks, and keeps to its limit.
use irc_go.Prelude.{
  ℕ, zero, suc, ◌+◌, ◌<◌, ◌≤◌, true, false, ◌&&◌, not, ◌==◌, ltb, List, [], ◌∷◌, ◌++◌, append-nil,
  append_assoc, Option, none, some, ◌≡◌, ◌⊎◌, refl, sym, ap, subst, ◌∙◌, inl, inr, arith, Bytes,
  length, take, drop, bytes_eq, length-take, length-drop, length-append, take-append-drop,
  if◌then◌else◌, Bool-cases,
}
use irc_go.IrcUtils.Sasl.{
  encode_to_string, decoded_len, plus, chunk_len, encode_loop, encode_sasl_response, SaslBuffer,
  new_sasl_buffer, clear, Added, add,
}
use irc_go.IrcUtils.Sasl.Base64.{
  AllBytes, decode-encode_to_string, length-encode_to_string, three, four, take-encode_to_string,
  drop-encode_to_string, plus-encode_to_string,
}

-- The calls of `Add` for the chunks of one response, until it is done: what the last call returned,
-- with the chunks that are left and the buffer.
unfoldable pub add_chunks : SaslBuffer → List Bytes → Option ((Added × List Bytes) × SaslBuffer)
add_chunks b [] = none
add_chunks b (value ∷ values) =
    let out = add b value in
    let later = add_chunks out.1 values in
    if out.0.done then some ((out.0, values), out.1) else later

-- There is room for `n` more bytes and for the padding of the last group.
pub HasRoom : SaslBuffer → ℕ → Type 0
HasRoom b n = (b.max_length ≡ 0) ⊎ (length b.buf + n + 2 ≤ b.max_length)

within_limit :
    (b : SaslBuffer) (s : Bytes)
    → HasRoom b (length s)
    → (not (b.max_length == 0)
        && ltb b.max_length (length b.buf + decoded_len (length (encode_to_string s))))
      ≡ false
unfolding HasRoom decoded_len
within_limit b s room = ground (arith, length-encode_to_string s)

-- A chunk of less than 400 bytes is the last one.
add_last :
    (b : SaslBuffer) (c : ℕ) (s : Bytes)
    → AllBytes (c ∷ s)
    → HasRoom b (length (c ∷ s))
    → length (encode_to_string (c ∷ s)) < 400
    → add b (encode_to_string (c ∷ s))
      ≡ (record { done = true; output = b.buf ++ c ∷ s; err = none }, record b { buf = [] })
unfolding add clear
add_last b c s h room short =
    let e1 = plus-encode_to_string c s in
    let e2 : ltb 400 (length (encode_to_string (c ∷ s))) ≡ false = ground arith in
    let e3 : ltb (length (encode_to_string (c ∷ s))) 400 ≡ true = ground arith in
    rw (e1, add)
      (rw (e2, add)
        (rw (within_limit b (c ∷ s) room, add)
          (rw (decode-encode_to_string (c ∷ s) h, add) (rw (e3, add)))))

add_full :
    (b : SaslBuffer) (c : ℕ) (s : Bytes)
    → AllBytes (c ∷ s)
    → HasRoom b (length (c ∷ s))
    → length (encode_to_string (c ∷ s)) ≡ 400
    → add b (encode_to_string (c ∷ s))
      ≡ (record { done = false; output = []; err = none }, record b { buf = b.buf ++ c ∷ s })
unfolding add clear
add_full b c s h room full =
    let e1 = plus-encode_to_string c s in
    let e2 : ltb 400 (length (encode_to_string (c ∷ s))) ≡ false = ground arith in
    let e3 : ltb (length (encode_to_string (c ∷ s))) 400 ≡ false = ground arith in
    rw (e1, add)
      (rw (e2, add)
        (rw (within_limit b (c ∷ s) room, add)
          (rw (decode-encode_to_string (c ∷ s) h, add) (rw (e3, add)))))

-- What `add_chunks` gives when it took up `raw` behind what the buffer holds.
Whole : SaslBuffer → Bytes → List Bytes → Type 0
Whole b raw values =
    add_chunks b values
    ≡ some ((record { done = true; output = b.buf ++ raw; err = none }, []), record b { buf = [] })

Whole-plus : (b : SaslBuffer) → Whole b [] (plus ∷ [])
unfolding Whole add_chunks add clear bytes_eq
Whole-plus b = rw (append-nil b.buf)

Whole-last :
    (b : SaslBuffer) (c : ℕ) (s : Bytes)
    → AllBytes (c ∷ s)
    → HasRoom b (length (c ∷ s))
    → length (encode_to_string (c ∷ s)) < 400
    → Whole b (c ∷ s) (encode_to_string (c ∷ s) ∷ [])
unfolding Whole add_chunks
Whole-last b c s h room short = rw (add_last b c s h room short, add_chunks)

Whole-full :
    (b : SaslBuffer) (c : ℕ) (s t : Bytes) (values : List Bytes)
    → AllBytes (c ∷ s)
    → HasRoom b (length (c ∷ s))
    → length (encode_to_string (c ∷ s)) ≡ 400
    → Whole (record b { buf = b.buf ++ c ∷ s }) t values
    → Whole b ((c ∷ s) ++ t) (encode_to_string (c ∷ s) ∷ values)
unfolding Whole add_chunks
Whole-full b c s t values h room full rest =
    rw (add_full b c s h room full, add_chunks)
      (rest
        ∙ ap
            (λ x.
              some ((record { done = true; output = x; err = none }, []), record b { buf = [] }))
            (append_assoc b.buf (c ∷ s) t))

AllBytes-take : (n : ℕ) (s : Bytes) → AllBytes s → AllBytes (take n s)
unfolding AllBytes
AllBytes-take zero s h = tt
AllBytes-take (suc n) [] h = h
AllBytes-take (suc n) (c ∷ s) (h, hs) = (h, AllBytes-take n s hs)

AllBytes-drop : (n : ℕ) (s : Bytes) → AllBytes s → AllBytes (drop n s)
unfolding AllBytes
AllBytes-drop zero s h = h
AllBytes-drop (suc n) [] h = h
AllBytes-drop (suc n) (c ∷ s) (h, hs) = AllBytes-drop n s hs

loop_round :
    (f : ℕ) (r : Bytes) (last : ℕ)
    → 0 < length r
    → encode_loop (suc f) r last
      ≡ take (chunk_len (length r)) r
        ∷ encode_loop f (drop (chunk_len (length r)) r) (chunk_len (length r))
unfolding encode_loop
loop_round f [] last h = ground arith
loop_round f (c ∷ r) last h = refl

loop_end : (f n : ℕ) → (n == 400) ≡ false → encode_loop f [] n ≡ []
unfolding encode_loop
loop_end zero n h = refl
loop_end (suc f) n h = rw h

take_all : (s : Bytes) → take (length s) s ≡ s
take_all [] = refl
take_all (c ∷ s) = ap (λ t. c ∷ t) (take_all s)

drop_all : (s : Bytes) → drop (length s) s ≡ []
drop_all [] = refl
drop_all (c ∷ s) = drop_all s

last_round :
    (f : ℕ) (r : Bytes) (last : ℕ)
    → 0 < length r
    → length r < 400
    → encode_loop (suc f) r last ≡ r ∷ []
last_round f r last pos short =
    let n : chunk_len (length r) ≡ length r = ground arith in
    loop_round f r last pos
    ∙ rw (n, take_all r, drop_all r) (ap (λ t. r ∷ t) (loop_end f (length r) (ground arith)))

full_round :
    (f : ℕ) (s : Bytes) (last : ℕ)
    → 400 ≤ length (encode_to_string s)
    → encode_loop (suc f) (encode_to_string s) last
      ≡ encode_to_string (take 300 s) ∷ encode_loop f (encode_to_string (drop 300 s)) 400
unfolding three four
full_round f s last long =
    let n : chunk_len (length (encode_to_string s)) ≡ 400 = ground arith in
    loop_round f (encode_to_string s) last (omega arith)
    ∙ rw n (rw (take-encode_to_string 100 s, drop-encode_to_string 100 s))

full_length :
    (s : Bytes)
    → 400 ≤ length (encode_to_string s)
    → (length (encode_to_string (take 300 s)) ≡ 400)
      × (length (encode_to_string (drop 300 s)) + 400 ≡ length (encode_to_string s))
unfolding three four
full_length s long =
    let t : length (take 400 (encode_to_string s)) ≡ length (encode_to_string (take 300 s)) =
      ap length (take-encode_to_string 100 s) in
    let d : length (drop 400 (encode_to_string s)) ≡ length (encode_to_string (drop 300 s)) =
      ap length (drop-encode_to_string 100 s) in
    let lt = length-take 400 (encode_to_string s) in
    let ld = length-drop 400 (encode_to_string s) in (ground arith, ground arith)

HasRoom-append :
    (b : SaslBuffer) (s t : Bytes)
    → HasRoom b (length (s ++ t))
    → HasRoom b (length s) × HasRoom (record b { buf = b.buf ++ s }) (length t)
unfolding HasRoom
HasRoom-append b s t (inl e) = (inl e, inl e)
HasRoom-append b s t (inr l) =
    let st = length-append s t in
    let bs = length-append b.buf s in (inr (omega arith), inr (omega arith))

Whole-encode_loop :
    (f : ℕ) (b : SaslBuffer) (raw : Bytes) (last : ℕ)
    → AllBytes raw
    → HasRoom b (length raw)
    → length (encode_to_string raw) < f
    → (0 < length raw) ⊎ (last ≡ 400)
    → Whole b raw (encode_loop f (encode_to_string raw) last)
Whole-encode_loop zero b raw last h room enough more = absurd (omega arith)
Whole-encode_loop (suc f) b [] last h room enough (inl l) = absurd (omega arith)
Whole-encode_loop (suc f) b [] last h room enough (inr e) =
    rw e (unfold encode_loop in unfold encode_to_string in Whole-plus b)
Whole-encode_loop (suc f) b (c ∷ raw) last h room enough _ =
    elim (Bool-cases (ltb (length (encode_to_string (c ∷ raw))) 400)) [
      | inl e ↦
          let short : length (encode_to_string (c ∷ raw)) < 400 = ground arith in
          let (lo, _) = length-encode_to_string (c ∷ raw) in
          subst (Whole b (c ∷ raw))
            (sym (last_round f (encode_to_string (c ∷ raw)) last (omega arith) short))
            (Whole-last b c raw h room short)
      | inr e ↦
          let long : 400 ≤ length (encode_to_string (c ∷ raw)) = ground arith in
          let (full, less) = full_length (c ∷ raw) long in
          let p = take 299 raw in
          let q = drop 299 raw in
          let whole : (c ∷ p) ++ q ≡ c ∷ raw = take-append-drop 300 (c ∷ raw) in
          let (room_p, room_q) =
            HasRoom-append b (c ∷ p) q (subst (λ s. HasRoom b (length s)) (sym whole) room) in
          subst (Whole b (c ∷ raw)) (sym (full_round f (c ∷ raw) last long)) (
            subst
              (λ s. Whole b s (encode_to_string (c ∷ p) ∷ encode_loop f (encode_to_string q) 400))
              whole
              (Whole-full b c p q (encode_loop f (encode_to_string q) 400)
                (AllBytes-take 300 (c ∷ raw) h) room_p full
                (Whole-encode_loop f (record b { buf = b.buf ++ c ∷ p }) q 400
                  (AllBytes-drop 300 (c ∷ raw) h) room_q (omega arith) (inr refl))))
    ]

-- The chunks of a response of bytes, given one by one to a new buffer that has no limit or whose
-- limit leaves room for the response and two bytes, make it return the response with the last
-- chunk, and not before; the buffer is as new again.
pub add_chunks-encode_sasl_response :
    (m : ℕ) (raw : Bytes)
    → AllBytes raw
    → (m ≡ 0) ⊎ (length raw + 2 ≤ m)
    → add_chunks (new_sasl_buffer m) (encode_sasl_response raw)
      ≡ some ((record { done = true; output = raw; err = none }, []), new_sasl_buffer m)
unfolding HasRoom Whole new_sasl_buffer encode_sasl_response
add_chunks-encode_sasl_response m [] h room = Whole-plus (record { max_length = m; buf = [] })
add_chunks-encode_sasl_response m (c ∷ raw) h room =
    Whole-encode_loop (suc (suc (length (encode_to_string (c ∷ raw)))))
      (record { max_length = m; buf = [] }) (c ∷ raw) 0 h (ground arith) (omega arith)
      (inl (omega arith))
