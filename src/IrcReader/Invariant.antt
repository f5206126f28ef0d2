-- ===== src/IrcReader/Invariant.antt =====
-- The indices of the buffer, and what a round of the loop keeps.
use irc_go.Prelude.{
  ℕ, ◌+◌, ◌-◌, ◌/◌, ◌≤◌, ◌<◌, Bool, true, false, ◌&&◌, ◌++◌, none, inl, inr, ◌≡◌, ◌≢◌, refl, sym,
  ap, subst, ◌∙◌, arith, Bytes, length, length-append, length-take, length-drop, take, drop, cut,
  contains, contains-append, contains-of-cut, ltb, ◌==◌, ==_iff, Bool-cases, Option-cases,
}
use irc_go.IrcReader.{
  Reader, initialize, slice, copy, zeros, find_line, is_full, new_len, make_buf, make_room,
  append_read,
}
use irc_go.IrcReader.Rounding.{le-round_up_to_power_of_two}
use irc_go.IrcReader.Slices.{
  slice_split, length-slice, length-copy, length-zeros, take-copy, take_read, take_front,
}

-- `start`, `searchFrom` and `end` are in order within the buffer, the buffer is within its limit,
-- and no `\n` stands between `start` and `searchFrom`.
pub record IsReader (r : Reader) : Type 0 where
  pub start_le : r.start ≤ r.search_from
  pub search_le : r.search_from ≤ r.end
  pub end_le : r.end ≤ length r.buf
  pub size_le : length r.buf ≤ r.max_size
  pub searched : contains b'\n' (slice r.buf r.start r.search_from) ≡ false
  pub two_le : 2 ≤ r.initial_size
  pub initial_le : r.initial_size ≤ r.max_size

-- The bytes that were read and not yet consumed.
abbrev pub pending : Reader → Bytes
pending r = slice r.buf r.start r.end

pub initialize-IsReader : (i m : ℕ) → 2 ≤ i → i ≤ m → IsReader (initialize i m)
unfolding initialize contains
initialize-IsReader i m h k = ground arith

module _ (r : Reader) (v : IsReader r) where
  pub length-pending : length (pending r) ≡ r.end - r.start
  length-pending =
      length-slice r.buf r.start r.end (omega (arith, v.start_le, v.search_le)) v.end_le

  pub pending_split :
      pending r ≡ slice r.buf r.start r.search_from ++ slice r.buf r.search_from r.end
  pending_split = slice_split r.buf r.start r.search_from r.end v.start_le v.search_le

  -- Without a line in the buffer there is no `\n` in it.
  pub find_line-none : find_line r ≡ none → contains b'\n' (pending r) ≡ false
  unfolding find_line
  find_line-none h = elim (Option-cases (cut b'\n' (slice r.buf r.search_from r.end))) [
    | inl n ↦
        rw
          (
            pending_split,
            contains-append b'\n' (slice r.buf r.start r.search_from)
                (slice r.buf r.search_from r.end),
            v.searched,
          )
          (contains-of-cut b'\n' (slice r.buf r.search_from r.end) n)
    | inr (p, e) ↦ cc (rw (e, find_line) at h)
  ]

  new_len_bounds : length r.buf < r.max_size → (length r.buf < new_len r) × (new_len r ≤ r.max_size)
  unfolding new_len
  new_len_bounds h = ground (arith, le-round_up_to_power_of_two (length r.buf + 1), v.initial_le)

-- What holds of the buffer that is read into.
record IsRoom (r : Reader) (b : Bytes) : Type 0 where
  fits : length b ≤ r.max_size
  holds : take (length (pending r)) b ≡ pending r
  free : length (pending r) < length b

abbrev should_grow : Reader → Bool
should_grow r =
    ltb (length r.buf) r.max_size && ltb (length r.buf - (r.end - r.start)) (r.initial_size / 2)

module _ (r : Reader) (v : IsReader r) where
  grown-IsRoom :
      should_grow r ≡ true → IsRoom r (copy (zeros (new_len r)) (slice r.buf r.start r.end))
  grown-IsRoom g =
      let short : length r.buf < r.max_size = ground arith in
      let (more, fits) = new_len_bounds r v short in
      let n = length-pending r v in
      let size : length (copy (zeros (new_len r)) (pending r)) ≡ new_len r =
        length-copy (zeros (new_len r)) (pending r) ∙ length-zeros (new_len r) in
      record {
        fits = omega arith;
        holds =
            take-copy (zeros (new_len r)) (pending r)
              (omega (arith, length-zeros (new_len r), v.end_le));
        free = omega (arith, v.end_le);
      }

  slid-IsRoom : r.start ≢ 0 → IsRoom r (copy r.buf (slice r.buf r.start r.end))
  slid-IsRoom moved =
      let n = length-pending r v in
      let size : length (copy r.buf (pending r)) ≡ length r.buf = length-copy r.buf (pending r) in
      record {
        fits = omega (arith, v.size_le);
        holds = take-copy r.buf (pending r) (omega (arith, v.end_le));
        free = omega (arith, v.end_le, v.start_le, v.search_le);
      }

  kept-IsRoom : should_grow r ≡ false → r.start ≡ 0 → is_full r ≡ false → IsRoom r r.buf
  unfolding is_full
  kept-IsRoom g z h =
      let n = length-pending r v in
      record {
        fits = v.size_le;
        holds = rw n (rw z);
        free = ground (arith, v.end_le, v.size_le, v.two_le, n);
      }

  make_buf-IsRoom : is_full r ≡ false → IsRoom r (make_buf r)
  unfolding make_buf
  make_buf-IsRoom h = elim (Bool-cases (should_grow r)) [
    | inl g ↦ rw g (grown-IsRoom g)
    | inr g ↦ elim (Bool-cases (r.start == 0)) [
      | inl z ↦ rw (g, z) (kept-IsRoom g ((==_iff r.start 0).0 z) h)
      | inr z ↦ rw (g, z) (slid-IsRoom (λ e. ground arith))
    ]
  ]

slice_front : (b : Bytes) (i k : ℕ) → i ≡ 0 → slice b i k ≡ take k b
slice_front b i k z = ap (λ j. take (k - j) (drop j b)) z ∙ ap (λ j. take j b) (omega arith)

-- Room is made in front of the next read: the pending bytes stay, and there is free space.
pub make_room_facts :
    (r : Reader)
    → IsReader r
    → is_full r ≡ false
    → contains b'\n' (pending r) ≡ false
    → IsReader (make_room r)
      × (pending (make_room r) ≡ pending r)
      × ((make_room r).end < length (make_room r).buf)
unfolding make_room
make_room_facts r v h c =
    let room = make_buf-IsRoom r v h in
    let n = length-pending r v in
    let same : take (r.end - r.start) (make_buf r) ≡ pending r =
      subst (λ k. take k (make_buf r) ≡ pending r) n room.holds in
    let front : slice (make_buf r) 0 (r.end - r.start) ≡ pending r =
      slice_front (make_buf r) 0 (r.end - r.start) refl ∙ same in
    (
      record {
        start_le = omega arith;
        search_le = omega arith;
        end_le = omega (arith, room.free);
        size_le = room.fits;
        searched = rw front c;
        two_le = v.two_le;
        initial_le = v.initial_le;
      },
      front,
      omega (arith, room.free),
    )

-- What was read stands behind the pending bytes, and the search goes on where it stopped.
pub append_read_facts :
    (r : Reader) (got : Bytes)
    → IsReader r
    → r.start ≡ 0
    → r.search_from ≡ r.end
    → r.end + length got ≤ length r.buf
    → IsReader (append_read r got) × (pending (append_read r got) ≡ pending r ++ got)
unfolding append_read
append_read_facts r got v z s l =
    let b : Bytes = take r.end r.buf ++ copy (drop r.end r.buf) got in
    let n : length (take r.end r.buf) ≡ r.end = omega (arith, length-take r.end r.buf, v.end_le) in
    let size : length b ≡ length r.buf = omega (
      arith,
      length-append (take r.end r.buf) (copy (drop r.end r.buf) got),
      length-copy (drop r.end r.buf) got,
      length-drop r.end r.buf,
      v.end_le,
    ) in
    let old : slice b r.start r.search_from ≡ slice r.buf r.start r.search_from =
      slice_front b r.start r.search_from z
      ∙ ap (λ k. take k b) s
      ∙ take_front (take r.end r.buf) n (copy (drop r.end r.buf) got)
      ∙ ap (λ k. take k r.buf) (sym s)
      ∙ sym (slice_front r.buf r.start r.search_from z) in
    (
      record {
        start_le = v.start_le;
        search_le = omega (arith, v.search_le);
        end_le = omega arith;
        size_le = omega (arith, v.size_le);
        searched = rw old v.searched;
        two_le = v.two_le;
        initial_le = v.initial_le;
      },
      slice_front b r.start (r.end + length got) z
          ∙ take_read r.buf got r.end l
          ∙ ap (λ x. x ++ got) (sym (slice_front r.buf r.start r.end z)),
    )
