-- ===== src/Net/Pieces.antt =====
-- net_io.c: what a client sends arrives as the same frames, in whatever pieces it is read.
use rbfeeder.Base.{
  ℕ, zero, suc, ◌+◌, ◌≤◌, ◌<◌, List, [], ◌∷◌, ◌++◌, Bool, true, false, ◌&&◌, leb, ltb, ◌==◌, Option,
  none, some, length, take, drop, ◌≡◌, refl, sym, ap, ap₂, ◌∙◌, subst, arith, Bool-cases, inl, inr,
  length-append, length-drop, leb→le, le→leb, and_parts,
}
use rbfeeder.Net.Frames.{
  seek, body_length, frame_length, Turn, ended, skipped, handled, split_frame, turn_of_type,
  turn_after, turn_at, turn, Scanned, follow, scan_turns, scan, kept, read_piece, read_pieces,
}

-- A turn, with more data behind.
unfoldable extended : Turn → List ℕ → Turn
extended (ended bs) more = turn (bs ++ more)
extended (skipped bs) more = skipped (bs ++ more)
extended (handled frame bs) more = handled frame (bs ++ more)

pub frame_length-escape :
    (n b : ℕ) (bs : List ℕ)
    → (b == 0x1a) ≡ true
    → frame_length (suc n) (b ∷ bs) ≡ 2 + frame_length n (drop 1 bs)
unfolding frame_length
frame_length-escape n b bs e = rw e refl

pub frame_length-plain :
    (n b : ℕ) (bs : List ℕ)
    → (b == 0x1a) ≡ false
    → frame_length (suc n) (b ∷ bs) ≡ 1 + frame_length n bs
unfolding frame_length
frame_length-plain n b bs e = rw e refl

pub frame_length-append :
    (n : ℕ) (bs more : List ℕ)
    → frame_length n bs ≤ length bs
    → frame_length n (bs ++ more) ≡ frame_length n bs
frame_length-append zero bs more h = unfold frame_length in refl
frame_length-append (suc n) [] more h = unfold frame_length in omega arith
frame_length-append (suc n) (b ∷ []) more h = elim (Bool-cases (b == 0x1a)) [
  | inl e ↦ omega (arith, frame_length-escape n b [] e)
  | inr e ↦
      frame_length-plain n b more e
      ∙ ap (λ k. 1 + k) (frame_length-append n [] more (omega (arith, frame_length-plain n b [] e)))
      ∙ sym (frame_length-plain n b [] e)
]
frame_length-append (suc n) (b ∷ c ∷ bs) more h = elim (Bool-cases (b == 0x1a)) [
  | inl e ↦
      frame_length-escape n b (c ∷ bs ++ more) e
      ∙ ap (λ k. 2 + k)
          (frame_length-append n bs more (omega (arith, frame_length-escape n b (c ∷ bs) e)))
      ∙ sym (frame_length-escape n b (c ∷ bs) e)
  | inr e ↦
      frame_length-plain n b (c ∷ bs ++ more) e
      ∙ ap (λ k. 1 + k)
          (frame_length-append n (c ∷ bs) more (omega (arith, frame_length-plain n b (c ∷ bs) e)))
      ∙ sym (frame_length-plain n b (c ∷ bs) e)
]

take-append {ℓ} :
    {A : Type ℓ} (n : ℕ) (xs ys : List A) → n ≤ length xs → take n (xs ++ ys) ≡ take n xs
take-append zero xs ys h = refl
take-append (suc n) [] ys h = ground arith
take-append (suc n) (x ∷ xs) ys h = ap (λ t. x ∷ t) (take-append n xs ys (omega arith))

drop-append {ℓ} :
    {A : Type ℓ} (n : ℕ) (xs ys : List A) → n ≤ length xs → drop n (xs ++ ys) ≡ drop n xs ++ ys
drop-append zero xs ys h = refl
drop-append (suc n) [] ys h = ground arith
drop-append (suc n) (x ∷ xs) ys h = drop-append n xs ys (omega arith)

-- What the search finds, with more data behind.
unfoldable found_in : List ℕ → List ℕ → List ℕ → List ℕ
found_in [] more next = next
found_in (b ∷ found) more next = b ∷ found ++ more

seek-append : (bs more : List ℕ) → seek (bs ++ more) ≡ found_in (seek bs) more (seek more)
unfolding seek found_in
seek-append [] more = refl
seek-append (x ∷ bs) more = elim (Bool-cases (x == 0x1a)) [
  | inl e ↦ rw e refl
  | inr e ↦ rw e (seek-append bs more)
]

-- A turn on a frame, with more data behind.
frame-append :
    (t n : ℕ) (bs more : List ℕ)
    → body_length t ≡ some n
    → turn_after (t ∷ bs ++ more) ≡ extended (turn_after (t ∷ bs)) more
unfolding turn_after turn_of_type split_frame extended turn turn_at seek
frame-append t n bs more h = elim (Bool-cases (leb (frame_length n (t ∷ bs)) (length (t ∷ bs)))) [
  | inl whole ↦
      let fits = leb→le _ _ whole in
      let fits_more : leb (frame_length n (t ∷ bs)) (length (t ∷ bs ++ more)) ≡ true =
        le→leb _ _ (omega (arith, fits, length-append bs more)) in
      rw (h, frame_length-append n (t ∷ bs) more fits, whole, fits_more)
        (ap₂ handled (take-append _ (t ∷ bs) more fits) (drop-append _ (t ∷ bs) more fits))
  | inr partial ↦ rw (h, partial) (rw h refl)
]

after-append : (found more : List ℕ) → turn_after (found ++ more) ≡ extended (turn_after found) more
unfolding turn_after turn_of_type extended turn turn_at seek
after-append [] more = refl
after-append (t ∷ bs) more = by_type (body_length t) refl
  where
    by_type :
        (o : Option ℕ)
        → body_length t ≡ o
        → turn_after (t ∷ bs ++ more) ≡ extended (turn_after (t ∷ bs)) more
    by_type none e = rw e refl
    by_type (some n) e = frame-append t n bs more e

-- A turn with more data behind does the same, and if it ends it goes on from where it ended.
turn-append : (bs more : List ℕ) → turn (bs ++ more) ≡ extended (turn bs) more
unfolding turn turn_at extended found_in
turn-append bs more = by_found (seek bs) refl
  where
    by_found :
        (found : List ℕ)
        → seek bs ≡ found
        → turn (bs ++ more) ≡ extended (turn_at bs (seek bs)) more
    by_found [] e = rw e refl
    by_found (b ∷ found) e = rw (seek-append bs more, e) (after-append found more)

-- What a turn leaves is shorter, if it is not the last one.
unfoldable cost : Turn → ℕ
cost (ended bs) = 0
cost (skipped bs) = suc (length bs)
cost (handled frame bs) = suc (length bs)

length-seek : (bs : List ℕ) → length (seek bs) ≤ length bs
unfolding seek
length-seek [] = omega arith
length-seek (b ∷ bs) = elim (Bool-cases (b == 0x1a)) [
  | inl e ↦ rw e (omega arith)
  | inr e ↦ rw e (omega (arith, length-seek bs))
]

cost-after : (found : List ℕ) → cost (turn_after found) ≤ suc (length found)
unfolding turn_after turn_of_type split_frame cost
cost-after [] = omega arith
cost-after (t ∷ bs) = by_type (body_length t)
  where
    by_type : (o : Option ℕ) → cost (turn_of_type o (t ∷ bs)) ≤ suc (length (t ∷ bs))
    by_type none = omega arith
    by_type (some n) = elim (Bool-cases (leb (frame_length n (t ∷ bs)) (length (t ∷ bs)))) [
      | inl e ↦ rw e (omega (arith, length-drop (frame_length n (t ∷ bs)) (t ∷ bs)))
      | inr e ↦ rw e (omega arith)
    ]

cost-turn : (bs : List ℕ) → cost (turn bs) ≤ length bs
unfolding turn turn_at cost
cost-turn bs = by_found (seek bs) (length-seek bs)
  where
    by_found : (found : List ℕ) → length found ≤ length bs → cost (turn_at bs found) ≤ length bs
    by_found [] h = omega arith
    by_found (b ∷ found) h = omega (arith, h, cost-after found)

abbrev pub add_frame : List ℕ → Scanned → Scanned
add_frame frame s = record { frames = frame ∷ s.frames; left = s.left }

follow-cong :
    (t : Turn) (bound : ℕ) (f g : List ℕ → Scanned)
    → ((r : List ℕ) → length r < bound → f r ≡ g r)
    → cost t ≤ bound
    → follow t f ≡ follow t g
unfolding follow cost
follow-cong (ended r) bound f g same h = refl
follow-cong (skipped r) bound f g same h = same r (omega arith)
follow-cong (handled frame r) bound f g same h = ap (add_frame frame) (same r (omega arith))

-- More fuel than bytes changes nothing.
fuel_enough :
    (n m : ℕ) (bs : List ℕ) → length bs ≤ n → length bs ≤ m → scan_turns n bs ≡ scan_turns m bs
unfolding scan_turns follow turn turn_at seek
fuel_enough zero zero bs hn hm = refl
fuel_enough zero (suc m) [] hn hm = refl
fuel_enough zero (suc m) (b ∷ bs) hn hm = ground arith
fuel_enough (suc n) zero [] hn hm = refl
fuel_enough (suc n) zero (b ∷ bs) hn hm = ground arith
fuel_enough (suc n) (suc m) bs hn hm =
    follow-cong (turn bs) (length bs) (scan_turns n) (scan_turns m)
      (λ r h. fuel_enough n m r (omega arith) (omega arith)) (cost-turn bs)

pub scan-turn : (bs : List ℕ) → scan bs ≡ follow (turn bs) scan
unfolding scan scan_turns
scan-turn bs =
    fuel_enough (length bs) (suc (length bs)) bs (omega arith) (omega arith)
    ∙ follow-cong (turn bs) (length bs) (scan_turns (length bs)) (λ r. scan_turns (length r) r)
        (λ r h. fuel_enough (length bs) (length r) r (omega arith) (omega arith)) (cost-turn bs)

-- A scan, and the scan of what it leaves with more data behind.
abbrev pub then_scan : Scanned → List ℕ → Scanned
then_scan s more =
    let next = scan (s.left ++ more) in
    record { frames = s.frames ++ next.frames; left = next.left }

turn-scan-append :
    (t : Turn) (bound : ℕ) (more : List ℕ)
    → ((r : List ℕ) → length r < bound → scan (r ++ more) ≡ then_scan (scan r) more)
    → cost t ≤ bound
    → follow (extended t more) scan ≡ then_scan (follow t scan) more
unfolding extended follow cost
turn-scan-append (ended r) bound more same h = sym (scan-turn (r ++ more))
turn-scan-append (skipped r) bound more same h = same r (omega arith)
turn-scan-append (handled frame r) bound more same h = ap (add_frame frame) (same r (omega arith))

scan-append_within :
    (n : ℕ) (bs more : List ℕ) → length bs < n → scan (bs ++ more) ≡ then_scan (scan bs) more
scan-append_within zero bs more h = ground arith
scan-append_within (suc n) bs more h =
    rw (scan-turn (bs ++ more), turn-append bs more, scan-turn bs)
      (turn-scan-append (turn bs) (length bs) more
        (λ r k. scan-append_within n r more (omega arith)) (cost-turn bs))

pub scan-append : (bs more : List ℕ) → scan (bs ++ more) ≡ then_scan (scan bs) more
scan-append bs more = scan-append_within (suc (length bs)) bs more (omega arith)

append_nil {ℓ} : {A : Type ℓ} (xs : List A) → xs ++ [] ≡ xs
append_nil [] = refl
append_nil (x ∷ xs) = ap (λ t. x ∷ t) (append_nil xs)

-- What a scan leaves holds no frame.
IsLeft : List ℕ → Type 0
IsLeft bs = scan bs ≡ record { frames = []; left = bs }

ended-IsLeft : (bs r : List ℕ) → turn bs ≡ ended r → IsLeft r
unfolding IsLeft extended
ended-IsLeft bs r h =
    let again : turn r ≡ ended r =
      sym (ap turn (append_nil r))
      ∙ sym (ap (λ t. extended t []) h)
      ∙ sym (turn-append bs [])
      ∙ ap turn (append_nil bs)
      ∙ h in
    rw (scan-turn r, again) (unfold follow in refl)

LeavesNone : Scanned → Type 0
LeavesNone s = IsLeft s.left

scan-left_within : (n : ℕ) (bs : List ℕ) → length bs < n → LeavesNone (scan bs)
unfolding LeavesNone follow cost
scan-left_within zero bs h = ground arith
scan-left_within (suc n) bs h =
    subst LeavesNone (sym (scan-turn bs))
      (by_turn (turn bs) refl (cost-turn bs) (λ r k. scan-left_within n r (omega arith)))
  where
    by_turn :
        (t : Turn)
        → turn bs ≡ t
        → cost t ≤ length bs
        → ((r : List ℕ) → length r < length bs → LeavesNone (scan r))
        → LeavesNone (follow t scan)
    by_turn (ended r) e c same = ended-IsLeft bs r e
    by_turn (skipped r) e c same = same r (omega arith)
    by_turn (handled frame r) e c same = same r (omega arith)

-- The buffer has room for more before each read.
unfoldable pub has_room : List ℕ → List (List ℕ) → Bool
has_room left [] = true
has_room left (piece ∷ pieces) =
    ltb (length left) 1023 && has_room (scan (left ++ piece)).left pieces

unfoldable pub join : List (List ℕ) → List ℕ
join [] = []
join (piece ∷ pieces) = piece ++ join pieces

append_assoc {ℓ} : {A : Type ℓ} (xs ys zs : List A) → (xs ++ ys) ++ zs ≡ xs ++ (ys ++ zs)
append_assoc [] ys zs = refl
append_assoc (x ∷ xs) ys zs = ap (λ t. x ∷ t) (append_assoc xs ys zs)

kept-room : (left : List ℕ) → ltb (length left) 1023 ≡ true → kept left ≡ left
unfolding kept
kept-room left h = rw (leb_over h) refl
  where
    leb_over : ltb (length left) 1023 ≡ true → leb 1023 (length left) ≡ false
    leb_over h = ground arith

left_pieces :
    (left : List ℕ) (pieces : List (List ℕ))
    → IsLeft left
    → has_room left pieces ≡ true
    → read_pieces left pieces ≡ scan (left ++ join pieces)
unfolding read_pieces read_piece has_room join IsLeft LeavesNone
left_pieces left [] h room = rw (append_nil left) (sym h)
left_pieces left (piece ∷ pieces) h room =
    let rooms =
      and_parts (ltb (length left) 1023) (has_room (scan (left ++ piece)).left pieces) room in
    let rest =
      left_pieces (scan (left ++ piece)).left pieces
        (scan-left_within (suc (length (left ++ piece))) (left ++ piece) (omega arith)) rooms.1 in
    let first : read_piece left piece ≡ scan (left ++ piece) =
      ap (λ l. scan (l ++ piece)) (kept-room left rooms.0) in
    rw (first, rest)
      (sym (scan-append (left ++ piece) (join pieces))
        ∙ ap scan (append_assoc left piece (join pieces)))

-- Whatever the pieces in which a client's data is read, as long as the buffer is not full before a read,
-- the Beast mode of modesReadFromClient hands on the same frames as in one read, and leaves the same data
-- for later.
pub read_pieces-join :
    (pieces : List (List ℕ))
    → has_room [] pieces ≡ true
    → read_pieces [] pieces ≡ scan (join pieces)
read_pieces-join pieces room = left_pieces [] pieces (unfold IsLeft scan scan_turns in refl) room
