-- ===== src/Net/Frames.antt =====
-- net_io.c: the Beast mode of `modesReadFromClient`, from the data of a client that is not processed yet
-- to frames. A pointer to the data is the list from it on.
use rbfeeder.Base.{
  ℕ, zero, suc, ◌+◌, List, [], ◌∷◌, ◌++◌, leb, ◌==◌, if◌then◌else◌, Option, none, some, length,
  take, drop,
}

-- `memchr(som, 0x1a, eod - som)`; the empty list is NULL.
unfoldable pub seek : List ℕ → List ℕ
seek [] = []
seek (b ∷ bs) = let rest = seek bs in if b == 0x1a then b ∷ bs else rest

-- The bytes of a frame without escapes, by the byte of its type.
unfoldable pub body_length : ℕ → Option ℕ
body_length t =
    if t == 0x31
    then some 10
    else if t == 0x32
    then some 15
    else if t == 0x33
    then some 22
    else if t == 0x34
    then some 22
    else if t == 0x35
    then some 22
    else none

-- `eom` from a pointer with `n` bytes to go: an escape byte makes the frame one byte longer.
unfoldable pub frame_length : ℕ → List ℕ → ℕ
frame_length zero bs = 0
frame_length (suc n) [] = suc n
frame_length (suc n) (b ∷ bs) =
    let escaped = frame_length n (drop 1 bs) in
    let plain = frame_length n bs in if b == 0x1a then 2 + escaped else 1 + plain

-- What a turn of the loop does: it ends, with `som`; it goes on from there; or it hands a frame, from the
-- byte of its type on, to the handler, and goes on.
pub data Turn : Type 0 where
  ended skipped : List ℕ → Turn
  handled : List ℕ → List ℕ → Turn

unfoldable pub split_frame : List ℕ → ℕ → Turn
split_frame bs n = if leb n (length bs) then handled (take n bs) (drop n bs) else ended (0x1a ∷ bs)

unfoldable pub turn_of_type : Option ℕ → List ℕ → Turn
turn_of_type none bs = skipped bs
turn_of_type (some n) bs = split_frame bs (frame_length n bs)

unfoldable pub turn_after : List ℕ → Turn
turn_after [] = ended (0x1a ∷ [])
turn_after (t ∷ bs) = turn_of_type (body_length t) (t ∷ bs)

-- Without an escape byte nothing is consumed.
unfoldable pub turn_at : List ℕ → List ℕ → Turn
turn_at bs [] = ended bs
turn_at bs (b ∷ found) = turn_after found

unfoldable pub turn : List ℕ → Turn
turn bs = turn_at bs (seek bs)

-- The frames in order, and the data that is left for the next read.
pub record Scanned : Type 0 where
  pub frames : List (List ℕ)
  pub left : List ℕ

unfoldable pub follow : Turn → (List ℕ → Scanned) → Scanned
follow (ended bs) scan = record { frames = []; left = bs }
follow (skipped bs) scan = scan bs
follow (handled frame bs) scan = record { frames = frame ∷ (scan bs).frames; left = (scan bs).left }

-- The loop, on fuel.
unfoldable pub scan_turns : ℕ → List ℕ → Scanned
scan_turns zero bs = record { frames = []; left = bs }
scan_turns (suc n) bs = follow (turn bs) (scan_turns n)

-- The scan of what is in the buffer of a client.
unfoldable pub scan : List ℕ → Scanned
scan bs = scan_turns (length bs) bs

-- A client's buffer has room for 1024 bytes, of which one is kept for a NUL. If it is full, what is in it
-- is dropped.
unfoldable pub kept : List ℕ → List ℕ
kept bs = if leb 1023 (length bs) then [] else bs

-- One read: the new data is put behind what is left.
unfoldable pub read_piece : List ℕ → List ℕ → Scanned
read_piece left piece = scan (kept left ++ piece)

-- Reads one after the other.
unfoldable pub read_pieces : List ℕ → List (List ℕ) → Scanned
read_pieces left [] = record { frames = []; left = left }
read_pieces left (piece ∷ pieces) =
    let first = read_piece left piece in
    let rest = read_pieces first.left pieces in
    record { frames = first.frames ++ rest.frames; left = rest.left }
