-- ===== src/Net/Reports.antt =====
-- net_io.c: reports that are written in the Beast format are read as they were.
use rbfeeder.Base.{
  ℕ, suc, ◌+◌, ◌*◌, ◌/◌, ◌%◌, ◌^◌, ◌<◌, List, [], ◌∷◌, ◌++◌, map, Bool, true, false, ◌&&◌, leb, ltb,
  ◌==◌, if◌then◌else◌, not, Option, none, some, length, take, drop, bit_and, ◌≡◌, refl, sym, ap,
  ap₂, ◌∙◌, subst, arith, tests, Bool-cases, inl, inr, and_parts, or_parts, ==_iff, ◌||◌, le→leb,
  length-append,
}
use rbfeeder.Base.Bits.Fields.{or_fields, and_mask}
use rbfeeder.Base.Ratio.{Ratio}
use rbfeeder.Net.Frames.{
  frame_length, body_length, handled, turn, turn_at, turn_after, turn_of_type, split_frame, seek,
  scan, scan_turns, follow, read_pieces,
}
use rbfeeder.Net.Beast.{
  put, put_all, beast_type, timestamp_bytes, signal_byte, beast_body, frame_of, write_beast_message,
  take_bytes, add_byte, RemoteReport, level_of, read_report, message_length, report_of_length,
  decode_bin_report,
}
use rbfeeder.Net.Pieces.{
  frame_length-escape, frame_length-plain, frame_length-append, scan-turn, add_frame, has_room,
  join, read_pieces-join,
}

take_bytes-put_all : (xs : List ℕ) → take_bytes (length xs) (put_all xs) ≡ xs
unfolding take_bytes put_all put
take_bytes-put_all [] = refl
take_bytes-put_all (x ∷ xs) = elim (Bool-cases (x == 0x1a)) [
  | inl e ↦ rw (e, e, take_bytes-put_all xs) refl
  | inr e ↦ rw (e, e, take_bytes-put_all xs) refl
]

frame_length-put_all : (xs : List ℕ) → frame_length (length xs) (put_all xs) ≡ length (put_all xs)
unfolding put_all put frame_length
frame_length-put_all [] = refl
frame_length-put_all (x ∷ xs) = elim (Bool-cases (x == 0x1a)) [
  | inl e ↦
      rw e (
        omega
          (arith, frame_length-escape (length xs) x (x ∷ put_all xs) e, frame_length-put_all xs))
  | inr e ↦
      rw e (omega (arith, frame_length-plain (length xs) x (put_all xs) e, frame_length-put_all xs))
]

take-length {ℓ} : {A : Type ℓ} (xs ys : List A) → take (length xs) (xs ++ ys) ≡ xs
take-length [] ys = refl
take-length (x ∷ xs) ys = ap (λ t. x ∷ t) (take-length xs ys)

drop-length {ℓ} : {A : Type ℓ} (xs ys : List A) → drop (length xs) (xs ++ ys) ≡ ys
drop-length [] ys = refl
drop-length (x ∷ xs) ys = drop-length xs ys

-- Bytes of a timestamp below 2 ^ 64, from the top.
add_byte-shift : (q r : ℕ) → q < 2 ^ 56 → r < 256 → add_byte q r ≡ q * 256 + r
unfolding add_byte
add_byte-shift q r hq hr =
    let wrap : q * 2 ^ 8 % 2 ^ 64 ≡ q * 2 ^ 8 = omega arith in
    let low : bit_and r 255 ≡ r = and_mask 8 r ∙ omega arith in
    rw (wrap, low) (or_fields 8 q r hr ∙ omega arith)

timestamp-again : (t : ℕ) → t < 2 ^ 48 → (read_report (timestamp_bytes t)).timestamp ≡ t
unfolding read_report timestamp_bytes
timestamp-again t h =
    let b5 : add_byte 0 (t / 2 ^ 40 % 256) ≡ t / 2 ^ 40 =
      add_byte-shift 0 (t / 2 ^ 40 % 256) (omega arith) (omega arith) ∙ omega arith in
    let b4 : add_byte (t / 2 ^ 40) (t / 2 ^ 32 % 256) ≡ t / 2 ^ 32 =
      add_byte-shift (t / 2 ^ 40) (t / 2 ^ 32 % 256) (omega arith) (omega arith) ∙ omega arith in
    let b3 : add_byte (t / 2 ^ 32) (t / 2 ^ 24 % 256) ≡ t / 2 ^ 24 =
      add_byte-shift (t / 2 ^ 32) (t / 2 ^ 24 % 256) (omega arith) (omega arith) ∙ omega arith in
    let b2 : add_byte (t / 2 ^ 24) (t / 2 ^ 16 % 256) ≡ t / 2 ^ 16 =
      add_byte-shift (t / 2 ^ 24) (t / 2 ^ 16 % 256) (omega arith) (omega arith) ∙ omega arith in
    let b1 : add_byte (t / 2 ^ 16) (t / 2 ^ 8 % 256) ≡ t / 2 ^ 8 =
      add_byte-shift (t / 2 ^ 16) (t / 2 ^ 8 % 256) (omega arith) (omega arith) ∙ omega arith in
    let b0 : add_byte (t / 2 ^ 8) (t % 256) ≡ t =
      add_byte-shift (t / 2 ^ 8) (t % 256) (omega arith) (omega arith) ∙ omega arith in
    rw (b5, b4, b3, b2, b1, b0) refl

-- The body of a message of the right length has the length that its type says.
length-body :
    (timestamp : ℕ) (level : Ratio) (msg : List ℕ)
    → length (beast_body timestamp level msg) ≡ 7 + length msg
unfolding beast_body timestamp_bytes
length-body timestamp level msg = omega arith

-- A message is one frame.
turn-message :
    (t : ℕ) (body more : List ℕ)
    → body_length t ≡ some (suc (length body))
    → (t == 0x1a) ≡ false
    → turn (0x1a ∷ t ∷ put_all body ++ more) ≡ handled (t ∷ put_all body) more
unfolding turn turn_at turn_after turn_of_type split_frame seek
turn-message t body more h e =
    let alone : frame_length (suc (length body)) (t ∷ put_all body) ≡ length (t ∷ put_all body) =
      frame_length-plain (length body) t (put_all body) e
      ∙ omega (arith, frame_length-put_all body) in
    let n : frame_length (suc (length body)) (t ∷ put_all body ++ more)
        ≡ length (t ∷ put_all body) =
      frame_length-append (suc (length body)) (t ∷ put_all body) more (omega (arith, alone))
      ∙ alone in
    let fits : leb (length (t ∷ put_all body)) (length (t ∷ put_all body ++ more)) ≡ true =
      le→leb _ _ (omega (arith, length-append (put_all body) more)) in
    rw (h, n, fits)
      (ap₂ handled (take-length (t ∷ put_all body) more) (drop-length (t ∷ put_all body) more))

-- The types of the Beast format: a frame of 8 bytes and the message.
record IsType (n t : ℕ) : Type 0 where
  frame_same : body_length t ≡ some (8 + n)
  plain : (t == 0x1a) ≡ false
  message_same :
      (mode_ac : Bool) → message_length mode_ac t ≡ (if n == 2 && not mode_ac then none else some n)

unfoldable pub is_message : ℕ → Bool
is_message n = n == 7 || (n == 14 || n == 2)

message-IsType : (n : ℕ) → is_message n ≡ true → (t : ℕ) × (beast_type n ≡ some t) × IsType n t
unfolding beast_type body_length message_length is_message
message-IsType n h = elim (or_parts (n == 7) (n == 14 || n == 2) h) [
  | inl e ↦
      subst (λ k. (t : ℕ) × (beast_type k ≡ some t) × IsType k t) (sym ((==_iff n 7).0 e))
        (0x32, refl, record { frame_same = refl; plain = refl; message_same = λ m. refl })
  | inr g ↦ elim (or_parts (n == 14) (n == 2) g) [
    | inl e ↦
        subst (λ k. (t : ℕ) × (beast_type k ≡ some t) × IsType k t) (sym ((==_iff n 14).0 e))
          (0x33, refl, record { frame_same = refl; plain = refl; message_same = λ m. refl })
    | inr e ↦
        subst (λ k. (t : ℕ) × (beast_type k ≡ some t) × IsType k t) (sym ((==_iff n 2).0 e))
          (0x31, refl, record { frame_same = refl; plain = refl; message_same = replies })
  ]
]
  where
    replies :
        (mode_ac : Bool) → message_length mode_ac 0x31 ≡ (if not mode_ac then none else some 2)
    replies true = refl
    replies false = refl

-- A report that can be sent: its timestamp has 48 bits, and its message one of the three lengths.
unfoldable pub is_sendable : RemoteReport → Bool
is_sendable r = ltb r.timestamp (2 ^ 48) && is_message (length r.msg)

-- The report that comes in: its level goes through a byte.
unfoldable pub received : RemoteReport → RemoteReport
received r = record r { level = level_of (signal_byte r.level) }

-- Whether a message is a reply of Mode A or C that is not wanted.
abbrev pub is_ignored : Bool → ℕ → Bool
is_ignored mode_ac n = n == 2 && not mode_ac

-- What a report is read as.
unfoldable pub handed_on : Bool → RemoteReport → Option RemoteReport
handed_on mode_ac r = if is_ignored mode_ac (length r.msg) then none else some (received r)

report-again :
    (r : RemoteReport)
    → r.timestamp < 2 ^ 48
    → read_report (beast_body r.timestamp r.level r.msg) ≡ received r
unfolding read_report beast_body timestamp_bytes received
report-again r h =
    ap (λ t. record r { timestamp = t; level = level_of (signal_byte r.level) })
      (timestamp-again r.timestamp h)

-- The bytes of a report, behind the byte of the type.
bytes-again :
    (r : RemoteReport)
    → r.timestamp < 2 ^ 48
    → read_report (take_bytes (7 + length r.msg) (put_all (beast_body r.timestamp r.level r.msg)))
      ≡ received r
bytes-again r h =
    let body = beast_body r.timestamp r.level r.msg in
    ap read_report (
      ap (λ n. take_bytes n (put_all body)) (sym (length-body r.timestamp r.level r.msg))
      ∙ take_bytes-put_all body)
    ∙ report-again r h

report-handed_on :
    (mode_ac : Bool) (r : RemoteReport)
    → r.timestamp < 2 ^ 48
    → report_of_length
        (if is_ignored mode_ac (length r.msg) then none else some (length r.msg))
        (put_all (beast_body r.timestamp r.level r.msg))
      ≡ handed_on mode_ac r
unfolding report_of_length handed_on
report-handed_on mode_ac r h = elim (Bool-cases (is_ignored mode_ac (length r.msg))) [
  | inl ignored ↦ rw ignored refl
  | inr wanted ↦ rw wanted (ap some (bytes-again r h))
]

-- A message that is written is scanned as a frame, and read as the report that it was written from.
message-again :
    (mode_ac : Bool) (r : RemoteReport)
    → is_sendable r ≡ true
    → (frame : List ℕ) × (write_beast_message r.timestamp r.level r.msg ≡ some (0x1a ∷ frame))
      × ((more : List ℕ) → turn (0x1a ∷ frame ++ more) ≡ handled frame more)
      × (decode_bin_report mode_ac frame ≡ handed_on mode_ac r)
unfolding write_beast_message frame_of decode_bin_report is_sendable
message-again mode_ac r h =
    let parts = and_parts (ltb r.timestamp (2 ^ 48)) (is_message (length r.msg)) h in
    let type = message-IsType (length r.msg) parts.1 in
    let body = beast_body r.timestamp r.level r.msg in
    let size : length body ≡ 7 + length r.msg = length-body r.timestamp r.level r.msg in
    (
      type.0 ∷ put_all body,
      rw type.1 refl,
      (λ more.
          turn-message type.0 body more (type.2.frame_same ∙ ap some (omega (arith, size)))
            type.2.plain),
      ap (λ o. report_of_length o (put_all body)) (type.2.message_same mode_ac)
          ∙ report-handed_on mode_ac r (omega (tests, parts.0)),
    )

unfoldable pub put_before : Option (List ℕ) → List ℕ → List ℕ
put_before none rest = rest
put_before (some bytes) rest = bytes ++ rest

-- The bytes of reports that are sent one after the other.
unfoldable pub stream : List RemoteReport → List ℕ
stream [] = []
stream (r ∷ reports) = put_before (write_beast_message r.timestamp r.level r.msg) (stream reports)

unfoldable pub are_sendable : List RemoteReport → Bool
are_sendable [] = true
are_sendable (r ∷ reports) = is_sendable r && are_sendable reports

scan-stream :
    (mode_ac : Bool) (reports : List RemoteReport)
    → are_sendable reports ≡ true
    → (map (decode_bin_report mode_ac) (scan (stream reports)).frames
        ≡ map (handed_on mode_ac) reports)
      × ((scan (stream reports)).left ≡ [])
unfolding stream put_before are_sendable
scan-stream mode_ac [] h = unfold scan scan_turns in (refl, refl)
scan-stream mode_ac (r ∷ reports) h =
    let parts = and_parts (is_sendable r) (are_sendable reports) h in
    let message = message-again mode_ac r parts.0 in
    let rest = scan-stream mode_ac reports parts.1 in
    let turned : scan (stream (r ∷ reports)) ≡ add_frame message.0 (scan (stream reports)) =
      ap (λ bytes. scan (put_before bytes (stream reports))) message.1
      ∙ scan-turn (0x1a ∷ message.0 ++ stream reports)
      ∙ ap (λ t. follow t scan) (message.2 (stream reports))
      ∙ unfold follow in refl in
    rw (turned, message.3) (ap (λ fs. handed_on mode_ac r ∷ fs) rest.0, rest.1)

-- Reports with timestamps below 2 ^ 48 and messages of 2, 7 or 14 bytes, written by writeBeastMessage one
-- after the other and read by modesReadFromClient in any pieces, as long as its buffer is not full before
-- a read, become one frame each, and nothing is left. Of a frame, decodeBinMessage reads the timestamp and
-- the message as they were, and the level from the byte that it was written as; but it hands on a message
-- of 2 bytes only while Modes.mode_ac is set.
pub reports-received :
    (mode_ac : Bool) (reports : List RemoteReport) (pieces : List (List ℕ))
    → are_sendable reports ≡ true
    → join pieces ≡ stream reports
    → has_room [] pieces ≡ true
    → (map (decode_bin_report mode_ac) (read_pieces [] pieces).frames
        ≡ map (handed_on mode_ac) reports)
      × ((read_pieces [] pieces).left ≡ [])
reports-received mode_ac reports pieces h same room =
    rw (read_pieces-join pieces room, same) (scan-stream mode_ac reports h)
