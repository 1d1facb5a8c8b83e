-- ===== src/Net/Lines.antt =====
-- net_io.c: a line that is sent in the AVR format is read as the message that it was written from.
use rbfeeder.Base.{
  ℕ, zero, suc, ◌+◌, ◌*◌, ◌/◌, ◌%◌, ◌<◌, List, [], ◌∷◌, Bool, true, false, not, ◌&&◌, ltb, ◌==◌,
  some, length, drop, ◌≡◌, refl, sym, ap, arith, tests, Bool-cases, inl, inr, and_parts, or_parts,
  ==_iff, ◌≢◌, ◌++◌, ◌∙◌, ◌||◌, leb, if◌then◌else◌, Option, none, take,
}
use rbfeeder.Base.Int.{pos}
use rbfeeder.Base.Ratio.{whole}
use rbfeeder.Net.Reports.{is_message, is_ignored}
use rbfeeder.ModeS.Message.{Header}
use rbfeeder.Net.Outputs.{is_mlat, is_doubtful, send_raw}
use rbfeeder.Net.Avr.{
  hex_digit, hex_byte, hex_bytes, hex_digits, top_digits, avr_start, is_space, trim_left,
  keep_if_any, trim_right, hex_digit_val, both, read_hex, Line, line_of, read_line, line_by_start,
  ends_line, decode_hex_line,
}

digit-again : (d : ℕ) → d < 16 → hex_digit_val (hex_digit d) ≡ some d
unfolding hex_digit_val hex_digit
digit-again d h = ground arith

ends-cons : (c : ℕ) (r : List ℕ) → ends_line r ≡ true → ends_line (c ∷ r) ≡ true
unfolding ends_line
ends-cons c [] h = ground arith
ends-cons c (d ∷ r) h = h

ends-hex_bytes : (msg rest : List ℕ) → ends_line rest ≡ true → ends_line (hex_bytes msg rest) ≡ true
unfolding hex_bytes hex_byte
ends-hex_bytes [] rest h = h
ends-hex_bytes (ch ∷ msg) rest h =
    ends-cons (hex_digit (ch / 16)) (hex_digit (ch % 16) ∷ hex_bytes msg rest)
      (ends-cons (hex_digit (ch % 16)) (hex_bytes msg rest) (ends-hex_bytes msg rest h))

ends-hex_digits :
    (n t : ℕ) (rest : List ℕ) → ends_line rest ≡ true → ends_line (hex_digits n t rest) ≡ true
unfolding hex_digits
ends-hex_digits zero t rest h = h
ends-hex_digits (suc n) t rest h =
    ends-hex_digits n (t / 16) (hex_digit (t % 16) ∷ rest) (ends-cons (hex_digit (t % 16)) rest h)

length-hex_bytes : (msg rest : List ℕ) → length (hex_bytes msg rest) ≡ 2 * length msg + length rest
unfolding hex_bytes hex_byte
length-hex_bytes [] rest = omega arith
length-hex_bytes (ch ∷ msg) rest = omega (arith, length-hex_bytes msg rest)

trim_right-ended : (line : List ℕ) → ends_line line ≡ true → trim_right line ≡ line
unfolding ends_line trim_right keep_if_any is_space
trim_right-ended [] h = ground arith
trim_right-ended (ch ∷ []) h = rw ((==_iff ch 0x3b).0 h) refl
trim_right-ended (ch ∷ c ∷ chs) h = ap (keep_if_any ch) (trim_right-ended (c ∷ chs) h)

unfoldable pub are_bytes : List ℕ → Bool
are_bytes [] = true
are_bytes (ch ∷ chs) = ltb ch 256 && are_bytes chs

read_hex-again :
    (msg rest : List ℕ)
    → are_bytes msg ≡ true
    → read_hex (length msg) (hex_bytes msg rest) ≡ some msg
unfolding read_hex hex_bytes hex_byte are_bytes
read_hex-again [] rest h = refl
read_hex-again (ch ∷ msg) rest h =
    let parts = and_parts (ltb ch 256) (are_bytes msg) h in
    let byte : ch < 256 = omega (tests, parts.0) in
    let sum : 16 * (ch / 16) + ch % 16 ≡ ch = omega arith in
    rw
      (
        digit-again (ch / 16) (omega (arith, byte)),
        digit-again (ch % 16) (omega arith),
        read_hex-again msg rest parts.1,
      )
      (unfold both in ap (λ c. some (c ∷ msg)) sum)

differs : (a b : ℕ) → a ≢ b → (a == b) ≡ false
differs a b h = ground arith

-- What a line is read as.
unfoldable pub line_handed_on : Bool → List ℕ → Option Line
line_handed_on mode_ac msg =
    if is_ignored mode_ac (length msg)
    then none
    else some record { level = whole (pos 0); bytes = msg }

-- The line of a message, in which the digits begin at `skip`.
read_line-again :
    (mode_ac : Bool) (skip : ℕ) (hex msg : List ℕ)
    → drop skip hex ≡ hex_bytes msg (0x3b ∷ [])
    → length hex ≡ skip + 1 + 2 * length msg
    → is_message (length msg) ≡ true
    → are_bytes msg ≡ true
    → read_line mode_ac (whole (pos 0)) skip hex ≡ line_handed_on mode_ac msg
unfolding read_line line_of is_message line_handed_on
read_line-again mode_ac skip hex msg digits size h bytes = elim (or_parts _ _ h) [
  | inl e ↦
      let k : length msg ≡ 7 = (==_iff (length msg) 7).0 e in
      let two = differs (length hex) (skip + 1 + 4) (omega (arith, size, k)) in
      let seven = (==_iff (length hex) (skip + 1 + 14)).1 (omega (arith, size, k)) in
      rw (two, seven, digits, differs (length msg) 2 (omega (arith, k)))
        (rw (sym k) (ap (line_of (whole (pos 0))) (read_hex-again msg (0x3b ∷ []) bytes)))
  | inr g ↦ elim (or_parts _ _ g) [
    | inl e ↦
        let k : length msg ≡ 14 = (==_iff (length msg) 14).0 e in
        let two = differs (length hex) (skip + 1 + 4) (omega (arith, size, k)) in
        let seven = differs (length hex) (skip + 1 + 14) (omega (arith, size, k)) in
        let fourteen = (==_iff (length hex) (skip + 1 + 28)).1 (omega (arith, size, k)) in
        rw (two, seven, fourteen, digits, differs (length msg) 2 (omega (arith, k)))
          (rw (sym k) (ap (line_of (whole (pos 0))) (read_hex-again msg (0x3b ∷ []) bytes)))
    | inr e ↦ reply mode_ac ((==_iff (length msg) 2).0 e)
  ]
]
  where
    reply :
        (mode_ac : Bool)
        → length msg ≡ 2
        → read_line mode_ac (whole (pos 0)) skip hex ≡ line_handed_on mode_ac msg
    reply true k =
        let two = (==_iff (length hex) (skip + 1 + 4)).1 (omega (arith, size, k)) in
        rw (two, digits, (==_iff (length msg) 2).1 k)
          (rw (sym k) (ap (line_of (whole (pos 0))) (read_hex-again msg (0x3b ∷ []) bytes)))
    reply false k =
        let seven = differs (length hex) (skip + 1 + 14) (omega (arith, size, k)) in
        let fourteen = differs (length hex) (skip + 1 + 28) (omega (arith, size, k)) in
        rw
          (
            (==_iff (length hex) (skip + 1 + 4)).1 (omega (arith, size, k)),
            seven,
            fourteen,
            (==_iff (length msg) 2).1 k,
          )
          refl

line-again :
    (mode_ac mlat : Bool) (timestamp : ℕ) (msg : List ℕ)
    → is_message (length msg) ≡ true
    → are_bytes msg ≡ true
    → decode_hex_line mode_ac (avr_start mlat timestamp (hex_bytes msg (0x3b ∷ [])))
      ≡ line_handed_on mode_ac msg
unfolding decode_hex_line line_by_start avr_start trim_left is_space
line-again mode_ac mlat timestamp msg h bytes =
    let ends = ends-hex_bytes msg (0x3b ∷ []) (unfold ends_line in refl) in
    let size = length-hex_bytes msg (0x3b ∷ []) in
    elim (Bool-cases (mlat && not (timestamp == 0))) [
      | inl e ↦
          let digits = hex_digits 12 (top_digits 4 timestamp) (hex_bytes msg (0x3b ∷ [])) in
          let whole_line : ends_line (0x40 ∷ digits) ≡ true =
            ends-cons 0x40 digits
              (ends-hex_digits 12 (top_digits 4 timestamp) (hex_bytes msg (0x3b ∷ [])) ends) in
          rw (e, trim_right-ended (0x40 ∷ digits) whole_line, whole_line)
            (read_line-again mode_ac 13 (0x40 ∷ digits) msg (unfold hex_digits in refl)
              (unfold hex_digits in omega (arith, size)) h bytes)
      | inr e ↦
          let whole_line = ends-cons 0x2a (hex_bytes msg (0x3b ∷ [])) ends in
          rw (e, trim_right-ended (0x2a ∷ hex_bytes msg (0x3b ∷ [])) whole_line, whole_line)
            (read_line-again mode_ac 1 (0x2a ∷ hex_bytes msg (0x3b ∷ [])) msg refl
              (omega (arith, size)) h bytes)
    ]

hex_bytes-append :
    (msg rest more : List ℕ) → hex_bytes msg (rest ++ more) ≡ hex_bytes msg rest ++ more
unfolding hex_bytes hex_byte
hex_bytes-append [] rest more = refl
hex_bytes-append (ch ∷ msg) rest more =
    ap (λ t. hex_digit (ch / 16) ∷ hex_digit (ch % 16) ∷ t) (hex_bytes-append msg rest more)

avr_start-append :
    (mlat : Bool) (timestamp : ℕ) (rest more : List ℕ)
    → avr_start mlat timestamp (rest ++ more) ≡ avr_start mlat timestamp rest ++ more
unfolding avr_start hex_digits
avr_start-append mlat timestamp rest more = elim (Bool-cases (mlat && not (timestamp == 0))) [
  | inl e ↦ rw e refl
  | inr e ↦ rw e refl
]

-- The reason for which modesSendRawOutput sends nothing.
abbrev pub is_filtered : Header → Option Bool → Bool
is_filtered h aircraft = is_mlat h || (leb 2 h.correctedbits || is_doubtful aircraft h)

-- Of a message of 2, 7 or 14 bytes that is not from multilateration, has fewer than two corrected bits, and
-- is reliable, or of a reliable aircraft or of none, modesSendRawOutput writes a line, with or without a
-- timestamp, and a line feed. From the line decodeHexMessage reads the bytes of the message; but it hands on
-- a message of 2 bytes only while Modes.mode_ac is set.
pub sent_line-again :
    (mode_ac mlat : Bool) (h : Header) (aircraft : Option Bool)
    → is_filtered h aircraft ≡ false
    → is_message (length (take (h.msgbits / 8) h.msg)) ≡ true
    → are_bytes (take (h.msgbits / 8) h.msg) ≡ true
    → (line : List ℕ) × (send_raw mlat h aircraft ≡ some (line ++ (0x0a ∷ [])))
      × (decode_hex_line mode_ac line ≡ line_handed_on mode_ac (take (h.msgbits / 8) h.msg))
unfolding send_raw
sent_line-again mode_ac mlat h aircraft passes size bytes =
    let msg = take (h.msgbits / 8) h.msg in
    (
      avr_start mlat h.timestamp_msg (hex_bytes msg (0x3b ∷ [])),
      rw passes (
          ap some (
            ap (avr_start mlat h.timestamp_msg) (hex_bytes-append msg (0x3b ∷ []) (0x0a ∷ []))
            ∙ avr_start-append mlat h.timestamp_msg (hex_bytes msg (0x3b ∷ [])) (0x0a ∷ []))),
      line-again mode_ac mlat h.timestamp_msg msg size bytes,
    )
