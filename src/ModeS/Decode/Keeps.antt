-- ===== src/ModeS/Decode/Keeps.antt =====
-- What the decoding of the fields leaves as it was in the header.
use mathlib.Core.Bool.{false≢true}
use rbfeeder.Base.{ℕ, List, [], ◌∷◌, Bool, true, false, ◌&&◌, ◌||◌, ltb, leb, ◌==◌, if◌then◌else◌}
use rbfeeder.Base.{◌≡◌, refl, ◌∙◌, Bool-cases, inl, inr}
use rbfeeder.ModeS.Bits.{getbit, getbits}
use rbfeeder.ModeS.Message.{Message, Header, Raw, Data}
use rbfeeder.ModeS.Squitter.Address.{set_imf, set_imf_at, imf_header}
use rbfeeder.ModeS.Squitter.Ident.{
  decode_ident_and_category, decode_test_message, decode_aircraft_status,
}
use rbfeeder.ModeS.Squitter.Velocity.{decode_airborne_velocity}
use rbfeeder.ModeS.Squitter.Place.{decode_surface_position, decode_airborne_position}
use rbfeeder.ModeS.Squitter.Status.{decode_target_status, decode_operational_status}
use rbfeeder.ModeS.Squitter.{decode_by_metype, decode_by_control, decode_extended_squitter}
use rbfeeder.ModeS.Decode.{decode_fields}
use rbfeeder.ModeS.Decode.Fields.{
  is_any, take_address, take_altitude, take_capability, take_control, take_flight_status,
  take_identity, take_payloads, take_acas,
}

-- Both branches keep what is looked at.
if_keeps :
    {A : Type 0} {X : Type 0} (f : A → X) (b : Bool) (x y : A) {z : X}
    → f x ≡ z
    → f y ≡ z
    → f (if b then x else y) ≡ z
if_keeps f true x y hx hy = hx
if_keeps f false x y hx hy = hy

-- A part of the header, that neither `reliable` nor, where it is looked for, the IMF bit changes.
module _ {X : Type 0} (f : Header → X)
    (unreliable : (h : Header) → f (record h { reliable = false }) ≡ f h) where
  abbrev part : Message → X
  part mm = f mm.header

  module _ (check_imf : Bool) (imf : check_imf ≡ true → (h : Header) → f (imf_header h) ≡ f h) where
    set_imf_at-keeps : (bit : ℕ) (mm : Message) → part (set_imf_at check_imf bit mm) ≡ part mm
    unfolding set_imf_at set_imf
    set_imf_at-keeps bit mm = at check_imf imf
      where
        at :
            (c : Bool)
            → (c ≡ true → (h : Header) → f (imf_header h) ≡ f h)
            → part (
                if c && getbit mm.raw.me bit == 1
                then record mm { header = imf_header mm.header }
                else mm)
              ≡ part mm
        at false i = refl
        at true i =
            if_keeps part (getbit mm.raw.me bit == 1) (record mm { header = imf_header mm.header })
              mm (i refl mm.header) refl

    velocity-keeps : (mm : Message) → part (decode_airborne_velocity mm check_imf) ≡ part mm
    unfolding decode_airborne_velocity
    velocity-keeps mm = elim (Bool-cases (ltb mesub 1 || ltb 4 mesub)) [
      | inl none ↦ rw none refl
      | inr some ↦
          rw some (set_imf_at-keeps 9 (record mm { raw = record mm.raw { mesub = mesub } }))
    ]
      where
        mesub : ℕ
        mesub = getbits mm.raw.me 6 8

    surface-keeps : (mm : Message) → part (decode_surface_position mm check_imf) ≡ part mm
    unfolding decode_surface_position
    surface-keeps mm = set_imf_at-keeps 21 _

    airborne-keeps : (mm : Message) → part (decode_airborne_position mm check_imf) ≡ part mm
    unfolding decode_airborne_position
    airborne-keeps mm = set_imf_at-keeps 8 _

    test-keeps : (mm : Message) → part (decode_test_message mm) ≡ part mm
    unfolding decode_test_message
    test-keeps mm = elim (Bool-cases (getbits mm.raw.me 6 8 == 7)) [
      | inl e ↦ rw e refl
      | inr e ↦ rw e refl
    ]

    status-keeps : (mm : Message) → part (decode_aircraft_status mm check_imf) ≡ part mm
    unfolding decode_aircraft_status
    status-keeps mm = elim (Bool-cases (getbits mm.raw.me 6 8 == 1)) [
      | inl e ↦ rw e (set_imf_at-keeps 56 _)
      | inr e ↦ rw e refl
    ]

    target-keeps : (mm : Message) → part (decode_target_status mm check_imf) ≡ part mm
    unfolding decode_target_status
    target-keeps mm = elim (Bool-cases (getbits mm.raw.me 6 7 == 0 && getbit mm.raw.me 11 == 0)) [
      | inl e ↦ rw e (set_imf_at-keeps 51 _)
      | inr e ↦ elim (Bool-cases (getbits mm.raw.me 6 7 == 1)) [
        | inl d ↦ rw (e, d) (set_imf_at-keeps 51 _)
        | inr d ↦ rw (e, d) (set_imf_at-keeps 51 _)
      ]
    ]

    operational-keeps : (mm : Message) → part (decode_operational_status mm check_imf) ≡ part mm
    unfolding decode_operational_status
    operational-keeps mm =
        elim (Bool-cases (getbits mm.raw.me 6 8 == 0 || getbits mm.raw.me 6 8 == 1)) [
          | inl e ↦ rw e (set_imf_at-keeps 56 _)
          | inr e ↦ rw e (set_imf_at-keeps 56 _)
        ]

    pub metype-keeps : (mm : Message) → part (decode_by_metype mm check_imf) ≡ part mm
    unfolding decode_by_metype decode_ident_and_category
    metype-keeps mm = elim (Bool-cases (leb 1 t && leb t 4)) [
      | inl y0 ↦ rw (y0) (refl)
      | inr n0 ↦ elim (Bool-cases (t == 19)) [
        | inl y1 ↦ rw (n0, y1) (velocity-keeps mm)
        | inr n1 ↦ elim (Bool-cases (leb 5 t && leb t 8)) [
          | inl y2 ↦ rw (n0, n1, y2) (surface-keeps mm)
          | inr n2 ↦ elim (Bool-cases (leb t 18)) [
            | inl y3 ↦ rw (n0, n1, n2, y3) (airborne-keeps mm)
            | inr n3 ↦ elim (Bool-cases (leb 20 t && leb t 22)) [
              | inl y4 ↦ rw (n0, n1, n2, n3, y4) (airborne-keeps mm)
              | inr n4 ↦ elim (Bool-cases (t == 23)) [
                | inl y5 ↦ rw (n0, n1, n2, n3, n4, y5) (test-keeps mm)
                | inr n5 ↦ elim (Bool-cases (t == 24)) [
                  | inl y6 ↦ rw (n0, n1, n2, n3, n4, n5, y6) (refl)
                  | inr n6 ↦ elim (Bool-cases (t == 28)) [
                    | inl y7 ↦ rw (n0, n1, n2, n3, n4, n5, n6, y7) (status-keeps mm)
                    | inr n7 ↦ elim (Bool-cases (t == 29)) [
                      | inl y8 ↦ rw (n0, n1, n2, n3, n4, n5, n6, n7, y8) (target-keeps mm)
                      | inr n8 ↦ elim (Bool-cases (t == 30)) [
                        | inl y9 ↦ rw (n0, n1, n2, n3, n4, n5, n6, n7, n8, y9) (refl)
                        | inr n9 ↦ elim (Bool-cases (t == 31)) [
                          | inl y10 ↦
                              rw (n0, n1, n2, n3, n4, n5, n6, n7, n8, n9, y10)
                                (operational-keeps mm)
                          | inr n10 ↦
                              rw (n0, n1, n2, n3, n4, n5, n6, n7, n8, n9, n10)
                                (unreliable mm.header)
                        ]
                      ]
                    ]
                  ]
                ]
              ]
            ]
          ]
        ]
      ]
    ]
      where
        t : ℕ
        t = mm.raw.metype

-- The bytes, the type and the number of corrections.
abbrev pub core : Header → List ℕ × ℕ × ℕ
core h = (h.msg, h.msgtype, h.correctedbits)

by_metype_core :
    (check_imf : Bool) (mm : Message) → core (decode_by_metype mm check_imf).header ≡ core mm.header
unfolding imf_header
by_metype_core check_imf mm = metype-keeps core (λ h. refl) check_imf (λ e h. refl) mm

control-core : (mm : Message) → core (decode_by_control mm).header ≡ core mm.header
unfolding decode_by_control set_imf imf_header
control-core mm = elim (Bool-cases (cf == 0)) [
  | inl y0 ↦ rw (y0) (by_metype_core false _)
  | inr n0 ↦ elim (Bool-cases (cf == 1)) [
    | inl y1 ↦ rw (n0, y1) (by_metype_core false _)
    | inr n1 ↦ elim (Bool-cases (cf == 2)) [
      | inl y2 ↦ rw (n0, n1, y2) (by_metype_core true _)
      | inr n2 ↦ elim (Bool-cases (cf == 3)) [
        | inl y3 ↦ elim (Bool-cases (getbit mm.raw.me 1 == 1)) [
          | inl c ↦ rw (n0, n1, n2, y3, c) refl
          | inr c ↦ rw (n0, n1, n2, y3, c) refl
        ]
        | inr n3 ↦ elim (Bool-cases (cf == 5)) [
          | inl y4 ↦ rw (n0, n1, n2, n3, y4) (by_metype_core false _)
          | inr n4 ↦ elim (Bool-cases (cf == 6)) [
            | inl y5 ↦ rw (n0, n1, n2, n3, n4, y5) (by_metype_core true _)
            | inr n5 ↦ rw (n0, n1, n2, n3, n4, n5) refl
          ]
        ]
      ]
    ]
  ]
]
  where
    cf : ℕ
    cf = mm.raw.cf

squitter-core : (mm : Message) → core (decode_extended_squitter mm).header ≡ core mm.header
unfolding decode_extended_squitter
squitter-core mm = elim (Bool-cases (mm.header.msgtype == 18)) [
  | inl e ↦ rw e (control-core _)
  | inr e ↦ rw e (by_metype_core false _)
]

-- A DF17 keeps its address, which the DF18 alone can mark as another.
pub squitter-addr :
    (mm : Message)
    → (mm.header.msgtype == 18) ≡ false
    → (decode_extended_squitter mm).header.addr ≡ mm.header.addr
unfolding decode_extended_squitter
squitter-addr mm e =
    rw e (metype-keeps (λ h. h.addr) (λ h. refl) false (λ d h. absurd (false≢true d)) _)

-- The steps of `decode_fields`, one by one.
address-core : (mm : Message) → core (take_address mm).header ≡ core mm.header
unfolding take_address
address-core mm = elim (Bool-cases (is_any (11 ∷ 17 ∷ 18 ∷ []) mm.header.msgtype)) [
  | inl y0 ↦ rw (y0) refl
  | inr n0 ↦ rw (n0) refl
]

altitude-core : (mm : Message) → core (take_altitude mm).header ≡ core mm.header
unfolding take_altitude
altitude-core mm = elim (Bool-cases (is_any (0 ∷ 4 ∷ 16 ∷ 20 ∷ []) mm.header.msgtype)) [
  | inl y0 ↦ rw (y0) refl
  | inr n0 ↦ rw (n0) refl
]

capability-core : (mm : Message) → core (take_capability mm).header ≡ core mm.header
unfolding take_capability
capability-core mm = elim (Bool-cases (is_any (11 ∷ 17 ∷ []) mm.header.msgtype)) [
  | inl y0 ↦ rw (y0) refl
  | inr n0 ↦ rw (n0) refl
]

control_field-core : (mm : Message) → core (take_control mm).header ≡ core mm.header
unfolding take_control
control_field-core mm = elim (Bool-cases (mm.header.msgtype == 0)) [
  | inl y0 ↦ rw (y0) refl
  | inr n0 ↦ elim (Bool-cases (mm.header.msgtype == 18)) [
    | inl y1 ↦ rw (n0, y1) refl
    | inr n1 ↦ elim (Bool-cases (is_any (4 ∷ 5 ∷ 20 ∷ 21 ∷ []) mm.header.msgtype)) [
      | inl y2 ↦ rw (n0, n1, y2) refl
      | inr n2 ↦ rw (n0, n1, n2) refl
    ]
  ]
]

flight_status-core : (mm : Message) → core (take_flight_status mm).header ≡ core mm.header
unfolding take_flight_status
flight_status-core mm = elim (Bool-cases (is_any (4 ∷ 5 ∷ 20 ∷ 21 ∷ []) mm.header.msgtype)) [
  | inl y0 ↦ rw (y0) refl
  | inr n0 ↦ rw (n0) refl
]

identity-core : (mm : Message) → core (take_identity mm).header ≡ core mm.header
unfolding take_identity
identity-core mm = elim (Bool-cases (is_any (5 ∷ 21 ∷ []) mm.header.msgtype)) [
  | inl y0 ↦ rw (y0) refl
  | inr n0 ↦ elim (Bool-cases (mm.header.msgtype == 24)) [
    | inl y1 ↦ rw (n0, y1) refl
    | inr n1 ↦ rw (n0, n1) refl
  ]
]

acas-core : (mm : Message) → core (take_acas mm).header ≡ core mm.header
unfolding take_acas
acas-core mm = elim (Bool-cases (mm.header.msgtype == 24)) [
  | inl y0 ↦ rw (y0) refl
  | inr n0 ↦ elim (Bool-cases (is_any (4 ∷ 5 ∷ 20 ∷ 21 ∷ []) mm.header.msgtype)) [
    | inl y1 ↦ rw (n0, y1) refl
    | inr n1 ↦ elim (Bool-cases (mm.header.msgtype == 0 || mm.header.msgtype == 16)) [
      | inl y2 ↦ rw (n0, n1, y2) refl
      | inr n2 ↦ rw (n0, n1, n2) refl
    ]
  ]
]

module _ (decode_comm_b : Header → Raw → Data → Data) where
  payloads-core :
      (mm : Message)
      → core (take_payloads decode_comm_b decode_extended_squitter mm).header ≡ core mm.header
  unfolding take_payloads
  payloads-core mm = elim (Bool-cases (mm.header.msgtype == 20 || mm.header.msgtype == 21)) [
    | inl y0 ↦ rw (y0) refl
    | inr n0 ↦ elim (Bool-cases (mm.header.msgtype == 24)) [
      | inl y1 ↦ rw (n0, y1) refl
      | inr n1 ↦ elim (Bool-cases (mm.header.msgtype == 17 || mm.header.msgtype == 18)) [
        | inl y2 ↦ rw (n0, n1, y2) (squitter-core _)
        | inr n2 ↦ elim (Bool-cases (mm.header.msgtype == 16)) [
          | inl y3 ↦ rw (n0, n1, n2, y3) refl
          | inr n3 ↦ rw (n0, n1, n2, n3) refl
        ]
      ]
    ]
  ]

  -- The decoding of the fields keeps the bytes, the type and the number of corrections.
  pub fields-core : (mm : Message) → core (decode_fields decode_comm_b mm).header ≡ core mm.header
  unfolding decode_fields
  fields-core mm =
      acas-core _
      ∙ payloads-core _
      ∙ identity-core _
      ∙ flight_status-core _
      ∙ control_field-core _
      ∙ capability-core _
      ∙ altitude-core _
      ∙ address-core mm
