-- ===== src/Track/Roster.antt =====
-- The list of aircraft: one for each address, and an update changes its own.
use rbfeeder.Base.{
  ℕ, List, [], ◌∷◌, Bool, true, false, not, ◌&&◌, ◌==◌, if◌then◌else◌, Option, none, some, ◌≡◌, ◌≢◌,
  refl, ap, sym, ◌∙◌, arith, inl, inr, Bool-cases, ==_iff, some_injective,
}
use rbfeeder.ModeS.Message.{Message}
use rbfeeder.Track.Aircraft.{Aircraft, track_create_aircraft}
use rbfeeder.Track.Position.{Geometry, Receiver, Stats, next}
use rbfeeder.Track.Update.{
  Tracker, track_find_aircraft, write_aircraft, update_aircraft, update_found,
  track_update_from_message,
}
use rbfeeder.Track.Keeps.{update_aircraft-addr}

none_is_not_some {ℓ} : {A : Type ℓ} (a : A) → ¬ (◌≡◌ {A = Option A} none (some a))
none_is_not_some a h = ground arith

-- No aircraft of the list has the address.
unfoldable pub is_absent : ℕ → List Aircraft → Bool
is_absent addr [] = true
is_absent addr (a ∷ aircrafts) = not (a.presence.addr == addr) && is_absent addr aircrafts

-- No address is zero, and none is there twice.
unfoldable pub is_roster : List Aircraft → Bool
is_roster [] = true
is_roster (a ∷ aircrafts) =
    not (a.presence.addr == 0) && (is_absent a.presence.addr aircrafts && is_roster aircrafts)

differs : (a b : ℕ) → a ≢ b → (a == b) ≡ false
differs a b h = ground arith

find-none :
    (addr : ℕ) (rest : List Aircraft)
    → track_find_aircraft addr rest ≡ none
    → is_absent addr rest ≡ true
unfolding track_find_aircraft is_absent
find-none addr [] h = refl
find-none addr (a ∷ rest) h = elim (Bool-cases (a.presence.addr == addr)) [
  | inl same ↦ absurd (
      none_is_not_some a
        (sym h ∙ ap (λ t. if t then some a else track_find_aircraft addr rest) same))
  | inr other ↦ rw other (
      find-none addr rest
        (sym (ap (λ t. if t then some a else track_find_aircraft addr rest) other) ∙ h))
]

find-addr :
    (addr : ℕ) (rest : List Aircraft) (b : Aircraft)
    → track_find_aircraft addr rest ≡ some b
    → b.presence.addr ≡ addr
unfolding track_find_aircraft
find-addr addr [] b h = absurd (none_is_not_some b h)
find-addr addr (a ∷ rest) b h = elim (Bool-cases (a.presence.addr == addr)) [
  | inl same ↦
      ap (λ c. c.presence.addr)
        (some_injective b a
          (sym h ∙ ap (λ t. if t then some a else track_find_aircraft addr rest) same))
      ∙ (==_iff a.presence.addr addr).0 same
  | inr other ↦
      find-addr addr rest b
        (sym (ap (λ t. if t then some a else track_find_aircraft addr rest) other) ∙ h)
]

-- A write keeps the addresses.
absent-write :
    (addr x : ℕ) (b : Aircraft) (rest : List Aircraft)
    → b.presence.addr ≡ addr
    → is_absent x (write_aircraft addr b rest) ≡ is_absent x rest
unfolding is_absent write_aircraft
absent-write addr x b [] hb = refl
absent-write addr x b (a ∷ rest) hb = elim (Bool-cases (a.presence.addr == addr)) [
  | inl same ↦ rw same (rw (hb, (==_iff a.presence.addr addr).0 same) refl)
  | inr other ↦ rw (other, absent-write addr x b rest hb) refl
]

roster-write :
    (addr : ℕ) (b : Aircraft) (rest : List Aircraft)
    → b.presence.addr ≡ addr
    → is_roster (write_aircraft addr b rest) ≡ is_roster rest
unfolding is_roster write_aircraft
roster-write addr b [] hb = refl
roster-write addr b (a ∷ rest) hb = elim (Bool-cases (a.presence.addr == addr)) [
  | inl same ↦ rw same (rw (hb, (==_iff a.presence.addr addr).0 same) refl)
  | inr other ↦
      rw (other, absent-write addr a.presence.addr b rest hb, roster-write addr b rest hb) refl
]

find-write_same :
    (addr : ℕ) (b a : Aircraft) (rest : List Aircraft)
    → b.presence.addr ≡ addr
    → track_find_aircraft addr rest ≡ some a
    → track_find_aircraft addr (write_aircraft addr b rest) ≡ some b
unfolding track_find_aircraft write_aircraft
find-write_same addr b a [] hb h = absurd (none_is_not_some a h)
find-write_same addr b a (c ∷ rest) hb h = elim (Bool-cases (c.presence.addr == addr)) [
  | inl same ↦ rw (same, (==_iff b.presence.addr addr).1 hb) refl
  | inr other ↦
      rw (other, other)
        (find-write_same addr b a rest hb
          (sym (ap (λ t. if t then some c else track_find_aircraft addr rest) other) ∙ h))
]

find-write_other :
    (addr x : ℕ) (b : Aircraft) (rest : List Aircraft)
    → b.presence.addr ≡ addr
    → (addr == x) ≡ false
    → track_find_aircraft x (write_aircraft addr b rest) ≡ track_find_aircraft x rest
unfolding track_find_aircraft write_aircraft
find-write_other addr x b [] hb hx = refl
find-write_other addr x b (c ∷ rest) hb hx = elim (Bool-cases (c.presence.addr == addr)) [
  | inl same ↦ rw (same, hb, (==_iff c.presence.addr addr).0 same, hx) refl
  | inr other ↦ rw (other, find-write_other addr x b rest hb hx) refl
]

module _ (geometry : Geometry) (receiver : Receiver) where
  new_aircraft-addr :
      (mm : Message) (stats : Stats)
      → (update_aircraft geometry receiver record {
        aircraft = track_create_aircraft mm.header;
        mm = mm;
        stats = stats;
      }).aircraft.presence.addr
        ≡ mm.header.addr
  new_aircraft-addr mm stats =
      update_aircraft-addr geometry receiver _ ∙ (unfold track_create_aircraft in refl)

  update_found-roster :
      (o : Option Aircraft) (mm : Message) (tracker : Tracker)
      → (mm.header.addr == 0) ≡ false
      → track_find_aircraft mm.header.addr tracker.aircrafts ≡ o
      → is_roster tracker.aircrafts ≡ true
      → is_roster (update_found geometry receiver o mm tracker).tracker.aircrafts ≡ true
  unfolding update_found is_roster
  update_found-roster none mm tracker h0 hf ok =
      rw
        (
          new_aircraft-addr mm
              (record tracker.stats { unique_aircraft = next tracker.stats.unique_aircraft }),
          h0,
          find-none mm.header.addr tracker.aircrafts hf,
          ok,
        )
        refl
  update_found-roster (some a) mm tracker h0 hf ok =
      roster-write mm.header.addr _ tracker.aircrafts
        (update_aircraft-addr geometry receiver _ ∙ find-addr mm.header.addr tracker.aircrafts a hf)
      ∙ ok

  -- trackUpdateFromMessage keeps the list of aircraft such that no address in it is zero and none is there
  -- twice.
  pub update-roster :
      (mm : Message) (tracker : Tracker)
      → is_roster tracker.aircrafts ≡ true
      → is_roster (track_update_from_message geometry receiver mm tracker).tracker.aircrafts ≡ true
  unfolding track_update_from_message
  update-roster mm tracker ok = elim (Bool-cases (mm.header.msgtype == 32)) [
    | inl mode_ac ↦ rw mode_ac ok
    | inr mode_s ↦ elim (Bool-cases (mm.header.addr == 0)) [
      | inl junk ↦ rw (mode_s, junk) ok
      | inr good ↦ rw (mode_s, good) (update_found-roster _ mm tracker good refl ok)
    ]
  ]

  find-update_found :
      (o : Option Aircraft) (mm : Message) (tracker : Tracker) (x : ℕ)
      → track_find_aircraft mm.header.addr tracker.aircrafts ≡ o
      → track_find_aircraft x (update_found geometry receiver o mm tracker).tracker.aircrafts ≡ (
          if mm.header.addr == x
          then (update_found geometry receiver o mm tracker).found
          else track_find_aircraft x tracker.aircrafts)
  unfolding update_found track_find_aircraft
  find-update_found none mm tracker x hf =
      rw
        (new_aircraft-addr mm
          (record tracker.stats { unique_aircraft = next tracker.stats.unique_aircraft }))
        refl
  find-update_found (some a) mm tracker x hf = elim (Bool-cases (mm.header.addr == x)) [
    | inl own ↦
        rw (own, sym ((==_iff mm.header.addr x).0 own))
          (find-write_same mm.header.addr _ a tracker.aircrafts
            (update_aircraft-addr geometry receiver _
              ∙ find-addr mm.header.addr tracker.aircrafts a hf)
            hf)
    | inr other ↦ rw other (
        find-write_other mm.header.addr x _ tracker.aircrafts
          (update_aircraft-addr geometry receiver _
            ∙ find-addr mm.header.addr tracker.aircrafts a hf)
          other)
  ]

  -- After a message of Mode S from an address that is not zero, trackFindAircraft finds at that address what
  -- trackUpdateFromMessage returned, and at every other address what it found before.
  pub find-update :
      (mm : Message) (tracker : Tracker) (x : ℕ)
      → mm.header.msgtype ≢ 32
      → mm.header.addr ≢ 0
      → track_find_aircraft x
          (track_update_from_message geometry receiver mm tracker).tracker.aircrafts
        ≡ (if mm.header.addr == x
            then (track_update_from_message geometry receiver mm tracker).found
            else track_find_aircraft x tracker.aircrafts)
  unfolding track_update_from_message
  find-update mm tracker x ht ha =
      rw (differs mm.header.msgtype 32 ht, differs mm.header.addr 0 ha)
        (find-update_found _ mm tracker x refl)
