-- ===== src/IcaoFilter/Probe.antt =====
-- A probe ends within 4096 steps, at the first slot that stops it or back at its start.
use rbfeeder.Base.{
  ℕ, bit_and, subst, zero, suc, ◌+◌, ◌%◌, ◌≤◌, ◌<◌, List, ◌≡◌, ◌≢◌, ◌⊎◌, inl, inr, arith, refl,
}
use rbfeeder.Base.{Bool-cases, ◌==◌, true, false, ℕ_discrete}
use rbfeeder.Base.Bits.Fields.{and_mask}
use rbfeeder.IcaoFilter.Defs.{
  empty, icao_hash, next_slot, slot, stops, Probe, found, round, no_fuel, probe,
}

-- The slot at distance `d` from `h0`.
abbrev pub at : ℕ → ℕ → ℕ
at h0 d = (h0 + d) % 4096

pub next_slot-at : (h0 d : ℕ) → next_slot (at h0 d) ≡ at h0 (d + 1)
unfolding next_slot
next_slot-at h0 d = omega (arith, and_mask 12 (at h0 d + 1))

low_slots-lt : (x : ℕ) → bit_and x 4095 < 4096
low_slots-lt x = omega (arith, and_mask 12 x)

pub icao_hash-lt : (a : ℕ) → icao_hash a < 4096
unfolding icao_hash
icao_hash-lt a = low_slots-lt _

abbrev pub Passes : List ℕ → ℕ → ℕ → Type 0
Passes table addr h = (slot table h ≢ empty) × (slot table h ≢ addr)

-- From distance `d` on, the probe stops at `h`.
pub record StopsAt (table : List ℕ) (addr h0 d h : ℕ) : Type 0 where
  pub far : ℕ
  pub from : d ≤ far
  pub inside : far < 4096
  pub here : h ≡ at h0 far
  pub stop : (slot table h ≡ empty) ⊎ (slot table h ≡ addr)
  pub before : (e : ℕ) → d ≤ e → e < far → Passes table addr (at h0 e)

-- No slot from distance `d` on stops the probe.
abbrev pub NoneStops : List ℕ → ℕ → ℕ → ℕ → Type 0
NoneStops table addr h0 d = (e : ℕ) → d ≤ e → e < 4096 → Passes table addr (at h0 e)

-- What each end of a probe says.
abbrev pub Ends : List ℕ → ℕ → ℕ → ℕ → Probe → Type 0
Ends table addr h0 d (found h) = StopsAt table addr h0 d h
Ends table addr h0 d round = NoneStops table addr h0 d
Ends table addr h0 d no_fuel = ⊥

module _ (table : List ℕ) (addr : ℕ) where
  stops_at : (h : ℕ) → stops table addr h ≡ true → (slot table h ≡ empty) ⊎ (slot table h ≡ addr)
  stops_at h e = ground arith

  Passes-at : (h : ℕ) → stops table addr h ≡ false → Passes table addr h
  Passes-at h e = (ground arith, ground arith)

module _ (table : List ℕ) (addr h0 d : ℕ) (passes : Passes table addr (at h0 d)) where
  -- A distance is `d`, or further.
  from_next :
      (far e : ℕ)
      → ((i : ℕ) → d + 1 ≤ i → i < far → Passes table addr (at h0 i))
      → d ≤ e
      → e < far
      → Passes table addr (at h0 e)
  from_next far e later le lt = elim (ℕ_discrete d e) [
    | yes same ↦ subst (λ (t : ℕ). Passes table addr (at h0 t)) same passes
    | no further ↦ later e (omega arith) lt
  ]

  Ends-earlier : (p : Probe) → Ends table addr h0 (d + 1) p → Ends table addr h0 d p
  Ends-earlier (found h) s = record {
    far = s.far;
    from = omega (arith, s.from);
    inside = s.inside;
    here = s.here;
    stop = s.stop;
    before = λ e le lt. from_next s.far e s.before le lt;
  }
  Ends-earlier round later = λ e le lt. from_next 4096 e later le lt
  Ends-earlier no_fuel impossible = impossible

module _ (table : List ℕ) (addr h0 : ℕ) (h0_in : h0 < 4096) where
  at_start : (d : ℕ) → d < 4096 → (next_slot (at h0 d) == h0) ≡ true → d + 1 ≡ 4096
  at_start d h back = ground (arith, next_slot-at h0 d)

  not_at_start :
      (d : ℕ) {fuel : ℕ} → (next_slot (at h0 d) == h0) ≡ false → d + suc fuel ≡ 4096 → 0 < fuel
  not_at_start d on h = ground (arith, next_slot-at h0 d)

  pub probe-Ends :
      (fuel d : ℕ)
      → d + fuel ≡ 4096
      → 0 < fuel
      → Ends table addr h0 d (probe fuel table addr h0 (at h0 d))
  unfolding probe
  probe-Ends zero d h pos = absurd (omega arith)
  probe-Ends (suc fuel) d h pos = elim (Bool-cases (stops table addr (at h0 d))) [
    | inl stop ↦ rw stop (record {
      far = d;
      from = omega arith;
      inside = omega arith;
      here = refl;
      stop = stops_at table addr (at h0 d) stop;
      before = λ e le lt. absurd (omega arith);
    })
    | inr pass ↦
        let passes = Passes-at table addr (at h0 d) pass in
        elim (Bool-cases (next_slot (at h0 d) == h0)) [
          | inl back ↦
              rw (pass, back)
                (λ e le lt.
                  from_next table addr h0 d passes 4096 e
                    (λ i l b. absurd (omega (arith, at_start d (omega arith) back))) le lt)
          | inr on ↦
              rw (pass, on, next_slot-at h0 d)
                (Ends-earlier table addr h0 d passes (probe fuel table addr h0 (at h0 (d + 1)))
                  (probe-Ends fuel (d + 1) (omega arith) (not_at_start d on (omega arith))))
        ]
  ]

  -- The probe of `icaoFilterAdd` and `icaoFilterTest` has fuel enough.
  pub probe_lem : Ends table addr h0 0 (probe 4096 table addr h0 h0)
  probe_lem =
      let e : at h0 0 ≡ h0 = omega arith in
      subst (λ (t : ℕ). Ends table addr h0 0 (probe 4096 table addr h0 t)) e
        (probe-Ends 4096 0 (omega arith) (omega arith))
