-- ===== src/Track/Stages.antt =====
-- track.h: data is fresh, then stale, then expired. The claim behind a piece of data is where it came from
-- and when; everything else follows from the two intervals.
use rbfeeder.Base.{
  ℕ, ◌+◌, ◌*◌, ◌≤◌, ◌<◌, ◌^◌, List, [], ◌∷◌, Bool, true, false, not, ◌&&◌, ◌||◌, ltb, leb, ◌==◌,
  if◌then◌else◌, Option, none, some, ◌≡◌, ◌⊎◌, inl, inr, refl, ap, ◌∙◌, arith, Bool-cases,
  and_parts, ==_iff, u64,
}
use rbfeeder.ModeS.Message.{
  Source, source_invalid, source_mode_ac, source_mlat, source_mode_s, source_mode_s_checked,
  source_tisb, source_adsr, source_adsb,
}
use rbfeeder.Track.Validity.{
  DataValidity, source_rank, is_data_valid, is_data_fresh, or_default, updated_from, accept_data,
  expire,
}
use rbfeeder.Track.Locate.{without_source}
use rbfeeder.Track.Aircraft.{empty_item}

pub data Stage : Type 0 where
  fresh stale expired : Stage

unfoldable pub stage : ℕ → DataValidity → Stage
stage now d = if is_data_fresh now d then fresh else if is_data_valid now d then stale else expired

pub record Claim : Type 0 where
  pub by : Source
  pub at : ℕ

-- What can happen to a piece of data: it is offered anew, it is looked at for expiry, it is discarded.
pub data Event : Type 0 where
  offered : ℕ → Source → Event
  looked_at : ℕ → Event
  discarded : Event

module _ (si ei : ℕ) where
  -- The stages, and the rule that a less reliable source does not replace fresh data.
  unfoldable pub claim_stage : ℕ → Claim → Stage
  claim_stage now c =
      if source_rank c.by == 0
      then expired
      else if ltb now (c.at + si)
      then fresh
      else if ltb now (c.at + ei)
      then stale
      else expired

  unfoldable pub claim_after : Event → Claim → Claim
  claim_after (offered now source) c =
      if ltb now c.at || ltb (source_rank source) (source_rank c.by) && ltb now (c.at + si)
      then c
      else record { by = source; at = now }
  claim_after (looked_at now) c =
      if leb (c.at + ei) now then record c { by = source_invalid } else c
  claim_after discarded c = record c { by = source_invalid }

  unfoldable pub claim_after_all : List Event → Claim → Claim
  claim_after_all [] c = c
  claim_after_all (e ∷ events) c = claim_after_all events (claim_after e c)

  -- The times of the events, with the intervals, fit 64 bits.
  unfoldable pub is_in_time : Event → Bool
  is_in_time (offered now source) = ltb (now + ei) (2 ^ 64)
  is_in_time (looked_at now) = true
  is_in_time discarded = true

  unfoldable pub are_in_time : List Event → Bool
  are_in_time [] = true
  are_in_time (e ∷ events) = is_in_time e && are_in_time events

unfoldable pub kept : Option DataValidity → DataValidity → DataValidity
kept none d = d
kept (some e) d = e

-- The events on the data themselves.
unfoldable pub data_after : Event → DataValidity → DataValidity
data_after (offered now source) d = kept (accept_data now source d) d
data_after (looked_at now) d = expire now d
data_after discarded d = without_source d

unfoldable pub data_after_all : List Event → DataValidity → DataValidity
data_after_all [] d = d
data_after_all (e ∷ events) d = data_after_all events (data_after e d)

record Refines (si ei : ℕ) (c : Claim) (d : DataValidity) : Type 0 where
  source_same : d.source ≡ c.by
  updated_same : d.updated ≡ c.at
  stale_same : d.stale_interval ≡ si
  expire_same : d.expire_interval ≡ ei
  times : (source_rank c.by ≡ 0) ⊎ ((d.stale ≡ c.at + si) × (d.expires ≡ c.at + ei))

stage_tests :
    (rank now si ei : ℕ)
    → (if not (rank == 0) && ltb now si
        then fresh
        else if not (rank == 0) && ltb now ei
        then stale
        else expired)
      ≡ (if rank == 0
          then expired
          else if ltb now si
          then fresh
          else if ltb now ei
          then stale
          else expired)
stage_tests rank now si ei = ground arith

interval_end :
    (now interval default ei : ℕ)
    → 0 < interval
    → interval ≤ ei
    → ltb (now + ei) (2 ^ 64) ≡ true
    → u64 (now + or_default interval default) ≡ now + interval
interval_end now interval default ei h0 h1 h2 = ground arith

module _ (si ei : ℕ) (positive : 0 < si) (ordered : si ≤ ei) where
  stage-Refines :
      (now : ℕ) (c : Claim) (d : DataValidity)
      → Refines si ei c d
      → stage now d ≡ claim_stage si ei now c
  unfolding stage claim_stage is_data_fresh is_data_valid
  stage-Refines now c d r = elim r.times [
    | inl none_left ↦ rw (r.source_same, none_left) refl
    | inr times ↦
        rw (r.source_same, times.0, times.1)
          (stage_tests (source_rank c.by) now (c.at + si) (c.at + ei))
  ]

  updated-Refines :
      (now : ℕ) (s : Source) (c : Claim) (d : DataValidity)
      → ltb (now + ei) (2 ^ 64) ≡ true
      → Refines si ei c d
      → Refines si ei record { by = s; at = now } (updated_from now s d)
  unfolding updated_from
  updated-Refines now s c d h r = record {
    source_same = refl;
    updated_same = refl;
    stale_same = r.stale_same;
    expire_same = r.expire_same;
    times = inr (
      rw r.stale_same (interval_end now si 60000 ei positive ordered h),
      rw r.expire_same (interval_end now ei 70000 ei (omega arith) (omega arith) h),
    );
  }

  -- The test of `accept_data`, and that of the claim.
  abbrev rejects : ℕ → ℕ → ℕ → ℕ → ℕ → Bool
  rejects now rank_new rank_old updated end =
      ltb now updated || ltb rank_new rank_old && ltb now end

  accept-none :
      (now : ℕ) (s : Source) (d : DataValidity)
      → rejects now (source_rank s) (source_rank d.source) d.updated d.stale ≡ true
      → accept_data now s d ≡ none
  unfolding accept_data
  accept-none now s d h = ground arith

  accept-some :
      (now : ℕ) (s : Source) (d : DataValidity)
      → rejects now (source_rank s) (source_rank d.source) d.updated d.stale ≡ false
      → accept_data now s d ≡ some (updated_from now s d)
  unfolding accept_data
  accept-some now s d h = ground arith

  rejects-same :
      (now new old1 old2 u1 u2 e1 e2 : ℕ)
      → old1 ≡ old2
      → u1 ≡ u2
      → (old2 ≡ 0) ⊎ (e1 ≡ e2)
      → rejects now new old1 u1 e1 ≡ rejects now new old2 u2 e2
  rejects-same now new old1 old2 u1 u2 e1 e2 h1 h2 h3 = ground arith

  stale_times :
      (c : Claim) (d : DataValidity)
      → Refines si ei c d
      → (source_rank c.by ≡ 0) ⊎ (d.stale ≡ c.at + si)
  stale_times c d r = elim r.times [ inl none_left ↦ inl none_left | inr times ↦ inr times.0 ]

  offered-Refines :
      (now : ℕ) (s : Source) (c : Claim) (d : DataValidity)
      → ltb (now + ei) (2 ^ 64) ≡ true
      → Refines si ei c d
      → Refines si ei (claim_after si ei (offered now s) c) (data_after (offered now s) d)
  unfolding claim_after data_after kept
  offered-Refines now s c d h r =
      let same =
        rejects-same now (source_rank s) (source_rank d.source) (source_rank c.by) d.updated c.at
          d.stale (c.at + si) (ap source_rank r.source_same) r.updated_same (stale_times c d r) in
      elim (Bool-cases (rejects now (source_rank s) (source_rank c.by) c.at (c.at + si))) [
        | inl bad ↦ simp (bad, accept-none now s d (same ∙ bad)) r
        | inr ok ↦ simp (ok, accept-some now s d (same ∙ ok)) (updated-Refines now s c d h r)
      ]

  no_source : (s : Source) → source_rank s ≡ 0 → s ≡ source_invalid
  unfolding source_rank
  no_source source_invalid h = refl
  no_source source_mode_ac h = absurd (omega (arith, h))
  no_source source_mlat h = absurd (omega (arith, h))
  no_source source_mode_s h = absurd (omega (arith, h))
  no_source source_mode_s_checked h = absurd (omega (arith, h))
  no_source source_tisb h = absurd (omega (arith, h))
  no_source source_adsr h = absurd (omega (arith, h))
  no_source source_adsb h = absurd (omega (arith, h))

  -- Data without a source, whatever they were.
  discarded-Refines :
      (c : Claim) (d : DataValidity)
      → Refines si ei c d
      → Refines si ei (record c { by = source_invalid }) (record d { source = source_invalid })
  unfolding source_rank
  discarded-Refines c d r = record {
    source_same = refl;
    updated_same = r.updated_same;
    stale_same = r.stale_same;
    expire_same = r.expire_same;
    times = inl refl;
  }

  -- A claim that has no source is the same without it.
  sourceless-Refines :
      (c : Claim) (d : DataValidity)
      → source_rank c.by ≡ 0
      → Refines si ei c d
      → Refines si ei (record c { by = source_invalid }) d
  unfolding source_rank
  sourceless-Refines c d h r = record {
    source_same = r.source_same ∙ no_source c.by h;
    updated_same = r.updated_same;
    stale_same = r.stale_same;
    expire_same = r.expire_same;
    times = inl refl;
  }

  expire-none :
      (now : ℕ) (d : DataValidity)
      → (not (source_rank d.source == 0) && leb d.expires now) ≡ false
      → expire now d ≡ d
  unfolding expire
  expire-none now d h = ground arith

  expire-due :
      (now : ℕ) (d : DataValidity)
      → (not (source_rank d.source == 0) && leb d.expires now) ≡ true
      → expire now d ≡ record d { source = source_invalid }
  unfolding expire
  expire-due now d h = ground arith

  looked_at-Refines :
      (now : ℕ) (c : Claim) (d : DataValidity)
      → Refines si ei c d
      → Refines si ei (claim_after si ei (looked_at now) c) (data_after (looked_at now) d)
  unfolding claim_after data_after
  looked_at-Refines now c d r = elim r.times [
    | inl none_left ↦
        simp (expire-none now d (idle (ap source_rank r.source_same ∙ none_left) d.expires now))
          (elim (leb (c.at + ei) now)
            as (λ t. Refines si ei (if t then record c { by = source_invalid } else c) d) [
              | true ↦ sourceless-Refines c d none_left r
              | false ↦ r
            ])
    | inr times ↦ elim (Bool-cases (leb (c.at + ei) now)) [
      | inr early ↦
          simp
            (
              early,
              expire-none now d
                  (not_yet (source_rank d.source) d.expires (c.at + ei) now times.1 early),
            )
            r
      | inl due ↦ elim (Bool-cases (source_rank c.by == 0)) [
        | inl none_left ↦
            simp
              (
                due,
                expire-none now d (
                    idle (ap source_rank r.source_same ∙ (==_iff (source_rank c.by) 0).0 none_left)
                      d.expires now),
              )
              (sourceless-Refines c d ((==_iff (source_rank c.by) 0).0 none_left) r)
        | inr some_source ↦
            simp
              (
                due,
                expire-due now d (
                    at_end (source_rank d.source) (source_rank c.by) d.expires (c.at + ei) now
                      (ap source_rank r.source_same) some_source times.1 due),
              )
              (discarded-Refines c d r)
      ]
    ]
  ]
    where
      idle : {k : ℕ} → k ≡ 0 → (e now : ℕ) → (not (k == 0) && leb e now) ≡ false
      idle h e now = ground arith

      not_yet :
          (k e end now : ℕ) → e ≡ end → leb end now ≡ false → (not (k == 0) && leb e now) ≡ false
      not_yet k e end now he h = ground arith

      at_end :
          (k l e end now : ℕ)
          → k ≡ l
          → (l == 0) ≡ false
          → e ≡ end
          → leb end now ≡ true
          → (not (k == 0) && leb e now) ≡ true
      at_end k l e end now hk hl he h = ground arith

  event-Refines :
      (e : Event) (c : Claim) (d : DataValidity)
      → is_in_time si ei e ≡ true
      → Refines si ei c d
      → Refines si ei (claim_after si ei e c) (data_after e d)
  event-Refines (offered now s) c d h r = offered-Refines now s c d (unfold is_in_time in h) r
  event-Refines (looked_at now) c d h r = looked_at-Refines now c d r
  event-Refines discarded c d h r =
      unfold claim_after data_after without_source in discarded-Refines c d r

  events-refine :
      (events : List Event) (c : Claim) (d : DataValidity)
      → are_in_time si ei events ≡ true
      → Refines si ei c d
      → Refines si ei (claim_after_all si ei events c) (data_after_all events d)
  unfolding are_in_time claim_after_all data_after_all
  events-refine [] c d h r = r
  events-refine (e ∷ events) c d h r =
      let times = and_parts (is_in_time si ei e) (are_in_time si ei events) h in
      events-refine events (claim_after si ei e c) (data_after e d) times.1
        (event-Refines e c d times.0 r)

-- Data of a new aircraft, with a stale interval of `s` and an expiry interval of `e` seconds, after any
-- sequence of offers, expiry checks and discards, as long as the times fit 64 bits: their source and time are
-- those of the claim that a simple rule keeps, by which a less reliable source replaces a claim only once it
-- is stale, and they are fresh, stale or expired as the age of the claim says.
pub stages-refine {ℓ} :
    {A : Type ℓ} (s e : ℕ) (zero_value : A) (events : List Event) (now : ℕ)
    → 0 < s
    → s ≤ e
    → are_in_time (s * 1000) (e * 1000) events ≡ true
    → (let c =
          claim_after_all (s * 1000) (e * 1000) events record { by = source_invalid; at = 0 } in
        let d = data_after_all events (empty_item s e zero_value).valid in
        (d.source ≡ c.by)
        × (d.updated ≡ c.at)
        × (stage now d ≡ claim_stage (s * 1000) (e * 1000) now c))
unfolding empty_item
stages-refine s e zero_value events now h0 h1 ht =
    let r =
      events-refine (s * 1000) (e * 1000) (omega arith) (omega arith) events
        record { by = source_invalid; at = 0 } (empty_item s e zero_value).valid ht
        record {
          source_same = refl;
          updated_same = refl;
          stale_same = refl;
          expire_same = refl;
          times = inl (unfold source_rank in refl);
        } in
    (
      r.source_same,
      r.updated_same,
      stage-Refines (s * 1000) (e * 1000) (omega arith) (omega arith) now
          (claim_after_all (s * 1000) (e * 1000) events record { by = source_invalid; at = 0 })
          (data_after_all events (empty_item s e zero_value).valid) r,
    )
