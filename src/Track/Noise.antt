-- ===== src/Track/Noise.antt =====
-- An aircraft of which only a few unreliable messages are seen has no data.
use rbfeeder.Base.{
  ℕ, suc, ◌+◌, ◌<◌, List, [], ◌∷◌, length, Bool, true, false, not, ◌&&◌, ◌||◌, leb, set, bit_and,
  ◌==◌, if◌then◌else◌, ◌≡◌, refl, ap, sym, subst, ◌∙◌, arith, and_parts,
}
use rbfeeder.Base.Int.{pos}
use rbfeeder.Base.Ratio.{Ratio, lt_ratio, whole}
use rbfeeder.ModeS.Message.{Message}
use rbfeeder.Track.Aircraft.{Aircraft, Presence, track_create_aircraft}
use rbfeeder.Track.Position.{Geometry, Receiver, Stats}
use rbfeeder.Track.Locate.{Tracked}
use rbfeeder.Track.Update.{record_signal, count_message, update_aircraft}

-- No message is reliable.
unfoldable pub are_unreliable : List Message → Bool
are_unreliable [] = true
are_unreliable (mm ∷ mms) = not mm.header.reliable && are_unreliable mms

-- Not reliable, after `n` messages of which none is.
IsUnproven : ℕ → Presence → Type 0
IsUnproven n p =
    (p.reliable ≡ false) × (p.reliable_df11 ≡ 0) × (p.reliable_df17 ≡ 0) × (p.messages ≡ n)

record_signal-IsUnproven :
    (l : Ratio) (n : ℕ) (p : Presence) → IsUnproven n p → IsUnproven n (record_signal l p)
unfolding IsUnproven record_signal
record_signal-IsUnproven l n p h =
    elim (lt_ratio (whole (pos 0)) l)
      as (λ t. IsUnproven n (
        if t
        then record p {
          signal_level = set p.signal_level p.signal_next l;
          signal_next = bit_and (p.signal_next + 1) 7;
        }
        else p)) [ true ↦ h | false ↦ h ]

still_unproven :
    (reliable : Bool) (df11 df17 messages n t : ℕ) (good : Bool)
    → good ≡ false
    → suc n < 5
    → reliable ≡ false
    → df11 ≡ 0
    → df17 ≡ 0
    → messages ≡ n
    → (reliable
        || (leb 3 (df11 + (if t == 11 && good then 1 else 0))
            || (leb 2 (df17 + (if t == 17 && good then 1 else 0)) || leb 5 (messages + 1))))
      ≡ false
still_unproven reliable df11 df17 messages n t good hg hn h1 h2 h3 h4 = ground arith

uncounted :
    (df t k : ℕ) (good : Bool) → good ≡ false → df ≡ 0 → df + (if t == k && good then 1 else 0) ≡ 0
uncounted df t k good hg h = ground arith

count_message-IsUnproven :
    (mm : Message) (n : ℕ) (p : Presence)
    → mm.header.reliable ≡ false
    → suc n < 5
    → IsUnproven n p
    → IsUnproven (suc n) (count_message mm p)
unfolding IsUnproven count_message
count_message-IsUnproven mm n p hm hn h =
    let q = record_signal mm.header.signal_level p in
    let hq = record_signal-IsUnproven mm.header.signal_level n p h in
    let t = mm.header.msgtype in
    (
      still_unproven q.reliable q.reliable_df11 q.reliable_df17 q.messages n t mm.header.reliable hm
          hn hq.0 hq.1 hq.2 hq.3,
      uncounted q.reliable_df11 t 11 mm.header.reliable hm hq.1,
      uncounted q.reliable_df17 t 17 mm.header.reliable hm hq.2,
      omega (arith, hq.3),
    )

abbrev with_presence : Presence → Aircraft → Aircraft
with_presence p a = record a { presence = p }

module _ (geometry : Geometry) (receiver : Receiver) where
  -- The update of one aircraft by message after message.
  unfoldable pub update_all : List Message → Tracked → Tracked
  update_all [] t = t
  update_all (mm ∷ mms) t =
      update_all mms (update_aircraft geometry receiver (record t { mm = mm }))

  -- Only the presence changes, which stays unproven.
  noise_step :
      (mm : Message) (n : ℕ) (t : Tracked)
      → mm.header.reliable ≡ false
      → suc n < 5
      → IsUnproven n t.aircraft.presence
      → (p : Presence) × (IsUnproven (suc n) p)
        × ((update_aircraft geometry receiver (record t { mm = mm })).aircraft
            ≡ record t.aircraft { presence = p })
  unfolding update_aircraft IsUnproven
  noise_step mm n t hm hn h =
      let p = count_message mm t.aircraft.presence in
      let hp = count_message-IsUnproven mm n t.aircraft.presence hm hn h in
      (
        record p { discarded = p.discarded + 1 },
        hp,
        ap (λ u. u.aircraft) (choose_true _ _ (noise mm.header.reliable p.reliable hm hp.0)),
      )
    where
      noise : (a b : Bool) → a ≡ false → b ≡ false → (not a && not b) ≡ true
      noise a b ha hb = ground arith

      choose_true : {b : Bool} (x y : Tracked) → b ≡ true → (if b then x else y) ≡ x
      choose_true x y hb = rw hb refl

  noise_all :
      (mms : List Message) (n : ℕ) (t : Tracked)
      → are_unreliable mms ≡ true
      → n + length mms < 5
      → IsUnproven n t.aircraft.presence
      → (p : Presence) × ((update_all mms t).aircraft ≡ record t.aircraft { presence = p })
  unfolding are_unreliable update_all
  noise_all [] n t hm hn h = (t.aircraft.presence, refl)
  noise_all (mm ∷ mms) n t hm hn h =
      let parts = and_parts (not mm.header.reliable) (are_unreliable mms) hm in
      let t0 : Tracked = record t { mm = mm } in
      let step = noise_step mm n t (unreliable mm.header.reliable parts.0) (omega arith) h in
      let t1 = update_aircraft geometry receiver t0 in
      let rest =
        noise_all mms (suc n) t1 parts.1 (omega arith)
          (subst (λ a. IsUnproven (suc n) a.presence) (sym step.2) step.1) in
      (rest.0, rest.1 ∙ ap (with_presence rest.0) step.2)
    where
      unreliable : (b : Bool) → not b ≡ true → b ≡ false
      unreliable b h = ground arith

  -- After fewer than five messages about a new aircraft of which none is reliable, nothing but its presence
  -- has changed: it has no data of any kind.
  pub noise_has_no_data :
      (mm : Message) (stats : Stats) (mms : List Message)
      → are_unreliable mms ≡ true
      → length mms < 5
      → (let a = track_create_aircraft mm.header in
          let b = (update_all mms record { aircraft = a; mm = mm; stats = stats }).aircraft in
          b ≡ record a { presence = b.presence })
  noise_has_no_data mm stats mms hm hn =
      let a = track_create_aircraft mm.header in
      let kept =
        noise_all mms 0 record { aircraft = a; mm = mm; stats = stats } hm (omega (arith, hn))
          (unfold IsUnproven track_create_aircraft in (refl, refl, refl, refl)) in
      kept.1 ∙ sym (ap (λ b. with_presence b.presence a) kept.1)
