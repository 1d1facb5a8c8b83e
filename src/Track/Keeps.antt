-- ===== src/Track/Keeps.antt =====
-- What an update leaves of the presence of an aircraft.
use rbfeeder.Base.{
  ℕ, ◌+◌, true, false, not, ◌&&◌, if◌then◌else◌, Option, none, some, ◌≡◌, refl, ap, ◌∙◌, arith,
}
use rbfeeder.ModeS.Message.{Message}
use rbfeeder.Track.Validity.{DataValidity, accept_data}
use rbfeeder.Track.Aircraft.{Presence, Place}
use rbfeeder.Track.Position.{
  Geometry, Receiver, Located, located, unlocated, implausible, do_global_cpr, do_local_cpr,
}
use rbfeeder.Track.Locate.{
  Tracked, store_place, skip_local, accept_local, finish_local, try_local, accept_global,
  finish_global, try_global, update_position, has_recent_pair, max_elapsed, count_kind,
}
use rbfeeder.Track.Fields.{is_new_report}
use rbfeeder.Track.Update.{
  count_message, record_signal, apply_message, apply_fields, update_aircraft,
}

module _ (geometry : Geometry) (receiver : Receiver) (now : ℕ) where
  accept_local-presence :
      (o : Option DataValidity) (place : Place) (t : Tracked)
      → (accept_local geometry receiver now o place t).aircraft.presence ≡ t.aircraft.presence
  unfolding accept_local skip_local store_place
  accept_local-presence none place t = refl
  accept_local-presence (some valid) place t = refl

  finish_local-presence :
      (l : Located) (t : Tracked)
      → (finish_local geometry receiver now l t).aircraft.presence ≡ t.aircraft.presence
  unfolding finish_local skip_local
  finish_local-presence (located place) t =
      accept_local-presence
        (accept_data now t.mm.header.source t.aircraft.whereabouts.position.valid) place t
  finish_local-presence unlocated t = refl
  finish_local-presence implausible t = refl

  try_local-presence :
      (t : Tracked) → (try_local geometry receiver now t).aircraft.presence ≡ t.aircraft.presence
  unfolding try_local
  try_local-presence t =
      let attempt = do_local_cpr geometry receiver now t.aircraft t.mm t.stats in
      finish_local-presence attempt.result (record t { stats = attempt.stats })

  accept_global-presence :
      (o : Option DataValidity) (place : Place) (t : Tracked)
      → (accept_global geometry receiver now o place t).aircraft.presence ≡ t.aircraft.presence
  unfolding accept_global store_place
  accept_global-presence none place t = refl
  accept_global-presence (some valid) place t = refl

  finish_global-presence :
      (l : Located) (t : Tracked)
      → (finish_global geometry receiver now l t).aircraft.presence ≡ t.aircraft.presence
  unfolding finish_global
  finish_global-presence (located place) t =
      accept_global-presence
        (accept_data now t.mm.header.source t.aircraft.whereabouts.position.valid) place t
  finish_global-presence unlocated t = try_local-presence _
  finish_global-presence implausible t = refl

  try_global-presence :
      (t : Tracked) → (try_global geometry receiver now t).aircraft.presence ≡ t.aircraft.presence
  unfolding try_global
  try_global-presence t =
      let attempt = do_global_cpr geometry receiver now t.aircraft t.mm t.stats in
      finish_global-presence attempt.result (record t { stats = attempt.stats })

  pub update_position-presence :
      (t : Tracked)
      → (update_position geometry receiver now t).aircraft.presence ≡ t.aircraft.presence
  unfolding update_position
  update_position-presence t0 =
      let t : Tracked = record t0 { stats = count_kind geometry receiver now t0.mm t0.stats } in
      elim (has_recent_pair now t.aircraft.whereabouts (max_elapsed t.mm))
        as (λ pair.
          (if pair
            then try_global geometry receiver now t
            else try_local geometry receiver now t).aircraft.presence
          ≡ t0.aircraft.presence) [ true ↦ try_global-presence t | false ↦ try_local-presence t ]

count_message-addr : (mm : Message) (p : Presence) → (count_message mm p).addr ≡ p.addr
unfolding count_message record_signal
count_message-addr mm p = ground arith

module _ (geometry : Geometry) (receiver : Receiver) where
  apply_message-addr :
      (t : Tracked)
      → (apply_message geometry receiver t).aircraft.presence.addr ≡ t.aircraft.presence.addr
  unfolding apply_message apply_fields
  apply_message-addr t =
      let now = t.mm.header.sys_timestamp_msg in
      let t1 : Tracked = apply_fields t in
      elim (is_new_report now t1.mm t.aircraft.whereabouts)
        as (λ new.
          (if new then update_position geometry receiver now t1 else t1).aircraft.presence.addr
          ≡ t.aircraft.presence.addr) [
            | true ↦ ap (λ p. p.addr) (update_position-presence geometry receiver now t1)
            | false ↦ refl
          ]

  pub update_aircraft-addr :
      (t : Tracked)
      → (update_aircraft geometry receiver t).aircraft.presence.addr ≡ t.aircraft.presence.addr
  unfolding update_aircraft
  update_aircraft-addr t0 =
      let presence = count_message t0.mm t0.aircraft.presence in
      let t : Tracked = record t0 { aircraft = record t0.aircraft { presence = presence } } in
      elim (not t.mm.header.reliable && not presence.reliable)
        as (λ noise.
          (if noise
            then record t {
              aircraft = record t.aircraft {
                presence = record presence { discarded = presence.discarded + 1 };
              };
            }
            else apply_message geometry receiver t).aircraft.presence.addr
          ≡ t0.aircraft.presence.addr) [
            | true ↦ count_message-addr t0.mm t0.aircraft.presence
            | false ↦ apply_message-addr t ∙ count_message-addr t0.mm t0.aircraft.presence
          ]
