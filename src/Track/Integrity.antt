-- ===== src/Track/Integrity.antt =====
-- track.c: the navigation integrity of a position message, and its containment radius in metres.
use rbfeeder.Base.{
  ℕ, [], ◌∷◌, Bool, true, false, not, ◌&&◌, ◌||◌, ltb, leb, ◌==◌, if◌then◌else◌, Option, none, some,
}
use rbfeeder.ModeS.Decode.Fields.{is_any}

-- `RC_UNKNOWN`
abbrev pub rc_unknown : ℕ
rc_unknown = 0

-- The cases that depend on the version: a supplement of version 2, one of version 1, and neither.
unfoldable pub by_adsb_version : ℕ → ℕ → ℕ → ℕ → ℕ
by_adsb_version version v2 v1 v0 = if version == 2 then v2 else if version == 1 then v1 else v0

-- `compute_nic`
unfoldable pub compute_nic : ℕ → ℕ → Bool → Bool → Bool → ℕ
compute_nic metype version nic_a nic_b nic_c =
    if is_any (5 ∷ 9 ∷ 20 ∷ []) metype
    then 11
    else if is_any (6 ∷ 10 ∷ 21 ∷ []) metype
    then 10
    else if metype == 7
    then by_adsb_version version (if nic_a && not nic_c then 9 else 8) (if nic_a then 9 else 8) 8
    else if metype == 8
    then (if version == 2
        then (if nic_a && nic_c
            then 7
            else if nic_a && not nic_c
            then 6
            else if not nic_a && nic_c
            then 6
            else 0)
        else 0)
    else if metype == 11
    then by_adsb_version version (if nic_a && nic_b then 9 else 8) (if nic_a then 9 else 8) 8
    else if metype == 12
    then 7
    else if metype == 13
    then 6
    else if metype == 14
    then 5
    else if metype == 15
    then 4
    else if metype == 16
    then (if nic_a && nic_b then 3 else 2)
    else if metype == 17
    then 1
    else 0

-- `compute_rc`
unfoldable pub compute_rc : ℕ → ℕ → Bool → Bool → Bool → ℕ
compute_rc metype version nic_a nic_b nic_c =
    if is_any (5 ∷ 9 ∷ 20 ∷ []) metype
    then 8
    else if is_any (6 ∷ 10 ∷ 21 ∷ []) metype
    then 25
    else if metype == 7
    then by_adsb_version version (if nic_a && not nic_c then 75 else 186)
        (if nic_a then 75 else 186) 186
    else if metype == 8
    then (if version == 2
        then (if nic_a && nic_c
            then 371
            else if nic_a && not nic_c
            then 556
            else if not nic_a && nic_c
            then 1111
            else rc_unknown)
        else rc_unknown)
    else if metype == 11
    then by_adsb_version version (if nic_a && nic_b then 75 else 186) (if nic_a then 75 else 186)
        186
    else if metype == 12
    then 371
    else if metype == 13
    then by_adsb_version version
        (if not nic_a && nic_b
          then 556
          else if not nic_a && not nic_b
          then 926
          else if nic_a && nic_b
          then 1112
          else rc_unknown)
        (if nic_a then 1112 else 926) 926
    else if metype == 14
    then 1852
    else if metype == 15
    then 3704
    else if metype == 16
    then by_adsb_version version (if nic_a && nic_b then 7408 else 14816)
        (if nic_a then 7408 else 14816) 18520
    else if metype == 17
    then 37040
    else rc_unknown

-- `rcIsWorse`
unfoldable pub rc_is_worse : ℕ → ℕ → Bool
rc_is_worse left right =
    if left == 0 && right == 0
    then false
    else if left == 0
    then true
    else if right == 0
    then false
    else ltb right left

unfoldable pub is_squitter : ℕ → Bool
is_squitter msgtype = msgtype == 17 || msgtype == 18

-- The tables of version 0; `none` is the return of -1.
unfoldable pub v0_nacp : ℕ → Option ℕ
v0_nacp metype =
    if is_any (0 ∷ 8 ∷ 18 ∷ 22 ∷ []) metype
    then some 0
    else if is_any (5 ∷ 9 ∷ 20 ∷ []) metype
    then some 11
    else if is_any (6 ∷ 10 ∷ 21 ∷ []) metype
    then some 10
    else if is_any (7 ∷ 11 ∷ []) metype
    then some 8
    else if metype == 12
    then some 7
    else if metype == 13
    then some 6
    else if metype == 14
    then some 5
    else if metype == 15
    then some 4
    else if is_any (16 ∷ 17 ∷ []) metype
    then some 1
    else none

-- `compute_v0_nacp`
unfoldable pub compute_v0_nacp : ℕ → ℕ → Option ℕ
compute_v0_nacp msgtype metype = if is_squitter msgtype then v0_nacp metype else none

-- `compute_v0_sil`
unfoldable pub compute_v0_sil : ℕ → ℕ → Option ℕ
compute_v0_sil msgtype metype =
    if not (is_squitter msgtype)
    then none
    else if is_any (0 ∷ 18 ∷ 22 ∷ []) metype
    then some 0
    else if leb 5 metype && leb metype 17 || is_any (20 ∷ 21 ∷ []) metype
    then some 2
    else none
