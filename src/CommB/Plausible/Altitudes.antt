-- ===== src/CommB/Plausible/Altitudes.antt =====
-- BDS 4,0: altitudes and a pressure setting.
use rbfeeder.Base.{ℕ, ◌*◌, List, true, ◌&&◌, leb, ◌==◌, some, ◌≡◌, arith}
use rbfeeder.Base.Int.{◌*ℤ◌}
use rbfeeder.ModeS.Bits.{getbit, getbits}
use rbfeeder.ModeS.Message.{Nav}
use rbfeeder.CommB.Reply.{total, within}
use rbfeeder.CommB.Plausible.{if_valid, real_within, is_plausible_nav, passes_at, passes-field}
use rbfeeder.CommB.Intent.{
  altitude_part, parts_bds40, store_altitudes, store_qnh, store_modes, store_source,
}

store_altitudes-plausible :
    (msg : List ℕ) (nav : Nav)
    → is_plausible_nav nav ≡ true
    → if_valid
        (getbit msg 1 == 1)
        (leb 1000 (getbits msg 2 13 * 16) && leb (getbits msg 2 13 * 16) 50000)
      ≡ true
    → if_valid
        (getbit msg 14 == 1)
        (leb 1000 (getbits msg 15 26 * 16) && leb (getbits msg 15 26 * 16) 50000)
      ≡ true
    → is_plausible_nav (store_altitudes msg nav) ≡ true
unfolding is_plausible_nav if_valid store_altitudes
store_altitudes-plausible msg nav h h1 h2 = ground arith

store_qnh-plausible :
    (msg : List ℕ) (nav : Nav)
    → is_plausible_nav nav ≡ true
    → if_valid (getbit msg 27 == 1) (leb 1000 (getbits msg 28 39) && leb (getbits msg 28 39) 3000)
      ≡ true
    → is_plausible_nav (store_qnh msg nav) ≡ true
unfolding is_plausible_nav if_valid store_qnh real_within within ◌*ℤ◌
store_qnh-plausible msg nav h h1 = ground arith

nav_rest-plausible :
    (msg : List ℕ) (nav : Nav)
    → is_plausible_nav nav ≡ true
    → is_plausible_nav (store_source msg (store_modes msg nav)) ≡ true
unfolding is_plausible_nav store_modes store_source
nav_rest-plausible msg nav h = ground arith

pub store_bds40-plausible :
    (msg : List ℕ) (nav : Nav) (n : ℕ)
    → total (parts_bds40 msg) ≡ some n
    → is_plausible_nav nav ≡ true
    → is_plausible_nav
        (store_source msg (store_modes msg (store_qnh msg (store_altitudes msg nav))))
      ≡ true
unfolding parts_bds40 altitude_part
store_bds40-plausible msg nav n ok h =
    nav_rest-plausible msg (store_qnh msg (store_altitudes msg nav)) (
      store_qnh-plausible msg (store_altitudes msg nav)
        (store_altitudes-plausible msg nav h
          (passes-field _ _ _ _ (passes_at (parts_bds40 msg) 1 n ok))
          (passes-field _ _ _ _ (passes_at (parts_bds40 msg) 2 n ok)))
        (passes-field _ _ _ _ (passes_at (parts_bds40 msg) 3 n ok)))
