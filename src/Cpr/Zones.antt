-- ===== src/Cpr/Zones.antt =====
-- cpr.c: `cprModInt`, `cprNLFunction`, `cprNFunction` and `cprDlonFunction`.
use rbfeeder.Base.{ℕ, suc, ◌-◌, ◌%◌, List, [], ◌∷◌, Bool, ltb, ◌==◌, if◌then◌else◌}
use rbfeeder.Base.Int.{ℤ, pos, negsuc}
use rbfeeder.Base.Ratio.{Ratio, lt_ratio, magnitude}
use rbfeeder.Base.Double.{double}

-- `a % b` truncates, and a negative remainder is brought up by `b`.
unfoldable pub cpr_mod_int : ℤ → ℕ → ℕ
cpr_mod_int (pos a) b = a % b
cpr_mod_int (negsuc a) b = let res = suc a % b in if res == 0 then 0 else b - res

-- The upper bounds of the zones, in 10 ^ -8 of a degree, from 59 zones down.
abbrev pub nl_bounds : List ℕ
nl_bounds =
    1047047130 ∷ 1482817437 ∷ 1818626357 ∷ 2102939493 ∷ 2354504487 ∷ 2582924707 ∷ 2793898710
    ∷ 2991135686 ∷ 3177209708 ∷ 3353993436 ∷ 3522899598 ∷ 3685025108 ∷ 3841241892 ∷ 3992256684
    ∷ 4138651832 ∷ 4280914012 ∷ 4419454951 ∷ 4554626723 ∷ 4686733252 ∷ 4816039128 ∷ 4942776439
    ∷ 5067150166 ∷ 5189342469 ∷ 5309516153 ∷ 5427817472 ∷ 5544378444 ∷ 5659318756 ∷ 5772747354
    ∷ 5884763776 ∷ 5995459277 ∷ 6104917774 ∷ 6213216659 ∷ 6320427479 ∷ 6426616523 ∷ 6531845310
    ∷ 6636171008 ∷ 6739646774 ∷ 6842322022 ∷ 6944242631 ∷ 7045451075 ∷ 7145986473 ∷ 7245884545
    ∷ 7345177442 ∷ 7443893416 ∷ 7542056257 ∷ 7639684391 ∷ 7736789461 ∷ 7833374083 ∷ 7929428225
    ∷ 8024923213 ∷ 8119801349 ∷ 8213956981 ∷ 8307199445 ∷ 8399173563 ∷ 8489166191 ∷ 8575541621
    ∷ 8653536998 ∷ 8700000000 ∷ []

-- The chain of tests from a number of zones on.
unfoldable pub nl_from : Ratio → ℕ → List ℕ → ℕ
nl_from lat nl [] = nl
nl_from lat nl (bound ∷ bounds) =
    let rest = nl_from lat (nl - 1) bounds in
    if lt_ratio lat (double (record { num = pos bound; den = 100000000 })) then nl else rest

unfoldable pub cpr_nl : Ratio → ℕ
cpr_nl lat = nl_from (magnitude lat) 59 nl_bounds

unfoldable pub cpr_n : Ratio → Bool → ℕ
cpr_n lat fflag = let nl = cpr_nl lat - (if fflag then 1 else 0) in if ltb nl 1 then 1 else nl

-- A full circle, or a quarter of it on the surface.
unfoldable pub circle : Bool → ℕ
circle surface = if surface then 90 else 360
