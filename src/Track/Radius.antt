-- ===== src/Track/Radius.antt =====
-- The navigation integrity category and the containment radius agree.
use rbfeeder.Base.{
  ℕ, ◌+◌, ◌<◌, List, [], ◌∷◌, Bool, true, false, ◌&&◌, ◌||◌, ltb, leb, ◌==◌, ◌≡◌, refl, all_below,
  all_below_sound, get_or,
}
use rbfeeder.ModeS.Decode.Fields.{is_any}
use rbfeeder.Track.Integrity.{compute_nic, compute_rc, by_adsb_version, rc_unknown}

-- The radius in metres, rounded up, that each category from 0 to 11 stands for; 0 for no limit.
abbrev pub radius_limits : List ℕ
radius_limits = 0 ∷ 37040 ∷ 14816 ∷ 7408 ∷ 3704 ∷ 1852 ∷ 1112 ∷ 371 ∷ 186 ∷ 75 ∷ 25 ∷ 8 ∷ 0 ∷ []

-- The radius is unknown, or within the limit of the category and beyond that of the next better one.
unfoldable pub is_category_of : ℕ → ℕ → Bool
is_category_of nic rc =
    rc == rc_unknown
    || ltb (get_or radius_limits (nic + 1) 0) rc && leb rc (get_or radius_limits nic 0)

abbrev agrees : Bool → Bool → Bool → ℕ → Bool
agrees nic_a nic_b nic_c metype =
    is_category_of (compute_nic metype 2 nic_a nic_b nic_c) (compute_rc metype 2 nic_a nic_b nic_c)

all_agree : (nic_a nic_b nic_c : Bool) → all_below 32 (agrees nic_a nic_b nic_c) ≡ true
unfolding all_below is_category_of compute_nic compute_rc by_adsb_version is_any
all_agree true true true = refl
all_agree true true false = refl
all_agree true false true = refl
all_agree true false false = refl
all_agree false true true = refl
all_agree false true false = refl
all_agree false false true = refl
all_agree false false false = refl

-- For a message of version 2 of any of the 32 types, with any supplement bits, compute_rc gives no radius or
-- one that is in the range of the category that compute_nic gives.
pub nic-rc :
    (metype : ℕ) (nic_a nic_b nic_c : Bool)
    → metype < 32
    → is_category_of
        (compute_nic metype 2 nic_a nic_b nic_c)
        (compute_rc metype 2 nic_a nic_b nic_c)
      ≡ true
nic-rc metype nic_a nic_b nic_c h =
    all_below_sound 32 (agrees nic_a nic_b nic_c) metype (all_agree nic_a nic_b nic_c) h
