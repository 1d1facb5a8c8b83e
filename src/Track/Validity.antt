-- ===== src/Track/Validity.antt =====
-- track.c and track.h: the age of data, and which data replace which.
use rbfeeder.Base.{
  ℕ, ◌+◌, ◌-◌, Bool, true, false, not, ◌&&◌, ltb, leb, ◌==◌, if◌then◌else◌, Option, none, some, u64,
}
use rbfeeder.ModeS.Message.{
  Source, source_invalid, source_mode_ac, source_mlat, source_mode_s, source_mode_s_checked,
  source_tisb, source_adsr, source_adsb,
}

-- The number of an enumerator of `datasource_t`, in order of increasing priority.
unfoldable pub source_rank : Source → ℕ
source_rank source_invalid = 0
source_rank source_mode_ac = 1
source_rank source_mlat = 2
source_rank source_mode_s = 3
source_rank source_mode_s_checked = 4
source_rank source_tisb = 5
source_rank source_adsr = 6
source_rank source_adsb = 7

-- `data_validity`, with times in milliseconds
pub record DataValidity : Type 0 where
  pub stale_interval : ℕ
  pub expire_interval : ℕ
  pub source : Source
  pub updated : ℕ
  pub stale : ℕ
  pub expires : ℕ

abbrev pub is_valid_source : Source → Bool
is_valid_source source = not (source_rank source == 0)

-- `trackDataValid`, `trackDataFresh` and `trackDataAge`; `now` is `messageNow()`.
unfoldable pub is_data_valid : ℕ → DataValidity → Bool
is_data_valid now d = is_valid_source d.source && ltb now d.expires

unfoldable pub is_data_fresh : ℕ → DataValidity → Bool
is_data_fresh now d = is_valid_source d.source && ltb now d.stale

unfoldable pub data_age : ℕ → DataValidity → ℕ
data_age now d =
    if not (is_valid_source d.source)
    then 0xffffffffffffffff
    else if leb now d.updated
    then 0
    else now - d.updated

-- An interval of 0 means the default.
abbrev pub or_default : ℕ → ℕ → ℕ
or_default interval default = if interval == 0 then default else interval

unfoldable pub updated_from : ℕ → Source → DataValidity → DataValidity
updated_from now source d = record d {
  source = source;
  updated = now;
  stale = u64 (now + or_default d.stale_interval 60000);
  expires = u64 (now + or_default d.expire_interval 70000);
}

-- `accept_data`; `none` is the return of 0, which leaves the validity as it was.
unfoldable pub accept_data : ℕ → Source → DataValidity → Option DataValidity
accept_data now source d =
    if ltb now d.updated
    then none
    else if ltb (source_rank source) (source_rank d.source) && ltb now d.stale
    then none
    else some (updated_from now source d)

-- `combine_validity(to, from1, from2)`. A copy takes the intervals along.
unfoldable pub combine_validity : DataValidity → DataValidity → DataValidity → DataValidity
combine_validity to from1 from2 =
    if not (is_valid_source from1.source)
    then from2
    else if not (is_valid_source from2.source)
    then from1
    else record to {
      source =
          if ltb (source_rank from1.source) (source_rank from2.source)
          then from1.source
          else from2.source;
      updated = if ltb from2.updated from1.updated then from1.updated else from2.updated;
      stale = if ltb from1.stale from2.stale then from1.stale else from2.stale;
      expires = if ltb from1.expires from2.expires then from1.expires else from2.expires;
    }

-- `compare_validity(lhs, rhs) > 0`, the only use of the comparison.
unfoldable pub is_newer : ℕ → DataValidity → DataValidity → Bool
is_newer now lhs rhs =
    let l = source_rank lhs.source in
    let r = source_rank rhs.source in
    if ltb now lhs.stale && ltb r l
    then true
    else if ltb now rhs.stale && ltb l r
    then false
    else ltb rhs.updated lhs.updated

-- `EXPIRE`
unfoldable pub expire : ℕ → DataValidity → DataValidity
expire now d =
    if is_valid_source d.source && leb d.expires now
    then record d { source = source_invalid }
    else d

-- A value of an aircraft with its validity, `x` and `x_valid` of the source.
pub record Item {ℓ} (A : Type ℓ) : Type ℓ where
  pub valid : DataValidity
  pub value : A

module _ {ℓ} {A : Type ℓ} where
  unfoldable pub stored : Option DataValidity → A → Item A → Item A
  stored none value item = item
  stored (some valid) value item = record { valid = valid; value = value }

  -- `if (mm->x_valid && accept_data(&a->x_valid, mm->source)) a->x = mm->x`
  unfoldable pub offer : ℕ → Source → Bool → A → Item A → Item A
  offer now source present value item =
      if present then stored (accept_data now source item.valid) value item else item

  unfoldable pub expire_item : ℕ → Item A → Item A
  expire_item now item = record item { valid = expire now item.valid }

  unfoldable pub is_item_valid : ℕ → Item A → Bool
  is_item_valid now item = is_data_valid now item.valid
