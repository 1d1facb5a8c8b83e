-- ===== src/IcaoFilter/Contents.antt =====
-- One table as the set of the addresses that it holds.
use rbfeeder.Base.{ℕ, ◌<◌, List, ◌≡◌, ◌≢◌, inl, inr, arith, subst}
use rbfeeder.Base.{Bool-cases, ◌==◌, ==_iff, true, ap, ◌∙◌, sym, ℕ_discrete, dec_lt}
use rbfeeder.Base.{length, set, length-set, get_or-set_self, get_or-set_ne}
use rbfeeder.IcaoFilter.Defs.{
  empty, icao_hash, slot, Probe, found, round, no_fuel, probe, store, add_to, is_at, test_in,
}
use rbfeeder.IcaoFilter.Probe.{at, icao_hash-lt, StopsAt, Ends, probe_lem}

-- The address stands where its probe finds it: no slot before is empty.
pub record Stored (table : List ℕ) (x : ℕ) : Type 0 where
  pub far : ℕ
  pub inside : far < 4096
  pub here : slot table (at (icao_hash x) far) ≡ x
  pub busy : (e : ℕ) → e < far → slot table (at (icao_hash x) e) ≢ empty

-- Every address in the table is stored so.
pub record IsTable (table : List ℕ) : Type 0 where
  pub size : length table ≡ 4096
  pub stored : (h : ℕ) → h < 4096 → slot table h ≢ empty → Stored table (slot table h)

-- The probe for a stored address stops at the address.
StopsAt-Stored :
    (table : List ℕ) (x : ℕ) {h : ℕ}
    → x ≢ empty
    → Stored table x
    → StopsAt table x (icao_hash x) 0 h
    → slot table h ≡ x
StopsAt-Stored table x {h} ne s ends = elim ends.stop [
  | inr same ↦ same
  | inl vacant ↦ elim (dec_lt ends.far s.far) [
    | yes first ↦ absurd (s.busy ends.far first (ap (slot table) (sym ends.here) ∙ vacant))
    | no later ↦ elim (dec_lt s.far ends.far) [
      | yes past ↦ absurd ((ends.before s.far (omega arith) past).1 s.here)
      | no same ↦
          let e : ends.far ≡ s.far = omega arith in
          ap (slot table) (ends.here ∙ ap (at (icao_hash x)) e) ∙ s.here
    ]
  ]
]

-- A stored address is found.
is_at-Stored :
    (table : List ℕ) (x : ℕ) (p : Probe)
    → x ≢ empty
    → Stored table x
    → Ends table x (icao_hash x) 0 p
    → is_at table x (icao_hash x) p ≡ true
is_at-Stored table x (found h) ne s ends =
    (==_iff (slot table h) x).1 (StopsAt-Stored table x ne s ends)
is_at-Stored table x round ne s none = absurd ((none s.far (omega arith) s.inside).1 s.here)
is_at-Stored table x no_fuel ne s impossible = absurd impossible

pub test_in-Stored : (table : List ℕ) (x : ℕ) → x ≢ empty → Stored table x → test_in table x ≡ true
unfolding test_in
test_in-Stored table x ne s =
    is_at-Stored table x (probe 4096 table x (icao_hash x) (icao_hash x)) ne s
      (probe_lem table x (icao_hash x) (icao_hash-lt x))

-- An address that is found stands in the table.
is_at-slot :
    (table : List ℕ) (x : ℕ) (p : Probe)
    → Ends table x (icao_hash x) 0 p
    → is_at table x (icao_hash x) p ≡ true
    → (h : ℕ) × (h < 4096) × (slot table h ≡ x)
is_at-slot table x (found h) ends e = (h, rw ends.here (omega arith), (==_iff (slot table h) x).0 e)
is_at-slot table x round none e =
    (icao_hash x, icao_hash-lt x, (==_iff (slot table (icao_hash x)) x).0 e)
is_at-slot table x no_fuel impossible e = absurd impossible

pub test_in-slot :
    (table : List ℕ) (x : ℕ) → test_in table x ≡ true → (h : ℕ) × (h < 4096) × (slot table h ≡ x)
unfolding test_in
test_in-slot table x e =
    is_at-slot table x (probe 4096 table x (icao_hash x) (icao_hash x))
      (probe_lem table x (icao_hash x) (icao_hash-lt x)) e

-- Filling an empty slot with `x`, where the probe for `x` has stopped.
module _ (table : List ℕ) (x h : ℕ) (t : IsTable table) (ne : x ≢ empty)
    (ends : StopsAt table x (icao_hash x) 0 h) (vacant : slot table h ≡ empty) where
  h_in : h < 4096
  h_in = rw ends.here (omega arith)

  filled : slot (set table h x) h ≡ x
  filled = get_or-set_self table h x empty (rw t.size h_in)

  kept : (j : ℕ) → h ≢ j → slot (set table h x) j ≡ slot table j
  kept j n = get_or-set_ne table h j x empty n

  still_busy : (j : ℕ) → slot table j ≢ empty → slot (set table h x) j ≢ empty
  still_busy j busy = elim (ℕ_discrete h j) [
    | yes same ↦ λ e. ne (sym filled ∙ ap (slot (set table h x)) same ∙ e)
    | no other ↦ λ e. busy (sym (kept j other) ∙ e)
  ]

  Stored-new : Stored (set table h x) x
  Stored-new = record {
    far = ends.far;
    inside = ends.inside;
    here = ap (slot (set table h x)) (sym ends.here) ∙ filled;
    busy = λ e lt. still_busy (at (icao_hash x) e) (ends.before e (omega arith) lt).0;
  }

  Stored-old : (y : ℕ) → y ≢ empty → Stored table y → Stored (set table h x) y
  Stored-old y nonempty s = record {
    far = s.far;
    inside = s.inside;
    here =
        kept (at (icao_hash y) s.far)
          (λ e. nonempty (sym s.here ∙ ap (slot table) (sym e) ∙ vacant))
        ∙ s.here;
    busy = λ e lt. still_busy (at (icao_hash y) e) (s.busy e lt);
  }

  set-IsTable : IsTable (set table h x)
  set-IsTable = record {
    size = length-set table h x ∙ t.size;
    stored = λ j lt busy. elim (ℕ_discrete h j) [
      | yes same ↦
          subst (Stored (set table h x)) (sym filled ∙ ap (slot (set table h x)) same) Stored-new
      | no other ↦ subst (Stored (set table h x)) (sym (kept j other)) (
          Stored-old (slot table j) (λ e. busy (kept j other ∙ e))
            (t.stored j lt (λ e. busy (kept j other ∙ e))))
    ];
  }

-- After an addition the slot where the probe stopped holds `x`, and no other slot has changed.
module _ (table : List ℕ) (x h : ℕ) (t : IsTable table)
    (ends : StopsAt table x (icao_hash x) 0 h) where
  pub stop_in : h < 4096
  stop_in = rw ends.here (omega arith)

  pub store-slot : slot (store table x (found h)) h ≡ x
  store-slot = elim ends.stop [
    | inl vacant ↦
        rw ((==_iff (slot table h) empty).1 vacant)
          (get_or-set_self table h x empty (rw t.size stop_in))
    | inr same ↦ elim (Bool-cases (slot table h == empty)) [
      | inl vacant ↦ rw vacant (get_or-set_self table h x empty (rw t.size stop_in))
      | inr busy ↦ rw busy same
    ]
  ]

  pub store-slot_ne : (j : ℕ) → h ≢ j → slot (store table x (found h)) j ≡ slot table j
  store-slot_ne j n = elim (Bool-cases (slot table h == empty)) [
    | inl vacant ↦ rw vacant (get_or-set_ne table h j x empty n)
    | inr busy ↦ rw busy
  ]

store-IsTable :
    (table : List ℕ) (x : ℕ) (p : Probe)
    → IsTable table
    → x ≢ empty
    → Ends table x (icao_hash x) 0 p
    → IsTable (store table x p)
store-IsTable table x (found h) t ne ends = elim (Bool-cases (slot table h == empty)) [
  | inl vacant ↦
      rw vacant (set-IsTable table x h t ne ends ((==_iff (slot table h) empty).0 vacant))
  | inr busy ↦ rw busy t
]
store-IsTable table x round t ne ends = t
store-IsTable table x no_fuel t ne ends = t

-- `icaoFilterAdd` keeps the table's order.
pub add_to-IsTable : (table : List ℕ) (x : ℕ) → IsTable table → x ≢ empty → IsTable (add_to table x)
unfolding add_to
add_to-IsTable table x t ne =
    store-IsTable table x (probe 4096 table x (icao_hash x) (icao_hash x)) t ne
      (probe_lem table x (icao_hash x) (icao_hash-lt x))
