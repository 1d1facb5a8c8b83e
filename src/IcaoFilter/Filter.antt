-- ===== src/IcaoFilter/Filter.antt =====
-- The filter as a set of addresses that ages in two generations.
use rbfeeder.Base.{ℕ, ◌+◌, ◌-◌, ◌%◌, ◌<◌, List, ◌≡◌, ◌≢◌, inl, inr, arith, refl, subst}
use rbfeeder.Base.{
  Bool-cases, Bool_ext, ◌==◌, ==_iff, Bool, true, false, ◌||◌, ap, ◌∙◌, sym, ℕ_discrete,
}
use rbfeeder.Base.{get_or-replicate, length-replicate}
use rbfeeder.IcaoFilter.Defs.{
  filter_size, empty, icao_hash, slot, Probe, found, round, no_fuel, probe, store, add_to, test_in,
  cleared, Generation, table_a, table_b, Filter, filter_init, add_active, filter_add,
}
use rbfeeder.IcaoFilter.Probe.{at, icao_hash-lt, StopsAt, NoneStops, Ends, probe_lem}
use rbfeeder.IcaoFilter.Contents.{
  IsTable, Stored, test_in-Stored, test_in-slot, add_to-IsTable, stop_in, store-slot, store-slot_ne,
}

abbrev pub HasRoom : List ℕ → Type 0
HasRoom table = (h : ℕ) × (h < 4096) × (slot table h ≡ empty)

-- An address is found exactly if it is in some slot.
pub slot-test_in :
    (table : List ℕ) (h y : ℕ)
    → IsTable table
    → y ≢ empty
    → h < 4096
    → slot table h ≡ y
    → test_in table y ≡ true
slot-test_in table h y t ne lt e =
    test_in-Stored table y ne (subst (Stored table) e (t.stored h lt (λ v. ne (sym e ∙ v))))

right_true : (a : Bool) {b : Bool} → b ≡ true → (a || b) ≡ true
right_true true e = refl
right_true false e = e

module _ (table : List ℕ) (x y : ℕ) (t : IsTable table) (nx : x ≢ empty) (ny : y ≢ empty)
    (room : HasRoom table) where
  no_round : NoneStops table x (icao_hash x) 0 → ⊥
  no_round none = (none d (omega arith) (omega arith)).0 (ap (slot table) reached ∙ room.2)
    where
      d : ℕ
      d = (room.0 + 4096 - icao_hash x) % 4096

      reached : at (icao_hash x) d ≡ room.0
      reached = omega (arith, icao_hash-lt x, room.1)

  module _ (h : ℕ) (ends : StopsAt table x (icao_hash x) 0 h)
      (t' : IsTable (store table x (found h))) where
    after : List ℕ
    after = store table x (found h)

    found_after : (j : ℕ) × (j < 4096) × (slot after j ≡ y) → (x == y || test_in table y) ≡ true
    unfolding after
    found_after (j, lt, e) = elim (ℕ_discrete h j) [
      | yes here ↦
          rw ((==_iff x y).1 (sym (store-slot table x h t ends) ∙ ap (slot after) here ∙ e))
      | no other ↦
          right_true (x == y)
            (slot-test_in table j y t ny lt (sym (store-slot_ne table x h t ends j other) ∙ e))
    ]

    found_before : (j : ℕ) × (j < 4096) × (slot table j ≡ y) → test_in after y ≡ true
    unfolding after
    found_before (j, lt, e) = elim (ℕ_discrete h j) [
      | no other ↦ slot-test_in after j y t' ny lt (store-slot_ne table x h t ends j other ∙ e)
      | yes here ↦ elim ends.stop [
        | inl vacant ↦ absurd (ny (sym e ∙ ap (slot table) (sym here) ∙ vacant))
        | inr same ↦
            slot-test_in after h y t' ny (stop_in table x h t ends)
              (store-slot table x h t ends ∙ sym same ∙ ap (slot table) here ∙ e)
      ]
    ]

    found_new : x ≡ y → test_in after y ≡ true
    unfolding after
    found_new e =
        slot-test_in after h y t' ny (stop_in table x h t ends) (store-slot table x h t ends ∙ e)

    test-found : test_in after y ≡ (x == y || test_in table y)
    test-found =
        Bool_ext _ _ (λ e. found_after (test_in-slot after y e))
          (λ e. elim (Bool-cases (x == y)) [
            | inl same ↦ found_new ((==_iff x y).0 same)
            | inr other ↦ found_before (test_in-slot table y (rw other at e))
          ])

  test-store :
      (p : Probe)
      → Ends table x (icao_hash x) 0 p
      → IsTable (store table x p)
      → test_in (store table x p) y ≡ (x == y || test_in table y)
  unfolding after
  test-store (found h) ends t' = test-found h ends t'
  test-store round none t' = absurd (no_round none)
  test-store no_fuel impossible t' = absurd impossible

  -- While the table has an empty slot, adding `x` adds exactly `x` to the addresses that are found.
  pub test-add : test_in (add_to table x) y ≡ (x == y || test_in table y)
  unfolding add_to
  test-add =
      test-store (probe 4096 table x (icao_hash x) (icao_hash x))
        (probe_lem table x (icao_hash x) (icao_hash-lt x)) (add_to-IsTable table x t nx)

pub cleared-IsTable : IsTable cleared
unfolding cleared
cleared-IsTable = record {
  size = length-replicate filter_size empty;
  stored = λ h lt busy. absurd (busy (get_or-replicate filter_size h empty));
}

pub cleared-test_in : (y : ℕ) → y ≢ empty → test_in cleared y ≡ false
cleared-test_in y ny = elim (Bool-cases (test_in cleared y)) [
  | inr no_hit ↦ no_hit
  | inl hit ↦ let place = test_in-slot cleared y hit in absurd (ny (sym place.2 ∙ vacant place.0))
]
  where
    vacant : (h : ℕ) → slot cleared h ≡ empty
    vacant h = unfold cleared in get_or-replicate filter_size h empty

pub record IsFilter (f : Filter) : Type 0 where
  pub table_a_ok : IsTable f.a
  pub table_b_ok : IsTable f.b

abbrev pub active_table : Generation → Filter → List ℕ
active_table table_a f = f.a
active_table table_b f = f.b

pub init-IsFilter : (n : ℕ) → IsFilter (filter_init n)
unfolding filter_init
init-IsFilter n = record { table_a_ok = cleared-IsTable; table_b_ok = cleared-IsTable }

-- An addition to either table keeps both as their probes need them: of the full size, with every
-- address reachable from its hash through slots that are not empty.
pub add-IsFilter : (f : Filter) (x : ℕ) → IsFilter f → x ≢ empty → IsFilter (filter_add f x)
unfolding filter_add
add-IsFilter f x v ne = by_generation f.active
  where
    by_generation : (g : Generation) → IsFilter (add_active g f x)
    by_generation table_a = record {
      table_a_ok = add_to-IsTable f.a x v.table_a_ok ne;
      table_b_ok = v.table_b_ok;
    }
    by_generation table_b = record {
      table_a_ok = v.table_a_ok;
      table_b_ok = add_to-IsTable f.b x v.table_b_ok ne;
    }
