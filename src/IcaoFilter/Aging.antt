-- ===== src/IcaoFilter/Aging.antt =====
-- `icaoFilterAdd`, `icaoFilterTest` and `icaoFilterExpire` together: what is found, and for how long.
use rbfeeder.Base.{ℕ, ◌+◌, ◌≤◌, ◌≡◌, ◌≢◌, inl, inr, arith, refl, ap, ◌∙◌}
use rbfeeder.Base.{Bool-cases, ◌==◌, ==_iff, leb, Bool, true, false, ◌||◌, if◌then◌else◌, u64}
use rbfeeder.IcaoFilter.Defs.{
  filter_ttl, empty, add_to, test_in, cleared, Generation, table_a, table_b, Filter, filter_init,
  add_active, filter_add, filter_test, flip, filter_expire,
}
use rbfeeder.IcaoFilter.Contents.{IsTable}
use rbfeeder.IcaoFilter.Filter.{HasRoom, test-add, cleared-test_in, IsFilter, active_table}

-- Before anything is added nothing is found.
test-init : (n y : ℕ) → y ≢ empty → filter_test (filter_init n) y ≡ false
unfolding filter_test filter_init
test-init n y ny = rw (cleared-test_in y ny) refl

test-add_active :
    (g : Generation) (f : Filter) (x y : ℕ)
    → IsFilter f
    → x ≢ empty
    → y ≢ empty
    → HasRoom (active_table g f)
    → filter_test (add_active g f x) y ≡ (x == y || filter_test f y)
unfolding filter_test
test-add_active table_a f x y v nx ny room =
    rw (test-add f.a x y v.table_a_ok nx ny room) (ground arith)
test-add_active table_b f x y v nx ny room =
    rw (test-add f.b x y v.table_b_ok nx ny room) (ground arith)

-- While the active table has an empty slot, `icaoFilterAdd` adds its address to those that
-- `icaoFilterTest` finds, and no other.
pub test-filter_add :
    (f : Filter) (x y : ℕ)
    → IsFilter f
    → x ≢ empty
    → y ≢ empty
    → HasRoom (active_table f.active f)
    → filter_test (filter_add f x) y ≡ (x == y || filter_test f y)
unfolding filter_add
test-filter_add f x y v nx ny room = test-add_active f.active f x y v nx ny room

test-flip :
    (g : Generation) (f : Filter) (y : ℕ)
    → y ≢ empty
    → filter_test (flip g f) y ≡ test_in (active_table g f) y
unfolding filter_test
test-flip table_a f y ny = rw (cleared-test_in y ny) (ground arith)
test-flip table_b f y ny = rw (cleared-test_in y ny) refl

active-add_active : (g : Generation) (f : Filter) (x : ℕ) → (add_active g f x).active ≡ f.active
active-add_active table_a f x = refl
active-add_active table_b f x = refl

table-add_active :
    (g : Generation) (f : Filter) (x : ℕ)
    → active_table g (add_active g f x) ≡ add_to (active_table g f) x
table-add_active table_a f x = refl
table-add_active table_b f x = refl

active_table-IsTable : (g : Generation) (f : Filter) → IsFilter f → IsTable (active_table g f)
active_table-IsTable table_a f v = v.table_a_ok
active_table-IsTable table_b f v = v.table_b_ok

-- An expiry that is due keeps the active table's addresses and forgets the other table's; one that
-- is not due changes nothing.
pub test-expire :
    (f : Filter) (now y : ℕ)
    → y ≢ empty
    → filter_test (filter_expire f now) y
      ≡ (if leb f.next_flip now then test_in (active_table f.active f) y else filter_test f y)
unfolding filter_expire filter_test
test-expire f now y ny = elim (Bool-cases (leb f.next_flip now)) [
  | inl due ↦ rw due (unfold filter_test in test-flip f.active f y ny)
  | inr early ↦ rw early
]

-- After the flip the active table is the cleared one.
flip_active : (g : Generation) (f : Filter) → active_table (flip g f).active (flip g f) ≡ cleared
flip_active table_a f = refl
flip_active table_b f = refl

==_refl : (x : ℕ) → (x == x) ≡ true
==_refl x = (==_iff x x).1 refl

-- An address that is added while the active table has room is found after the next expiry,
-- whenever that comes.
pub added_survives :
    (f : Filter) (x now : ℕ)
    → IsFilter f
    → x ≢ empty
    → HasRoom (active_table f.active f)
    → filter_test (filter_expire (filter_add f x) now) x ≡ true
unfolding filter_add
added_survives f x now v nx room =
    test-expire (filter_add f x) now x nx ∙ by_time (leb (filter_add f x).next_flip now)
  where
    in_active : test_in (active_table (filter_add f x).active (filter_add f x)) x ≡ true
    in_active =
        rw (active-add_active f.active f x, table-add_active f.active f x)
          (test-add (active_table f.active f) x x (active_table-IsTable f.active f v) nx nx room
            ∙ ap (λ t. t || test_in (active_table f.active f) x) (==_refl x))

    in_filter : filter_test (filter_add f x) x ≡ true
    in_filter = test-filter_add f x x v nx nx room ∙ ap (λ t. t || filter_test f x) (==_refl x)

    by_time :
        (due : Bool)
        → (if due
            then test_in (active_table (filter_add f x).active (filter_add f x)) x
            else filter_test (filter_add f x) x)
          ≡ true
    by_time true = in_active
    by_time false = in_filter

active_table-expire :
    (f : Filter) (now : ℕ)
    → f.next_flip ≤ now
    → let f' = filter_expire f now in
      (active_table f'.active f' ≡ cleared) × (f'.next_flip ≡ u64 (now + filter_ttl))
unfolding filter_expire
active_table-expire f now due =
    let e : leb f.next_flip now ≡ true = ground arith in
    rw e (with_next f.active (u64 (now + filter_ttl)), refl)
  where
    with_next :
        (g : Generation) (n : ℕ)
        → let f' = record (flip g f) { next_flip = n } in active_table f'.active f' ≡ cleared
    with_next table_a n = refl
    with_next table_b n = refl

-- After two expiries that are both due, with no addition between them, no address is found.
pub two_expiries_forget :
    (f : Filter) (y now later : ℕ)
    → y ≢ empty
    → f.next_flip ≤ now
    → u64 (now + filter_ttl) ≤ later
    → filter_test (filter_expire (filter_expire f now) later) y ≡ false
two_expiries_forget f y now later ny due due' =
    test-expire (filter_expire f now) later y ny
    ∙ rw (due_again, (active_table-expire f now due).0) (cleared-test_in y ny)
  where
    due_again : leb (filter_expire f now).next_flip later ≡ true
    due_again = rw (active_table-expire f now due).1 (ground arith)
