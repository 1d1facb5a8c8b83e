-- ===== src/Track/Chain.antt =====
-- track.c: the loop of `trackRemoveStaleAircraft` on the pointers of the list. The heap is partial, 0 is
-- NULL, and a read of NULL or of freed memory fails.
use rbfeeder.Base.{ℕ, zero, suc, ◌==◌, if◌then◌else◌, Option, none, some}
use rbfeeder.Track.Aircraft.{Aircraft}
use rbfeeder.Track.Position.{Stats}
use rbfeeder.Track.Periodic.{is_stale, count_removed, expire_aircraft}

-- An aircraft with its `next`.
pub record Node : Type 0 where
  pub aircraft : Aircraft
  pub next : ℕ

abbrev pub Heap : Type 0
Heap = ℕ → Option Node

-- `*p = n` and `free(p)`
unfoldable pub write : Heap → ℕ → Node → Heap
write heap p n q = if q == p then some n else heap q

unfoldable pub free : Heap → ℕ → Heap
free heap p q = if q == p then none else heap q

-- The heap, `Modes.aircrafts`, the two local variables and the counters.
pub record Cursor : Type 0 where
  pub heap : Heap
  pub head : ℕ
  pub prev : ℕ
  pub a : ℕ
  pub stats : Stats

-- The element is taken out, with care if it is the first one.
unfoldable pub unlink_after : Option Node → ℕ → Cursor → Option Cursor
unlink_after none next c = none
unlink_after (some p) next c =
    some (record c { heap = free (write c.heap c.prev (record p { next = next })) c.a; a = next })

unfoldable pub unlink : ℕ → Cursor → Option Cursor
unlink next c =
    if c.prev == 0
    then some (record c { head = next; heap = free c.heap c.a; a = next })
    else unlink_after (c.heap c.prev) next c

unfoldable pub and_then : Option Cursor → (Cursor → Option Cursor) → Option Cursor
and_then none f = none
and_then (some c) f = f c

module _ (now : ℕ) where
  unfoldable pub visit : Option Node → Cursor → Option Cursor
  visit none c = none
  visit (some node) c =
      if is_stale now node.aircraft.presence
      then unlink node.next (record c { stats = count_removed node.aircraft.presence c.stats })
      else some (record c {
        heap = write c.heap c.a (record node { aircraft = expire_aircraft now node.aircraft });
        prev = c.a;
        a = node.next;
      })

  -- The loop, on fuel; `none` is a failed access, or no fuel.
  unfoldable pub sweep : ℕ → Cursor → Option Cursor
  sweep zero c = none
  sweep (suc n) c =
      let rest : Cursor → Option Cursor = sweep n in
      if c.a == 0 then some c else and_then (visit (c.heap c.a) c) rest

  -- `trackRemoveStaleAircraft` from the head of the list.
  unfoldable pub sweep_chain : ℕ → Heap → ℕ → Stats → Option Cursor
  sweep_chain fuel heap head stats =
      sweep fuel record { heap = heap; head = head; prev = 0; a = head; stats = stats }
