-- ===== src/Fifo/Defs.antt =====
-- fifo.c: the queues and their operations. A linked list of buffers is a list, its head first, and
-- `fifo_tail` the list's last element; an operation is what one thread does while it holds the mutex,
-- so that a run is a sequence of operations. A wait that times out is the answer `none` on an empty
-- list; one that is woken goes on as the operation does on a list that is not empty.
use rbfeeder.Base.{
  ℕ, zero, suc, ◌+◌, ◌-◌, List, [], ◌∷◌, ◌++◌, Bool, true, false, ◌||◌, if◌then◌else◌, Option, none,
  some, take, drop, replicate, has,
}

-- `struct mag_buf`, without the measurements, which fifo.c does not touch; the `identity` is its address,
-- `next` its place in a list.
pub record Buffer : Type 0 where
  pub identity : ℕ
  pub samples : List ℕ
  pub total_length : ℕ
  pub valid_length : ℕ
  pub overlap : ℕ
  pub sample_timestamp : ℕ
  pub sys_timestamp : ℕ
  pub flags : ℕ

-- The static variables.
pub record Fifo : Type 0 where
  pub queue : List Buffer
  pub freelist : List Buffer
  pub halted : Bool
  pub overlap_length : ℕ
  pub overlap_buffer : List ℕ

-- The loop of `fifo_create`, from buffer `i`: `allocates` says which calls of `calloc` succeed, two for
-- each buffer. A failure is `none`.
unfoldable pub create_loop : (ℕ → Bool) → ℕ → ℕ → ℕ → List Buffer → Option (List Buffer)
create_loop allocates zero i buffer_size freelist = some freelist
create_loop allocates (suc left) i buffer_size freelist =
    let newbuf : Buffer = record {
      identity = i;
      samples = replicate buffer_size 0;
      total_length = buffer_size;
      valid_length = 0;
      overlap = 0;
      sample_timestamp = 0;
      sys_timestamp = 0;
      flags = 0;
    } in
    let rest = create_loop allocates left (i + 1) buffer_size (newbuf ∷ freelist) in
    if allocates (i + i + 1) then (if allocates (i + i + 2) then rest else none) else none

-- `fifo_destroy`: everything is freed.
unfoldable pub fifo_destroy : Fifo → Fifo
fifo_destroy f = record f { queue = []; freelist = []; overlap_buffer = [] }

-- `fifo_create`
unfoldable pub fifo_create : (ℕ → Bool) → ℕ → ℕ → ℕ → Fifo → Bool × Fifo
fifo_create allocates buffer_count buffer_size overlap f =
    let prepared = record f { overlap_buffer = replicate overlap 0; overlap_length = overlap } in
    let finished : Option (List Buffer) → Bool × Fifo = λ o. elim o [
      | none ↦ (false, fifo_destroy prepared)
      | some l ↦ (true, record prepared { freelist = l })
    ] in
    if allocates 0
    then finished (create_loop allocates buffer_count 0 buffer_size f.freelist)
    else (false, fifo_destroy f)

-- The loop of `fifo_halt`.
unfoldable pub halt_loop : List Buffer → List Buffer → List Buffer
halt_loop [] freelist = freelist
halt_loop (b ∷ queue) freelist = halt_loop queue (b ∷ freelist)

-- `fifo_halt`
unfoldable pub fifo_halt : Fifo → Fifo
fifo_halt f = record f { queue = []; freelist = halt_loop f.queue f.freelist; halted = true }

-- What `fifo_drain` waits for.
unfoldable pub is_drained : Fifo → Bool
is_drained f = (elim f.queue [ [] ↦ true | b ∷ bs ↦ false ]) || f.halted

-- `fifo_acquire`
unfoldable pub acquire_from : List Buffer → Fifo → Option Buffer × Fifo
acquire_from [] f = (none, f)
acquire_from (b ∷ rest) f = (
  some record b {
    overlap = f.overlap_length;
    valid_length = f.overlap_length;
    sample_timestamp = 0;
    sys_timestamp = 0;
    flags = 0;
  },
  record f { freelist = rest },
)

unfoldable pub fifo_acquire : Fifo → Option Buffer × Fifo
fifo_acquire f = if f.halted then (none, f) else acquire_from f.freelist f

-- The overlap region: the end of the previous buffer, or zeros after a discontinuity.
unfoldable pub with_overlap : Fifo → Buffer → Buffer
with_overlap f b =
    let n = f.overlap_length in
    let region = if has b.flags 1 then replicate n 0 else take n f.overlap_buffer in
    record b { samples = region ++ drop n b.samples }

-- `fifo_enqueue`; its asserts ask for `overlap_length` to `total_length` valid samples.
unfoldable pub fifo_enqueue : Fifo → Buffer → Fifo
fifo_enqueue f b =
    let n = f.overlap_length in
    let filled = with_overlap f b in
    if f.halted then record f { freelist = b ∷ f.freelist } else record f {
      overlap_buffer = take n (drop (b.valid_length - n) filled.samples);
      queue = f.queue ++ (filled ∷ []);
    }

-- `fifo_dequeue`
unfoldable pub dequeue_from : List Buffer → Fifo → Option Buffer × Fifo
dequeue_from [] f = (none, f)
dequeue_from (b ∷ rest) f = (some b, record f { queue = rest })

unfoldable pub fifo_dequeue : Fifo → Option Buffer × Fifo
fifo_dequeue f = if f.halted then (none, f) else dequeue_from f.queue f

-- `fifo_release`
unfoldable pub fifo_release : Fifo → Buffer → Fifo
fifo_release f b = record f { freelist = b ∷ f.freelist }
