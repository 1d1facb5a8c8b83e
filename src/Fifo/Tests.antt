-- ===== src/Fifo/Tests.antt =====
-- fifo.c with one buffer, and the theorems at it.
use rbfeeder.Base.{ℕ, ◌∷◌, [], ◌≡◌, refl, arith, take, drop, false, some, List}
use rbfeeder.Fifo.Defs.{
  Buffer, Fifo, acquire_from, fifo_acquire, with_overlap, fifo_enqueue, fifo_halt,
}
use rbfeeder.Fifo.Overlap.{enqueue-continuous}
use rbfeeder.Fifo.InOrder.{enqueue_all, dequeue_all, identities, dequeue_all-enqueue_all}
use rbfeeder.Fifo.Conservation.{Step, Steps, everywhere, Steps-everywhere}

abbrev buffer : ℕ → List ℕ → Buffer
buffer identity samples = record {
  identity = identity;
  samples = samples;
  total_length = 5;
  valid_length = 5;
  overlap = 2;
  sample_timestamp = 0;
  sys_timestamp = 0;
  flags = 0;
}

abbrev running : Fifo
running = record {
  queue = [];
  freelist = buffer 7 (0 ∷ 0 ∷ 0 ∷ 0 ∷ 0 ∷ []) ∷ [];
  halted = false;
  overlap_length = 2;
  overlap_buffer = 0 ∷ 0 ∷ [];
}

abbrev first : Buffer
first = buffer 1 (0 ∷ 0 ∷ 1 ∷ 2 ∷ 3 ∷ [])

abbrev second : Buffer
second = buffer 2 (0 ∷ 0 ∷ 4 ∷ 5 ∷ 6 ∷ [])

-- The second buffer starts as the first ended.
overlapped : (with_overlap (fifo_enqueue running first) second).samples ≡ 2 ∷ 3 ∷ 4 ∷ 5 ∷ 6 ∷ []
unfolding with_overlap fifo_enqueue
overlapped = refl

enqueue-continuous_example :
    (one : List ℕ) × (two : List ℕ) × ((fifo_enqueue (fifo_enqueue running first) second).queue
      ≡ record first { samples = one } ∷ record second { samples = two } ∷ [])
    × (drop 2 one ≡ 1 ∷ 2 ∷ 3 ∷ [])
    × (drop 2 two ≡ 4 ∷ 5 ∷ 6 ∷ [])
    × (take 2 two ≡ take 2 (drop 3 one))
enqueue-continuous_example =
    enqueue-continuous running first second refl refl (omega arith) refl (omega arith)

-- The buffer is acquired, and the queue halted.
abbrev acquired : Buffer
acquired = record (buffer 7 (0 ∷ 0 ∷ 0 ∷ 0 ∷ 0 ∷ [])) { valid_length = 2 }

acquires : fifo_acquire running ≡ (some acquired, record running { freelist = [] })
unfolding fifo_acquire acquire_from
acquires = refl

Steps-everywhere_example :
    everywhere 7 (record { fifo = running; held = [] })
    ≡ everywhere 7
        (record { fifo = fifo_halt (record running { freelist = [] }); held = acquired ∷ [] })
Steps-everywhere_example =
    Steps-everywhere 7 (Steps.◌then◌ (Step.acquire acquires) (Steps.◌then◌ Step.halt Steps.done))

dequeue_all-enqueue_all_example :
    dequeue_all 2 (enqueue_all running (first ∷ second ∷ [])) ≡ identities (first ∷ second ∷ [])
dequeue_all-enqueue_all_example = dequeue_all-enqueue_all running (first ∷ second ∷ []) refl refl
