-- ===== src/Fifo/Conservation.antt =====
-- No buffer is lost or doubled, whatever the threads do.
use rbfeeder.Base.{
  ℕ, ◌+◌, List, [], ◌∷◌, ◌++◌, Bool, true, false, ◌==◌, if◌then◌else◌, Option, none, some, ◌≡◌,
  refl, sym, ◌∙◌, ap, arith, Bool-cases, inl, inr,
}
use rbfeeder.Fifo.Defs.{
  Buffer, Fifo, halt_loop, fifo_halt, acquire_from, fifo_acquire, with_overlap, fifo_enqueue,
  dequeue_from, fifo_dequeue, fifo_release,
}

-- The queues, and the buffers that the threads have acquired or dequeued and not given back.
pub record System : Type 0 where
  pub fifo : Fifo
  pub held : List Buffer

-- One operation of some thread: a buffer is enqueued or released by a thread that holds it, the
-- former after the thread has filled it in.
pub data Step : System → System → Type 0 where
  acquire :
      {f g : Fifo} {held : List Buffer} {b : Buffer}
      → fifo_acquire f ≡ (some b, g)
      → Step (record { fifo = f; held = held }) (record { fifo = g; held = b ∷ held })
  enqueue :
      {f : Fifo} (before after : List Buffer) (b filled : Buffer)
      → filled.identity ≡ b.identity
      → Step
          (record { fifo = f; held = before ++ b ∷ after })
          (record { fifo = fifo_enqueue f filled; held = before ++ after })
  dequeue :
      {f g : Fifo} {held : List Buffer} {b : Buffer}
      → fifo_dequeue f ≡ (some b, g)
      → Step (record { fifo = f; held = held }) (record { fifo = g; held = b ∷ held })
  release :
      {f : Fifo} (before after : List Buffer) (b : Buffer)
      → Step
          (record { fifo = f; held = before ++ b ∷ after })
          (record { fifo = fifo_release f b; held = before ++ after })
  halt :
      {f : Fifo} {held : List Buffer}
      → Step (record { fifo = f; held = held }) (record { fifo = fifo_halt f; held = held })

infixr 40 ◌then◌
pub data Steps : System → System → Type 0 where
  done : {s : System} → Steps s s
  ◌then◌ : {s t u : System} → Step s t → Steps t u → Steps s u

-- How often a buffer occurs.
pub occurrences : ℕ → List Buffer → ℕ
occurrences x [] = 0
occurrences x (b ∷ bs) = (if b.identity == x then 1 else 0) + occurrences x bs

pub everywhere : ℕ → System → ℕ
everywhere x s = occurrences x s.fifo.queue + occurrences x s.fifo.freelist + occurrences x s.held

module _ (x : ℕ) where
  occurrences-append :
      (bs cs : List Buffer) → occurrences x (bs ++ cs) ≡ occurrences x bs + occurrences x cs
  unfolding occurrences
  occurrences-append [] cs = omega arith
  occurrences-append (b ∷ bs) cs = omega (arith, occurrences-append bs cs)

  occurrences-middle :
      (before after : List Buffer) (b : Buffer)
      → occurrences x (before ++ b ∷ after)
        ≡ (if b.identity == x then 1 else 0) + occurrences x (before ++ after)
  unfolding occurrences
  occurrences-middle [] after b = refl
  occurrences-middle (c ∷ before) after b = omega (arith, occurrences-middle before after b)

  occurrences-halt_loop :
      (queue freelist : List Buffer)
      → occurrences x (halt_loop queue freelist) ≡ occurrences x queue + occurrences x freelist
  unfolding occurrences halt_loop
  occurrences-halt_loop [] freelist = omega arith
  occurrences-halt_loop (b ∷ queue) freelist =
      omega (arith, occurrences-halt_loop queue (b ∷ freelist))

  abbrev one : Buffer → ℕ
  one b = if b.identity == x then 1 else 0

  -- What is taken from a list was its first.
  acquire_from-count :
      (l : List Buffer) (f : Fifo) {b : Buffer} {g : Fifo}
      → acquire_from l f ≡ (some b, g)
      → (one b + occurrences x g.freelist ≡ occurrences x l) × (g.queue ≡ f.queue)
  unfolding acquire_from occurrences
  acquire_from-count [] f {b} h = let e : none ≡ some b = ap (λ p. p.0) h in cc
  acquire_from-count (r ∷ rest) f {b} {g} h = (
    omega (arith, ap (λ p. option_one p.0) h, ap (λ p. occurrences x p.1.freelist) h),
    sym (ap (λ p. p.1.queue) h),
  )
    where
      option_one : Option Buffer → ℕ
      option_one none = 0
      option_one (some c) = one c

  dequeue_from-count :
      (l : List Buffer) (f : Fifo) {b : Buffer} {g : Fifo}
      → dequeue_from l f ≡ (some b, g)
      → (one b + occurrences x g.queue ≡ occurrences x l) × (g.freelist ≡ f.freelist)
  unfolding dequeue_from occurrences
  dequeue_from-count [] f {b} h = let e : none ≡ some b = ap (λ p. p.0) h in cc
  dequeue_from-count (r ∷ rest) f {b} {g} h = (
    omega (arith, ap (λ p. option_one p.0) h, ap (λ p. occurrences x p.1.queue) h),
    sym (ap (λ p. p.1.freelist) h),
  )
    where
      option_one : Option Buffer → ℕ
      option_one none = 0
      option_one (some c) = one c

  not_halted :
      {b : Buffer} {g : Fifo} (t : Bool) (stopped : Option Buffer × Fifo) (p : Option Buffer × Fifo)
      → stopped.0 ≡ none
      → (if t then stopped else p) ≡ (some b, g)
      → p ≡ (some b, g)
  not_halted {b} true stopped p nothing h =
      let e : none ≡ some b = sym nothing ∙ ap (λ q. q.0) h in cc
  not_halted false stopped p nothing h = h

  acquire-count :
      (f : Fifo) {b : Buffer} {g : Fifo}
      → fifo_acquire f ≡ (some b, g)
      → (one b + occurrences x g.freelist ≡ occurrences x f.freelist) × (g.queue ≡ f.queue)
  unfolding fifo_acquire
  acquire-count f {b} {g} h =
      acquire_from-count f.freelist f
        (not_halted f.halted (none, f) (acquire_from f.freelist f) refl h)

  dequeue-count :
      (f : Fifo) {b : Buffer} {g : Fifo}
      → fifo_dequeue f ≡ (some b, g)
      → (one b + occurrences x g.queue ≡ occurrences x f.queue) × (g.freelist ≡ f.freelist)
  unfolding fifo_dequeue
  dequeue-count f {b} {g} h =
      dequeue_from-count f.queue f (not_halted f.halted (none, f) (dequeue_from f.queue f) refl h)

  enqueue-count :
      (f : Fifo) (filled : Buffer)
      → occurrences x (fifo_enqueue f filled).queue + occurrences x (fifo_enqueue f filled).freelist
        ≡ one filled + (occurrences x f.queue + occurrences x f.freelist)
  unfolding fifo_enqueue with_overlap occurrences
  enqueue-count f filled = elim (Bool-cases f.halted) [
    | inl stopped ↦ rw stopped (omega arith)
    | inr running ↦
        rw running (omega (arith, occurrences-append f.queue (with_overlap f filled ∷ [])))
  ]

  Step-everywhere : {s t : System} → Step s t → everywhere x s ≡ everywhere x t
  unfolding everywhere fifo_release fifo_halt occurrences
  Step-everywhere (acquire {f} {g} h) =
      let c = acquire-count f h in omega (arith, c.0, ap (occurrences x) c.1)
  Step-everywhere (dequeue {f} {g} h) =
      let c = dequeue-count f h in omega (arith, c.0, ap (occurrences x) c.1)
  Step-everywhere (enqueue {f} before after b filled same) = omega (
    arith,
    occurrences-middle before after b,
    enqueue-count f filled,
    ap {B = ℕ} (λ i. if i == x then 1 else 0) same,
  )
  Step-everywhere (release before after b) = omega (arith, occurrences-middle before after b)
  Step-everywhere (halt {f}) = omega (arith, occurrences-halt_loop f.queue f.freelist)

  -- Whatever the threads do, in whatever order, each buffer stays as often in the queue, on the free
  -- list or in the hands of a thread as it was: none is lost, and none is in two places.
  pub Steps-everywhere : {s t : System} → Steps s t → everywhere x s ≡ everywhere x t
  Steps-everywhere done = refl
  Steps-everywhere (first then rest) = Step-everywhere first ∙ Steps-everywhere rest
