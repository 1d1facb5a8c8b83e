-- ===== src/Fifo/InOrder.antt =====
-- Buffers leave the queue in the order in which they came.
use rbfeeder.Base.{
  ℕ, zero, suc, List, [], ◌∷◌, ◌++◌, false, none, some, ◌≡◌, refl, sym, ◌∙◌, ap, length, length-map,
  map,
}
use rbfeeder.Fifo.Defs.{Buffer, Fifo, with_overlap, fifo_enqueue, dequeue_from, fifo_dequeue}

-- A run of calls of `fifo_enqueue`, and one of calls of `fifo_dequeue`: the buffers that it is given.
pub enqueue_all : Fifo → List Buffer → Fifo
enqueue_all f [] = f
enqueue_all f (b ∷ bs) = enqueue_all (fifo_enqueue f b) bs

pub dequeue_all : ℕ → Fifo → List ℕ
dequeue_all zero f = []
dequeue_all (suc n) f = elim (fifo_dequeue f).0 [
  | none ↦ []
  | some b ↦ b.identity ∷ dequeue_all n (fifo_dequeue f).1
]

pub identities : List Buffer → List ℕ
identities bs = map (λ b. b.identity) bs

identities-append : (bs cs : List Buffer) → identities (bs ++ cs) ≡ identities bs ++ identities cs
unfolding identities
identities-append [] cs = refl
identities-append (b ∷ bs) cs = ap (λ t. b.identity ∷ t) (identities-append bs cs)

append_assoc : (xs ys zs : List ℕ) → (xs ++ ys) ++ zs ≡ xs ++ (ys ++ zs)
append_assoc [] ys zs = refl
append_assoc (x ∷ xs) ys zs = ap (λ t. x ∷ t) (append_assoc xs ys zs)

append_nil : (xs : List ℕ) → xs ≡ xs ++ []
append_nil [] = refl
append_nil (x ∷ xs) = ap (λ t. x ∷ t) (append_nil xs)

still_running : (f : Fifo) (b : Buffer) → f.halted ≡ false → (fifo_enqueue f b).halted ≡ false
unfolding fifo_enqueue
still_running f b h = rw h refl

enqueued :
    (f : Fifo) (b : Buffer)
    → f.halted ≡ false
    → identities (fifo_enqueue f b).queue ≡ identities f.queue ++ (b.identity ∷ [])
unfolding fifo_enqueue with_overlap identities
enqueued f b h = rw h (identities-append f.queue (with_overlap f b ∷ []))

all_enqueued :
    (bs : List Buffer) (f : Fifo)
    → f.halted ≡ false
    → (identities (enqueue_all f bs).queue ≡ identities f.queue ++ identities bs)
      × ((enqueue_all f bs).halted ≡ false)
unfolding enqueue_all identities
all_enqueued [] f h = (append_nil (identities f.queue), h)
all_enqueued (b ∷ bs) f h =
    let rest = all_enqueued bs (fifo_enqueue f b) (still_running f b h) in
    (
      rest.0
          ∙ ap (λ t. t ++ identities bs) (enqueued f b h)
          ∙ append_assoc (identities f.queue) (b.identity ∷ []) (identities bs),
      rest.1,
    )

all_dequeued :
    (q : List Buffer) (f : Fifo)
    → f.halted ≡ false
    → f.queue ≡ q
    → dequeue_all (length q) f ≡ identities q
unfolding dequeue_all identities fifo_dequeue dequeue_from
all_dequeued [] f h e = refl
all_dequeued (b ∷ q) f h e =
    rw (h, e)
      (ap (λ t. b.identity ∷ t) (all_dequeued q (record f { queue = q; halted = false }) refl refl))

-- From a running queue that is empty, the buffers that were enqueued are dequeued, all of them and in
-- the same order.
pub dequeue_all-enqueue_all :
    (f : Fifo) (bs : List Buffer)
    → f.halted ≡ false
    → f.queue ≡ []
    → dequeue_all (length bs) (enqueue_all f bs) ≡ identities bs
unfolding identities
dequeue_all-enqueue_all f bs running vacant =
    ap (λ n. dequeue_all n (enqueue_all f bs)) (sym same_length)
    ∙ all_dequeued (enqueue_all f bs).queue (enqueue_all f bs) (all_enqueued bs f running).1 refl
    ∙ same
  where
    same : identities (enqueue_all f bs).queue ≡ identities bs
    same = (all_enqueued bs f running).0 ∙ ap (λ q. identities q ++ identities bs) vacant

    same_length : length (enqueue_all f bs).queue ≡ length bs
    same_length =
        sym (length-map (enqueue_all f bs).queue (λ b. b.identity))
        ∙ ap length same
        ∙ length-map bs (λ b. b.identity)
