-- ===== src/Fifo/Overlap.antt =====
-- What the overlap region of a queued buffer holds.
use rbfeeder.Base.{
  ℕ, zero, suc, ◌-◌, ◌≤◌, List, [], ◌∷◌, ◌++◌, Bool, true, false, ◌≡◌, refl, ap, arith, length,
  take, drop, replicate, has, length-take, length-drop, length-append, length-replicate,
  if◌then◌else◌,
}
use rbfeeder.Fifo.Defs.{Buffer, Fifo, with_overlap, fifo_enqueue}

take_whole : (n : ℕ) (region rest : List ℕ) → length region ≡ n → take n (region ++ rest) ≡ region
take_whole zero [] rest h = refl
take_whole zero (x ∷ region) rest h = absurd (omega arith)
take_whole (suc n) [] rest h = absurd (omega arith)
take_whole (suc n) (x ∷ region) rest h = ap (λ t. x ∷ t) (take_whole n region rest (omega arith))

take_all : (n : ℕ) (xs : List ℕ) → length xs ≡ n → take n xs ≡ xs
take_all zero [] h = refl
take_all zero (x ∷ xs) h = absurd (omega arith)
take_all (suc n) [] h = absurd (omega arith)
take_all (suc n) (x ∷ xs) h = ap (λ t. x ∷ t) (take_all n xs (omega arith))

append_two {ℓ} :
    {A : Type ℓ} (xs : List A) (x y : A) → (xs ++ (x ∷ [])) ++ (y ∷ []) ≡ xs ++ (x ∷ y ∷ [])
append_two [] x y = refl
append_two (z ∷ xs) x y = ap (λ t. z ∷ t) (append_two xs x y)

drop_after :
    (n : ℕ) (region xs : List ℕ) → length region ≡ n → drop n (region ++ drop n xs) ≡ drop n xs
drop_after zero [] xs h = refl
drop_after zero (x ∷ region) xs h = absurd (omega arith)
drop_after (suc n) [] xs h = absurd (omega arith)
drop_after (suc n) (x ∷ region) [] h = after_all n region (omega arith)
  where
    after_all : (k : ℕ) (r : List ℕ) → length r ≡ k → drop k (r ++ []) ≡ []
    after_all zero [] e = refl
    after_all zero (y ∷ r) e = absurd (omega arith)
    after_all (suc k) [] e = absurd (omega arith)
    after_all (suc k) (y ∷ r) e = after_all k r (omega arith)
drop_after (suc n) (x ∷ region) (y ∷ xs) h = drop_after n region xs (omega arith)

region_length :
    (n : ℕ) (saved : List ℕ) (t : Bool)
    → length saved ≡ n
    → length (if t then replicate n 0 else take n saved) ≡ n
region_length n saved true h = length-replicate n 0
region_length n saved false h = omega (arith, length-take n saved, h)

-- The samples behind the overlap of a queued buffer are its own.
with_overlap-own :
    (f : Fifo) (b : Buffer)
    → length f.overlap_buffer ≡ f.overlap_length
    → drop f.overlap_length (with_overlap f b).samples ≡ drop f.overlap_length b.samples
unfolding with_overlap
with_overlap-own f b size =
    drop_after f.overlap_length
      (if has b.flags 1
        then replicate f.overlap_length 0
        else take f.overlap_length f.overlap_buffer)
      b.samples (region_length f.overlap_length f.overlap_buffer (has b.flags 1) size)

-- Of two buffers that fifo_enqueue takes one after the other while the queue runs, the second without the
-- flag of a discontinuity, the queue holds both behind what it held, with the samples behind their first
-- `overlap_length` ones as they were, and with the last `overlap_length` valid samples of the first as
-- the first ones of the second; the first has at least that many valid samples, all of them allocated,
-- and the overlap buffer its full length.
pub enqueue-continuous :
    (f : Fifo) (b c : Buffer)
    → f.halted ≡ false
    → has c.flags 1 ≡ false
    → f.overlap_length ≤ b.valid_length
    → length f.overlap_buffer ≡ f.overlap_length
    → b.valid_length ≤ length b.samples
    → (let n = f.overlap_length in
        (first : List ℕ) × (second : List ℕ) × ((fifo_enqueue (fifo_enqueue f b) c).queue
          ≡ f.queue ++ (record b { samples = first } ∷ record c { samples = second } ∷ []))
        × (drop n first ≡ drop n b.samples)
        × (drop n second ≡ drop n c.samples)
        × (take n second ≡ take n (drop (b.valid_length - n) first)))
unfolding fifo_enqueue with_overlap
enqueue-continuous f b c running continuous enough size room = (
  first,
  saved ++ drop n c.samples,
  rw (running, continuous, take_all n saved saved_length)
      (append_two f.queue (record b { samples = first })
        (record c { samples = saved ++ drop n c.samples })),
  with_overlap-own f b size,
  drop_after n saved c.samples saved_length,
  take_whole n saved (drop n c.samples) saved_length,
)
  where
    n : ℕ
    n = f.overlap_length

    first : List ℕ
    first = (if has b.flags 1 then replicate n 0 else take n f.overlap_buffer) ++ drop n b.samples

    saved : List ℕ
    saved = take n (drop (b.valid_length - n) first)

    saved_length : length saved ≡ n
    saved_length = omega (
      arith,
      length-take n (drop (b.valid_length - n) first),
      length-drop (b.valid_length - n) first,
      length-append (if has b.flags 1 then replicate n 0 else take n f.overlap_buffer)
          (drop n b.samples),
      region_length n f.overlap_buffer (has b.flags 1) size,
      length-drop n b.samples,
      enough,
      room,
    )
