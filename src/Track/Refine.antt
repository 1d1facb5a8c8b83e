-- ===== src/Track/Refine.antt =====
-- The loop on the pointers computes the list that is left, and reads no freed memory.
use rbfeeder.Base.{
  ℕ, zero, suc, ◌<◌, List, [], ◌∷◌, length, Bool, true, false, not, ◌&&◌, ◌==◌, some, ◌≡◌, ◌≢◌,
  refl, ap, sym, subst, ◌∙◌, arith, inl, inr, Bool-cases,
}
use rbfeeder.Track.Aircraft.{Aircraft}
use rbfeeder.Track.Position.{Stats}
use rbfeeder.Track.Periodic.{
  is_stale, count_removed, expire_aircraft, remaining, count_stale, track_remove_stale_aircraft,
}
use rbfeeder.Track.Update.{Tracker}
use rbfeeder.Track.Chain.{
  Node, Heap, write, free, Cursor, unlink_after, unlink, visit, and_then, sweep, sweep_chain,
}

unfoldable pub is_new : ℕ → List ℕ → Bool
is_new p [] = true
is_new p (q ∷ ps) = not (p == q) && is_new p ps

-- The pointers `ps` lead from `p` through the aircraft of a list to NULL.
pub data Chained (heap : Heap) : ℕ → List ℕ → List Aircraft → Type 0 where
  ends : Chained heap 0 [] []
  leads :
      (p q : ℕ) (ps : List ℕ) (a : Aircraft) (rest : List Aircraft)
      → p ≢ 0
      → heap p ≡ some record { aircraft = a; next = q }
      → is_new p ps ≡ true
      → Chained heap q ps rest
      → Chained heap p (p ∷ ps) (a ∷ rest)

-- Two heaps agree on pointers.
agree :
    (h1 h2 : Heap) (p : ℕ) (ps : List ℕ) (rest : List Aircraft)
    → ((q : ℕ) → is_new q ps ≡ false → h2 q ≡ h1 q)
    → Chained h1 p ps rest
    → Chained h2 p ps rest
unfolding is_new
agree h1 h2 _ _ _ same ends = ends
agree h1 h2 _ _ _ same (leads p q ps a rest hp node new more) =
    leads p q ps a rest hp (same p (rw (self p) refl) ∙ node) new
      (agree h1 h2 q ps rest (λ r hr. same r (inside r p ps hr)) more)
  where
    self : (p : ℕ) → (p == p) ≡ true
    self p = ground arith

    inside : (r p : ℕ) (ps : List ℕ) → is_new r ps ≡ false → (not (r == p) && is_new r ps) ≡ false
    inside r p ps h = ground arith

module _ (now : ℕ) where
  sweep-step :
      (m : ℕ) (c d : Cursor)
      → (c.a == 0) ≡ false
      → visit now (c.heap c.a) c ≡ some d
      → sweep now (suc m) c ≡ sweep now m d
  unfolding sweep and_then
  sweep-step m c d h0 hv = rw (h0, hv) refl

  visit-kept :
      (c : Cursor) (x : Aircraft) (q : ℕ)
      → is_stale now x.presence ≡ false
      → c.heap c.a ≡ some record { aircraft = x; next = q }
      → visit now (c.heap c.a) c
        ≡ some (record c {
          heap = write c.heap c.a record { aircraft = expire_aircraft now x; next = q };
          prev = c.a;
          a = q;
        })
  unfolding visit
  visit-kept c x q live hn = rw (hn, live) refl

  visit-first :
      (c : Cursor) (x : Aircraft) (q : ℕ)
      → is_stale now x.presence ≡ true
      → c.heap c.a ≡ some record { aircraft = x; next = q }
      → (c.prev == 0) ≡ true
      → visit now (c.heap c.a) c
        ≡ some (record c {
          head = q;
          heap = free c.heap c.a;
          a = q;
          stats = count_removed x.presence c.stats;
        })
  unfolding visit unlink
  visit-first c x q stale hn first = rw (hn, stale, first) refl

  visit-inner :
      (c : Cursor) (x y : Aircraft) (q p : ℕ)
      → is_stale now x.presence ≡ true
      → c.heap c.a ≡ some record { aircraft = x; next = q }
      → (c.prev == 0) ≡ false
      → c.heap c.prev ≡ some record { aircraft = y; next = p }
      → visit now (c.heap c.a) c
        ≡ some (record c {
          heap = free (write c.heap c.prev record { aircraft = y; next = q }) c.a;
          a = q;
          stats = count_removed x.presence c.stats;
        })
  unfolding visit unlink unlink_after
  visit-inner c x y q p stale hn inner hp = rw (hn, stale, inner, hp) refl

  -- What the loop makes of the rest of the list after the node `k`: a chain from its `next`.
  record AfterNode (heap : Heap) (head k : ℕ) (c : Aircraft) (ps : List ℕ) (rest : List Aircraft)
      (stats : Stats) (out : Cursor) : Type 0 where
    first : ℕ
    left : List ℕ
    head_same : out.head ≡ head
    slot : out.heap k ≡ some record { aircraft = c; next = first }
    chain : Chained out.heap first left (remaining now rest)
    subset : (q : ℕ) → is_new q ps ≡ true → is_new q left ≡ true
    frame : (q : ℕ) → q ≢ k → is_new q ps ≡ true → out.heap q ≡ heap q
    counted : out.stats ≡ count_stale now rest stats

  -- The equation of a Boolean test and what it says.
  nonzero : (p : ℕ) → p ≢ 0 → (p == 0) ≡ false
  nonzero p h = ground arith

  write-same : (h : Heap) (p : ℕ) (n : Node) → write h p n p ≡ some n
  unfolding write
  write-same h p n = rw (equal p) refl
    where
      equal : (p : ℕ) → (p == p) ≡ true
      equal p = ground arith

  write-other : (h : Heap) (p q : ℕ) (n : Node) → q ≢ p → write h p n q ≡ h q
  unfolding write
  write-other h p q n hq = rw (apart p q hq) refl
    where
      apart : (p q : ℕ) → q ≢ p → (q == p) ≡ false
      apart p q h = ground arith

  free-other : (h : Heap) (p q : ℕ) → q ≢ p → free h p q ≡ h q
  unfolding free
  free-other h p q hq = rw (apart p q hq) refl
    where
      apart : (p q : ℕ) → q ≢ p → (q == p) ≡ false
      apart p q h = ground arith

  -- A pointer of the chain is not one that is new to it.
  apart_from : (p q : ℕ) (ps : List ℕ) → is_new p ps ≡ true → is_new q ps ≡ false → q ≢ p
  apart_from p q ps hp hq e = true_is_not_false (sym hp ∙ ap (λ r. is_new r ps) (sym e) ∙ hq)
    where
      true_is_not_false : true ≢ false
      true_is_not_false h = ground arith

  head_and_tail :
      (q p : ℕ) (ps : List ℕ) → is_new q (p ∷ ps) ≡ true → (q ≢ p) × (is_new q ps ≡ true)
  unfolding is_new
  head_and_tail q p ps h = (ground arith, ground arith)

  cons_new : (q p : ℕ) (ps : List ℕ) → q ≢ p → is_new q ps ≡ true → is_new q (p ∷ ps) ≡ true
  unfolding is_new
  cons_new q p ps hq h = ground arith

  remaining-stale :
      (x : Aircraft) (rest : List Aircraft)
      → is_stale now x.presence ≡ true
      → remaining now (x ∷ rest) ≡ remaining now rest
  unfolding remaining
  remaining-stale x rest stale = rw stale refl

  remaining-live :
      (x : Aircraft) (rest : List Aircraft)
      → is_stale now x.presence ≡ false
      → remaining now (x ∷ rest) ≡ expire_aircraft now x ∷ remaining now rest
  unfolding remaining
  remaining-live x rest live = rw live refl

  count-stale :
      (x : Aircraft) (rest : List Aircraft) (stats : Stats)
      → is_stale now x.presence ≡ true
      → count_stale now (x ∷ rest) stats ≡ count_stale now rest (count_removed x.presence stats)
  unfolding count_stale
  count-stale x rest stats stale = rw stale refl

  count-live :
      (x : Aircraft) (rest : List Aircraft) (stats : Stats)
      → is_stale now x.presence ≡ false
      → count_stale now (x ∷ rest) stats ≡ count_stale now rest stats
  unfolding count_stale
  count-live x rest stats live = rw live refl

  after_removed :
      (h : Heap) (head k : ℕ) (c : Aircraft) (p q : ℕ) (ps : List ℕ) (x : Aircraft)
      (rest : List Aircraft) (stats : Stats) (out : Cursor)
      → is_stale now x.presence ≡ true
      → AfterNode
          (free (write h k record { aircraft = c; next = q }) p)
          head
          k
          c
          ps
          rest
          (count_removed x.presence stats)
          out
      → AfterNode h head k c (p ∷ ps) (x ∷ rest) stats out
  after_removed h head k c p q ps x rest stats out stale r = record {
    first = r.first;
    left = r.left;
    head_same = r.head_same;
    slot = r.slot;
    chain =
        subst (λ l. Chained out.heap r.first r.left l) (sym (remaining-stale x rest stale)) r.chain;
    subset = λ t ht. r.subset t (head_and_tail t p ps ht).1;
    frame = λ t hk ht.
        r.frame t hk (head_and_tail t p ps ht).1
        ∙ free-other (write h k record { aircraft = c; next = q }) p t (head_and_tail t p ps ht).0
        ∙ write-other h k t record { aircraft = c; next = q } hk;
    counted = r.counted ∙ sym (count-stale x rest stats stale);
  }

  after_kept :
      (h : Heap) (head k : ℕ) (c : Aircraft) (p q : ℕ) (ps : List ℕ) (x : Aircraft)
      (rest : List Aircraft) (stats : Stats) (out : Cursor)
      → h k ≡ some record { aircraft = c; next = p }
      → is_new k (p ∷ ps) ≡ true
      → p ≢ 0
      → is_new p ps ≡ true
      → is_stale now x.presence ≡ false
      → AfterNode
          (write h p record { aircraft = expire_aircraft now x; next = q })
          head
          p
          (expire_aircraft now x)
          ps
          rest
          stats
          out
      → AfterNode h head k c (p ∷ ps) (x ∷ rest) stats out
  after_kept h head k c p q ps x rest stats out hc hn hp new live r = record {
    first = p;
    left = p ∷ r.left;
    head_same = r.head_same;
    slot =
        r.frame k (head_and_tail k p ps hn).0 (head_and_tail k p ps hn).1
        ∙ write-other h p k _ (head_and_tail k p ps hn).0
        ∙ hc;
    chain =
        subst (λ l. Chained out.heap p (p ∷ r.left) l) (sym (remaining-live x rest live))
          (leads p r.first r.left (expire_aircraft now x) (remaining now rest) hp r.slot
            (r.subset p new) r.chain);
    subset = λ t ht.
        cons_new t p r.left (head_and_tail t p ps ht).0 (r.subset t (head_and_tail t p ps ht).1);
    frame = λ t hk ht.
        r.frame t (head_and_tail t p ps ht).0 (head_and_tail t p ps ht).1
        ∙ write-other h p t _ (head_and_tail t p ps ht).0;
    counted = r.counted ∙ sym (count-live x rest stats live);
  }

  after_node :
      (h : Heap) (head k : ℕ) (c : Aircraft) (p : ℕ) (ps : List ℕ) (rest : List Aircraft)
      (stats : Stats) (n : ℕ)
      → k ≢ 0
      → h k ≡ some record { aircraft = c; next = p }
      → is_new k ps ≡ true
      → Chained h p ps rest
      → length rest < n
      → (out : Cursor) × (sweep now n
            record { heap = h; head = head; prev = k; a = p; stats = stats }
          ≡ some out)
        × AfterNode h head k c ps rest stats out
  after_node h head k c _ _ _ stats zero hk hc hn _ fuel = absurd (omega (arith, fuel))
  after_node h head k c _ _ _ stats (suc m) hk hc hn ends fuel = (
    record { heap = h; head = head; prev = k; a = 0; stats = stats },
    (unfold sweep in refl),
    record {
      first = 0;
      left = [];
      head_same = refl;
      slot = hc;
      chain = unfold remaining in ends;
      subset = λ q hq. hq;
      frame = λ q _ _. refl;
      counted = unfold count_stale in refl;
    },
  )
  after_node h head k c _ _ _ stats (suc m) hk hc hn (leads p q ps x rest hp node new more) fuel =
      elim (Bool-cases (is_stale now x.presence)) [
        | inl stale ↦
            let h1 : Heap = free (write h k record { aircraft = c; next = q }) p in
            let kp = head_and_tail k p ps hn in
            let next =
              after_node h1 head k c q ps rest (count_removed x.presence stats) m hk
                (free-other (write h k record { aircraft = c; next = q }) p k kp.0
                  ∙ write-same h k record { aircraft = c; next = q })
                kp.1
                (agree h h1 q ps rest
                  (λ r hr.
                    free-other (write h k record { aircraft = c; next = q }) p r
                      (apart_from p r ps new hr)
                    ∙ write-other h k r record { aircraft = c; next = q }
                        (apart_from k r ps kp.1 hr))
                  more)
                (omega (arith, fuel)) in
            (
              next.0,
              sweep-step m record { heap = h; head = head; prev = k; a = p; stats = stats } _
                    (nonzero p hp)
                    (visit-inner record { heap = h; head = head; prev = k; a = p; stats = stats } x
                      c q p stale node (nonzero k hk) hc)
                  ∙ next.1,
              after_removed h head k c p q ps x rest stats next.0 stale next.2,
            )
        | inr live ↦
            let h1 : Heap = write h p record { aircraft = expire_aircraft now x; next = q } in
            let next =
              after_node h1 head p (expire_aircraft now x) q ps rest stats m hp
                (write-same h p record { aircraft = expire_aircraft now x; next = q }) new
                (agree h h1 q ps rest (λ r hr. write-other h p r _ (apart_from p r ps new hr)) more)
                (omega (arith, fuel)) in
            (
              next.0,
              sweep-step m record { heap = h; head = head; prev = k; a = p; stats = stats } _
                    (nonzero p hp)
                    (visit-kept record { heap = h; head = head; prev = k; a = p; stats = stats } x q
                      live node)
                  ∙ next.1,
              after_kept h head k c p q ps x rest stats next.0 hc hn hp new live next.2,
            )
      ]

  -- A chain for the list that is left, and its counts.
  record Swept (rest : List Aircraft) (stats : Stats) (out : Cursor) : Type 0 where
    left : List ℕ
    chain : Chained out.heap out.head left (remaining now rest)
    counted : out.stats ≡ count_stale now rest stats

  from_head :
      (h : Heap) (p : ℕ) (ps : List ℕ) (rest : List Aircraft) (stats : Stats) (n : ℕ)
      → Chained h p ps rest
      → length rest < n
      → (out : Cursor) × (sweep now n record { heap = h; head = p; prev = 0; a = p; stats = stats }
          ≡ some out)
        × Swept rest stats out
  from_head h _ _ _ stats zero _ fuel = absurd (omega (arith, fuel))
  from_head h _ _ _ stats (suc m) ends fuel = (
    record { heap = h; head = 0; prev = 0; a = 0; stats = stats },
    (unfold sweep in refl),
    record { left = []; chain = unfold remaining in ends; counted = unfold count_stale in refl },
  )
  from_head h _ _ _ stats (suc m) (leads p q ps x rest hp node new more) fuel =
      let c : Cursor = record { heap = h; head = p; prev = 0; a = p; stats = stats } in
      elim (Bool-cases (is_stale now x.presence)) [
        | inl stale ↦
            let next =
              from_head (free h p) q ps rest (count_removed x.presence stats) m
                (agree h (free h p) q ps rest (λ r hr. free-other h p r (apart_from p r ps new hr))
                  more)
                (omega (arith, fuel)) in
            (
              next.0,
              sweep-step m c _ (nonzero p hp) (visit-first c x q stale node refl) ∙ next.1,
              record {
                left = next.2.left;
                chain =
                    subst (λ l. Chained next.0.heap next.0.head next.2.left l)
                      (sym (remaining-stale x rest stale)) next.2.chain;
                counted = next.2.counted ∙ sym (count-stale x rest stats stale);
              },
            )
        | inr live ↦
            let h1 : Heap = write h p record { aircraft = expire_aircraft now x; next = q } in
            let next =
              after_node h1 p p (expire_aircraft now x) q ps rest stats m hp
                (write-same h p record { aircraft = expire_aircraft now x; next = q }) new
                (agree h h1 q ps rest (λ r hr. write-other h p r _ (apart_from p r ps new hr)) more)
                (omega (arith, fuel)) in
            (
              next.0,
              sweep-step m c _ (nonzero p hp) (visit-kept c x q live node) ∙ next.1,
              record {
                left = p ∷ next.2.left;
                chain =
                    subst (λ t. Chained next.0.heap t (p ∷ next.2.left) (remaining now (x ∷ rest)))
                      (sym next.2.head_same)
                      (subst (λ l. Chained next.0.heap p (p ∷ next.2.left) l)
                        (sym (remaining-live x rest live))
                        (leads p next.2.first next.2.left (expire_aircraft now x)
                          (remaining now rest) hp next.2.slot (next.2.subset p new) next.2.chain));
                counted = next.2.counted ∙ sym (count-live x rest stats live);
              },
            )
      ]

-- On a heap in which pointers lead through the aircraft of the list, the loop of
-- trackRemoveStaleAircraft, on fuel of one more than there are aircraft, ends without a read of NULL or of
-- freed memory, and leaves pointers that lead through the aircraft that the list model keeps, and the same
-- counters.
pub sweep-refines :
    (now : ℕ) (heap : Heap) (head : ℕ) (ps : List ℕ) (tracker : Tracker)
    → Chained heap head ps tracker.aircrafts
    → (out : Cursor) × (sweep_chain now (suc (length tracker.aircrafts)) heap head tracker.stats
        ≡ some out)
      × ((left : List ℕ) × Chained out.heap out.head left
            (track_remove_stale_aircraft now tracker).aircrafts)
      × (out.stats ≡ (track_remove_stale_aircraft now tracker).stats)
unfolding sweep_chain track_remove_stale_aircraft
sweep-refines now heap head ps tracker chain =
    let swept =
      from_head now heap head ps tracker.aircrafts tracker.stats (suc (length tracker.aircrafts))
        chain (omega arith) in
    (swept.0, swept.1, (swept.2.left, swept.2.chain), swept.2.counted)
