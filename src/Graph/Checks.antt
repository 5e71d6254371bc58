-- ===== src/Graph/Checks.antt =====
-- What the descriptor tests of src/core/graph.c decide, given that the pointers of the descriptor are
-- NULL or live.
use metal_graph.Base.{
  ℕ, ◌+◌, ◌≤◌, ◌<◌, ◌≡◌, refl, sym, ◌∙◌, Bool, true, false, Option, none, some, List, All,
}
use metal_graph.Outcome.{Outcome, done, failed, fault, Failure}
use metal_graph.Heap.{Heap, Buffer, buffer_counted}
use metal_graph.Heap.Counting.{live_of_refs}
use metal_graph.Heap.Refs.{Ref, ref_count}
use metal_graph.Node.{buffer_refs}
use metal_graph.Range.{range_valid}
use metal_graph.Range.Laws.{range_valid_iff}
use metal_graph.Graph.{State, check, and_also, range_within, is_given, with_length}
use metal_graph.Graph.Holding.{Ends}

-- The test gives an answer, and the answer is whether `P` holds.
pub record Decides (o : Outcome Bool) (P : Type 0) : Type 0 where
  pub answer : Bool
  pub is_done : o ≡ done answer
  pub sound : answer ≡ true → P
  pub complete : P → answer ≡ true

pub done-Decides : (b : Bool) → Decides (done b) (b ≡ true)
done-Decides b = record { answer = b; is_done = refl; sound = λ e. e; complete = λ e. e }

pub Decides_map : {o : Outcome Bool} {P Q : Type 0} → (P → Q) → (Q → P) → Decides o P → Decides o Q
Decides_map f g d = record {
  answer = d.answer;
  is_done = d.is_done;
  sound = λ e. f (d.sound e);
  complete = λ q. d.complete (g q);
}

-- The second test is made only if the first says yes.
pub and_also-Decides :
    {P Q : Type 0} (o o' : Outcome Bool)
    → Decides o P
    → (P → Decides o' Q)
    → Decides (and_also o o') (P × Q)
and_also-Decides {P} {Q} o o' d k = split d.answer d.is_done d.sound d.complete
  where
    split :
        (b : Bool) → o ≡ done b → (b ≡ true → P) → (P → b ≡ true) → Decides (and_also o o') (P × Q)
    split true e f g = let d' = k (f refl) in rw e (Decides_map (λ q. (f refl, q)) (λ pq. pq.1) d')
    split false e f g =
        rw e (record { answer = false; is_done = refl; sound = λ bad. cc; complete = λ pq. g pq.0 })

pub check-Ends :
    (test : Heap → Outcome Bool) (e : Failure) (P : Type 0) (s : State) (E : State → Type 0)
    → Decides (test s.heap) P
    → E s
    → Ends (λ _ t. (t ≡ s) × P) E (check test e s)
check-Ends test e P s E d h = split d.answer d.is_done d.sound
  where
    split :
        (b : Bool)
        → test s.heap ≡ done b
        → (b ≡ true → P)
        → Ends (λ _ t. (t ≡ s) × P) E (check test e s)
    split true q f = rw (q, check) (refl, f refl)
    split false q f = rw (q, check) h

-- A pointer that is NULL or live.
abbrev pub IsLive : Heap → List Ref → Type 0
IsLive h xs = All (λ r. 0 < ref_count h r) xs

-- The pointer is to a live buffer that holds the range, which is not empty.
pub record InBuffer (h : Heap) (p : Option ℕ) (offset n : ℕ) : Type 0 where
  pub address : ℕ
  pub target : Buffer
  pub pointer : p ≡ some address
  pub live : h.buffers address ≡ some target
  pub nonempty : 0 < n
  pub within : offset + n ≤ target.length

pub range_within-Decides :
    (h : Heap) (p : Option ℕ) (offset n : ℕ)
    → IsLive h (buffer_refs p)
    → is_given p ≡ true
    → Decides (range_within h p offset n) (InBuffer h p offset n)
unfolding range_within
range_within-Decides h none offset n live nonnull = cc
range_within-Decides h (some q) offset n live nonnull =
    let (b, e, _) = live_of_refs (h.buffers q) live.0 in
    let iff = range_valid_iff b.length offset n in
    rw (e, with_length)
      (record {
        answer = range_valid b.length offset n;
        is_done = refl;
        sound = λ y.
            let (pos, fits) = iff.0 y in
            record {
              address = q;
              target = b;
              pointer = refl;
              live = e;
              nonempty = pos;
              within = fits;
            };
        complete = λ i.
            let same : some q ≡ some i.address = i.pointer in
            let there : h.buffers i.address ≡ some i.target = i.live in
            let b_is : some b ≡ some i.target =
              sym e ∙ (let q_is : q ≡ i.address = cc in rw q_is there) in
            let b_is' : b ≡ i.target = cc in iff.1 (i.nonempty, rw b_is' i.within);
      })

pub range_within-InBuffer :
    (h : Heap) (p : Option ℕ) (offset n : ℕ)
    → range_within h p offset n ≡ done true
    → InBuffer h p offset n
unfolding range_within
range_within-InBuffer h none offset n = λ e. cc
range_within-InBuffer h (some q) offset n = go (h.buffers q) refl
  where
    go :
        (o : Option Buffer)
        → h.buffers q ≡ o
        → elim o [ none ↦ fault | some b ↦ done (range_valid b.length offset n) ] ≡ done true
        → InBuffer h (some q) offset n
    go none at e = cc
    go (some b) at e =
        let valid : range_valid b.length offset n ≡ true = cc in
        let (pos, fits) = (range_valid_iff b.length offset n).0 valid in
        record { address = q; target = b; pointer = refl; live = at; nonempty = pos; within = fits }

-- Both tests of a conjunction hold.
pub and_also-both :
    (a b : Outcome Bool) → and_also a b ≡ done true → (a ≡ done true) × (b ≡ done true)
and_also-both (done true) b e = (refl, e)
and_also-both (done false) b e = cc
and_also-both (failed x) b e = cc
and_also-both fault b e = cc
