-- ===== src/Launch/Life.antt =====
-- The life of a launch of src/metal/metal_backend.mm: launched, waited for, destroyed.
use metal_graph.Base.{
  ℕ, ◌+◌, ◌<◌, ap, ◌∙◌, Bool-cases, inl, inr, zero, suc, ◌≡◌, ◌≢◌, refl, true, false, Bool, some,
  arith, ◌==◌, ltb, if◌then◌else◌,
}
use metal_graph.Types.{Status, Stage}
use metal_graph.Outcome.{Outcome, done, failed, Failure, after, require, node_id_invalid}
use metal_graph.Heap.{Heap}
use metal_graph.Heap.Refs.{Ref, ref_count, HeapKept, HeapKept-trans}
use metal_graph.Launch.{Session}
use metal_graph.Launch.Calls.{
  launch_destroy, graph_launch, wait_all, complete_launch, launch_synchronize,
}
use metal_graph.Launch.Destroy.{launch_destroy-Shrunk}
use metal_graph.Launch.Laws.{IsLaunchable, graph_launch-Ends}
use metal_graph.Launch.Making.{Launched}

-- The launch is over: its destruction brings all counts back.
pub record Finished (s u : Session) : Type 0 where
  pub in_flight : u.exec.in_flight_count ≡ s.exec.in_flight_count
  pub nodes : u.exec.nodes ≡ s.exec.nodes
  pub completed : u.launch.completed ≡ true
  pub destroyed :
      (k : Heap) × (launch_destroy u.launch u.heap ≡ some k)
      × ((r : Ref) → ref_count k r ≡ ref_count s.heap r)
      × HeapKept s.heap k

Launched-Finished :
    (s t : Session) (m : ℕ) → Launched s t → Finished s (complete_launch (record t { asked = m })).1
Launched-Finished s t m l =
    let (k, e, back) =
      launch_destroy-Shrunk (record t.launch { completed = true }) t.heap
        (λ r. omega (arith, l.counts r, l.refs r)) in
    let more = l.in_flight in
    let test : ltb 0 t.exec.in_flight_count ≡ true = ground arith in
    record {
      in_flight = rw test (omega arith);
      nodes = l.nodes;
      completed = refl;
      destroyed = (
        k,
        e,
        (λ r. omega (arith, back.counts r, l.counts r, l.refs r)),
        HeapKept-trans l.kept back.kept,
      );
    }

zero_plus : (n : ℕ) → n ≡ 0 + n
zero_plus n = omega arith

plus_zero : (n : ℕ) → n + 0 ≡ n
plus_zero n = omega arith

plus_suc : (n i : ℕ) → n + suc i ≡ suc n + i
plus_suc n i = omega arith

-- The waiting asks Metal once for each command buffer, and says whether all answers were good.
wait_all-asked : (n : ℕ) (s : Session) → (wait_all n s).1 ≡ record s { asked = n + s.asked }
unfolding wait_all
wait_all-asked zero s = ap (λ m. record s { asked = m }) (zero_plus s.asked)
wait_all-asked (suc n) s =
    wait_all-asked n (record s { asked = suc s.asked })
    ∙ ap (λ m. record s { asked = m }) (omega arith)

wait_all-good :
    (n : ℕ) (s : Session) → (wait_all n s).0 ≡ true → (i : ℕ) → i < n → s.says (s.asked + i) ≡ true
unfolding wait_all
wait_all-good zero s e i below = let bad : ⊥ = omega arith in absurd bad
wait_all-good (suc n) s e zero below = rw (ap s.says (plus_zero s.asked)) (ground arith)
wait_all-good (suc n) s e (suc i) below =
    rw (ap s.says (plus_suc s.asked i))
      (wait_all-good n (record s { asked = suc s.asked }) (ground arith) i (omega arith))

wait_all-bad :
    (n : ℕ) (s : Session)
    → (wait_all n s).0 ≡ false
    → (i : ℕ) × (i < n) × (s.says (s.asked + i) ≡ false)
unfolding wait_all
wait_all-bad zero s e = cc
wait_all-bad (suc n) s e = elim (Bool-cases (s.says s.asked)) [
  | inr bad ↦ (0, omega arith, rw (ap s.says (plus_zero s.asked)) bad)
  | inl ok ↦
      let (i, below, bad) = wait_all-bad n (record s { asked = suc s.asked }) (ground arith) in
      (suc i, omega arith, rw (ap s.says (plus_suc s.asked i)) bad)
]

-- What mgLaunchSynchronize returns once it has waited for `n` command buffers, where the launch is over
-- in either case: MG_STATUS_OK if none has failed, and the error of a command buffer if one has.
pub data Waited (s t : Session) (n : ℕ) (r : Outcome (Unit {0}) × Session) : Type 0 where
  succeeded :
      (u : Session)
      → r ≡ (done tt, u)
      → ((i : ℕ) → i < n → t.says (t.asked + i) ≡ true)
      → Finished s u
      → Waited s t n r
  reported :
      (u : Session) (i : ℕ)
      → r ≡ (
        failed (record {
          status = Status.backend_error;
          stage = Stage.complete;
          node_id = node_id_invalid;
          message = "Metal command buffer failed";
        }),
        u,
      )
      → i < n
      → t.says (t.asked + i) ≡ false
      → Finished s u
      → Waited s t n r

abbrev waited_error : Failure
waited_error = record {
  status = Status.backend_error;
  stage = Stage.complete;
  node_id = node_id_invalid;
  message = "Metal command buffer failed";
}

-- The last steps of mgLaunchSynchronize, once all command buffers were waited for.
finish-Waited :
    (s t v : Session) (m n : ℕ) (ok : Bool)
    → Launched s t
    → v ≡ record t { asked = m }
    → (ok ≡ true → (i : ℕ) → i < n → t.says (t.asked + i) ≡ true)
    → (ok ≡ false → (i : ℕ) × (i < n) × (t.says (t.asked + i) ≡ false))
    → Waited s t n (
        after
          (if v.launch.completed then (done tt, v) else complete_launch v)
          (λ _. require ok waited_error))
finish-Waited s t v m n true l e good bad =
    rw (e, l.completed) (succeeded _ refl (good refl) (Launched-Finished s t m l))
finish-Waited s t v m n false l e good bad =
    let (i, below, is_bad) = bad refl in
    rw (e, l.completed) (reported _ i refl below is_bad (Launched-Finished s t m l))

-- A launch that mgGraphLaunch has returned, for an executable whose nodes have no NULL among their
-- objects, whose objects live and whose counters have room, with at least one command buffer:
-- mgLaunchSynchronize returns MG_STATUS_OK, and then Metal has completed each command buffer without
-- an error; or it returns MG_STATUS_BACKEND_ERROR of stage complete, and then one of them has
-- failed. In both cases as many launches are in flight as before mgGraphLaunch, and mgLaunchDestroy
-- then succeeds and brings the count of every object back to what it was.
pub graph_launch-launch_synchronize :
    (s t : Session)
    → IsLaunchable s
    → graph_launch s ≡ (done tt, t)
    → t.launch.impl_count ≢ 0
    → Waited s t t.launch.impl_count (launch_synchronize t)
unfolding launch_synchronize
graph_launch-launch_synchronize s t ready launches some_work =
    let l : Launched s t = rw launches at (graph_launch-Ends s ready) in
    let n = t.launch.impl_count in
    let test : (n == 0) ≡ false = ground arith in
    rw test (
      finish-Waited s t (wait_all n t).1 _ n (wait_all n t).0 l (wait_all-asked n t)
        (wait_all-good n t) (wait_all-bad n t))
