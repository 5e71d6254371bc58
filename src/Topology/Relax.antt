-- ===== src/Topology/Relax.antt =====
-- The inner loop of mg_graph_topological_order: it takes the edges out of one node off the counts, and
-- queues exactly the nodes whose count falls to zero.
use metal_graph.Base.{
  ℕ, ◌+◌, ◌-◌, ◌≤◌, ◌<◌, ◌≡◌, ◌↔◌, refl, ◌∙◌, true, ◌||◌, ◌==◌, if◌then◌else◌, List, [], ◌∷◌,
  length, length-set, get_or, arith, All, word64, ==_iff, Bool-cases, inl, inr, ◌⊎◌,
}
use metal_graph.Node.{Edge}
use metal_graph.Topology.{Search, relax_edge, relax, decrement}
use metal_graph.Topology.Counts.{mem, mem-append, NoDup, NoDup-append, hits, get_or-set}

abbrev pub degree : Search → ℕ → ℕ
degree s v = get_or s.indegree v 0

-- What the loop relies on: the counts are words, and what waits in the queue has none left.
pub record Waiting (s : Search) : Type 0 where
  pub words : (v : ℕ) → degree s v < word64
  pub nodup : NoDup s.pending
  pub ready : (v : ℕ) → mem v s.pending ≡ true → degree s v ≡ 0

-- `t` comes from `s` by taking `taken v` off the count of each `v`.
pub record Lowered (s t : Search) (taken : ℕ → ℕ) : Type 0 where
  pub size : length t.indegree ≡ length s.indegree
  pub order : t.order ≡ s.order
  pub counts : (v : ℕ) → degree t v + taken v ≡ degree s v
  pub queue :
      (v : ℕ)
      → (mem v t.pending ≡ true) ↔ ((mem v s.pending ≡ true) ⊎ (0 < degree s v) × (degree t v ≡ 0))
  pub waiting : Waiting t

Lowered-none :
    (s : Search) (taken : ℕ → ℕ) → ((v : ℕ) → taken v ≡ 0) → Waiting s → Lowered s s taken
Lowered-none s taken z w = record {
  size = refl;
  order = refl;
  counts = λ v. omega (arith, z v);
  queue = λ v. ground arith;
  waiting = w;
}

Lowered-same : (s t : Search) (a b : ℕ → ℕ) → ((v : ℕ) → b v ≡ a v) → Lowered s t a → Lowered s t b
Lowered-same s t a b e p = record {
  size = p.size;
  order = p.order;
  counts = λ v. omega (arith, e v, p.counts v);
  queue = p.queue;
  waiting = p.waiting;
}

Lowered-trans :
    (s t u : Search) (a b c : ℕ → ℕ)
    → ((v : ℕ) → c v ≡ a v + b v)
    → Lowered s t a
    → Lowered t u b
    → Lowered s u c
Lowered-trans s t u a b c e p q = record {
  size = q.size ∙ p.size;
  order = q.order ∙ p.order;
  counts = λ v. omega (arith, e v, p.counts v, q.counts v);
  queue = λ v. ground (arith, e v, p.counts v, q.counts v, p.queue v, q.queue v);
  waiting = q.waiting;
}

decrement_pos : (x : ℕ) → 0 < x → x < word64 → decrement x ≡ x - 1
decrement_pos x p h = omega arith

module _ (next : ℕ) (s : Search) where
  abbrev one_here : ℕ → ℕ
  one_here v = if next == v then 1 else 0

  relax_edge-degree :
      next < length s.indegree
      → 0 < degree s next
      → Waiting s
      → (v : ℕ) → degree (relax_edge next s) v ≡ degree s v - one_here v
  unfolding relax_edge
  relax_edge-degree range pos w v = ground (
    arith,
    get_or-set s.indegree next v (decrement (degree s next)) range,
    decrement_pos (degree s next) pos (w.words next),
    (==_iff next v),
  )

  abbrev after_edge : Search
  after_edge = relax_edge next s

  module _ (range : next < length s.indegree) (pos : 0 < degree s next) (w : Waiting s) where
    lowered : (v : ℕ) → degree after_edge v ≡ degree s v - one_here v
    lowered = relax_edge-degree range pos w

    queued :
        (v : ℕ)
        → mem v after_edge.pending
          ≡ (if degree s next == 1 then mem v s.pending || next == v else mem v s.pending)
    unfolding relax_edge
    queued v = ground (
      arith,
      decrement_pos (degree s next) pos (w.words next),
      mem-append v s.pending (next ∷ []),
    )

    queue_nodup : NoDup after_edge.pending
    unfolding relax_edge
    queue_nodup = elim (Bool-cases (decrement (degree s next) == 0)) [
      | inl last ↦ rw last (
          NoDup-append s.pending (next ∷ []) w.nodup (refl, tt)
            (λ v m. ground (arith, w.ready v, (==_iff next v))))
      | inr more ↦ rw more w.nodup
    ]

    size-relax_edge : length after_edge.indegree ≡ length s.indegree
    unfolding relax_edge
    size-relax_edge = length-set s.indegree next (decrement (degree s next))

    order-relax_edge : after_edge.order ≡ s.order
    unfolding relax_edge
    order-relax_edge = refl

    relax_edge-Lowered : Lowered s after_edge one_here
    relax_edge-Lowered = record {
      size = size-relax_edge;
      order = order-relax_edge;
      counts = λ v. ground (arith, lowered v, ==_iff next v);
      queue = λ v. ground (arith, lowered v, queued v, ==_iff next v, w.ready v);
      waiting = record {
        words = λ v. ground (arith, lowered v, w.words v);
        nodup = queue_nodup;
        ready = λ v. ground (arith, lowered v, queued v, ==_iff next v, w.ready v);
      };
    }

-- The inner loop takes the edges out of `u` off the counts.
pub relax-Lowered :
    (u : ℕ) (es : List Edge) (s : Search)
    → All (λ (e : Edge). e.after < length s.indegree) es
    → ((v : ℕ) → hits u es v ≤ degree s v)
    → Waiting s
    → Lowered s (relax u es s) (hits u es)
unfolding relax
relax-Lowered u [] s range enough w = Lowered-none s (hits u []) (λ v. refl) w
relax-Lowered u (e ∷ es) s range enough w = elim (Bool-cases (e.before == u)) [
  | inl out ↦
      let one = relax_edge-Lowered e.after s range.0 (let k = enough e.after in ground arith) w in
      let rest =
        relax-Lowered u es (relax_edge e.after s) (rw one.size range.1)
          (λ v. ground (arith, enough v, one.counts v)) one.waiting in
      rw out (
        Lowered-trans s (relax_edge e.after s) (relax u es (relax_edge e.after s))
          (one_here e.after s) (hits u es) (hits u (e ∷ es)) (λ v. ground arith) one rest)
  | inr other ↦
      let rest = relax-Lowered u es s range.1 (λ v. ground (arith, enough v)) w in
      rw other
        (Lowered-same s (relax u es s) (hits u es) (hits u (e ∷ es)) (λ v. ground arith) rest)
]
