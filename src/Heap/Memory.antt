-- ===== src/Heap/Memory.antt =====
-- What the allocator answers, and states in which nothing but the allocator has moved on.
use metal_graph.Base.{ℕ, ◌≡◌, refl, ◌∙◌, ap, some}
use metal_graph.Heap.{Heap}

-- The allocator was called, and nothing else changed.
pub record OnlyCalls (h k : Heap) : Type 0 where
  pub calls : ℕ
  pub same : k ≡ record h { calls = calls }

pub OnlyCalls-refl : (h : Heap) → OnlyCalls h h
OnlyCalls-refl h = record { calls = h.calls; same = refl }

pub OnlyCalls-trans : {h k l : Heap} → OnlyCalls h k → OnlyCalls k l → OnlyCalls h l
OnlyCalls-trans {h} {k} {l} a b = record {
  calls = b.calls;
  same = b.same ∙ ap (λ (x : Heap). record x { calls = b.calls }) a.same;
}

-- The allocator never answers NULL.
abbrev pub HasAnswers : Heap → Type 0
HasAnswers h = (c : ℕ) → (p : ℕ) × (h.answers c ≡ some p)

pub OnlyCalls-HasAnswers : {h k : Heap} → OnlyCalls h k → HasAnswers h → HasAnswers k
OnlyCalls-HasAnswers {h} {k} same answers c =
    let (p, e) = answers c in (p, ap (λ (x : Heap). x.answers c) same.same ∙ e)
