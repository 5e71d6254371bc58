-- ===== src/Tests/Ranges.antt =====
-- Alignments, ranges and shapes.
use metal_graph.Base.{
  ℕ, ◌+◌, ◌-◌, ◌^◌, ◌≤◌, ◌≡◌, ◌↔◌, ◌⊎◌, refl, true, none, some, [], ◌∷◌, arith, word64,
}
use metal_graph.Node.{items}
use metal_graph.Align.{alignment_valid, align_up_size}
use metal_graph.Align.Laws.{alignment_valid_iff, RoundsUp, align_up_size_lem}
use metal_graph.Range.{shape_byte_count}
use metal_graph.Range.Laws.{ShapeBytes, shape_byte_count_iff}

alignment_valid_iff_example : (alignment_valid 256 ≡ true) ↔ ((k : ℕ) × (256 ≡ 2 ^ k))
alignment_valid_iff_example = alignment_valid_iff 256

align_up_size_lem_example :
    (word64 ≤ 65 + (64 - 1)) × (align_up_size 65 64 ≡ none)
    ⊎ ((r : ℕ) × (align_up_size 65 64 ≡ some r) × RoundsUp 65 64 r)
unfolding alignment_valid
align_up_size_lem_example = align_up_size_lem 65 64 (omega arith) refl

shape_byte_count_iff_example :
    (shape_byte_count (items (2 ∷ 3 ∷ [])) 4 ≡ some 24) ↔ ShapeBytes (2 ∷ 3 ∷ []) 4 24
shape_byte_count_iff_example = shape_byte_count_iff (2 ∷ 3 ∷ []) 4 24
