-- ===== src/Align.antt =====
-- src/core/arena.c: mg_alignment_valid and mg_align_up_size.
pub mod Laws
use metal_graph.Base.{
  ℕ, ◌+◌, ◌-◌, ◌%◌, Bool, not, ◌&&◌, ◌==◌, ltb, if◌then◌else◌, Option, none, some, bit_and, word64,
  lnot64,
}

unfoldable pub alignment_valid : ℕ → Bool
alignment_valid alignment = not (alignment == 0) && bit_and alignment (alignment - 1) == 0

-- `none` is the result `false`. The callers in this library pass an `out_value` that is not NULL.
unfoldable pub align_up_size : ℕ → ℕ → Option ℕ
align_up_size value alignment =
    let mask = alignment - 1 in
    if alignment_valid alignment
    then if ltb (word64 - 1 - mask) value
      then none
      else some (bit_and ((value + mask) % word64) (lnot64 mask))
    else none
