-- ===== src/Flags.antt =====
-- The flag words of include/metal_graph/metal_graph.h, on 64 bits.
use metal_graph.Base.{ℕ, Bool, not, ◌==◌, bit_and, lnot64}

-- mg_patch_flags_t.
abbrev pub dispatch_grid : ℕ
dispatch_grid = 1

abbrev pub dispatch_buffer : ℕ
dispatch_buffer = 2

abbrev pub dispatch_scalar : ℕ
dispatch_scalar = 4

abbrev pub copy_buffer : ℕ
copy_buffer = 8

abbrev pub copy_range : ℕ
copy_range = 16

abbrev pub fill_buffer : ℕ
fill_buffer = 32

abbrev pub fill_range : ℕ
fill_range = 64

abbrev pub fill_value : ℕ
fill_value = 128

abbrev pub event_value : ℕ
event_value = 256

-- MG_OPTIMIZATION_ICB.
abbrev pub optimization_icb : ℕ
optimization_icb = 1

-- `(flags & flag) != 0`.
unfoldable pub has_flag : ℕ → ℕ → Bool
has_flag flags flag = not (bit_and flags flag == 0)

-- `(flags & ~allowed) == 0`.
unfoldable pub only_flags : ℕ → ℕ → Bool
only_flags flags allowed = bit_and flags (lnot64 allowed) == 0
