-- ===== src/Exec/Options.antt =====
-- The optimization flags of an executable, and the diagnostics that report them: the last two
-- functions of src/core/patch.c.
use metal_graph.Base.{
  ℕ, zero, suc, ◌+◌, ◌*◌, ◌/◌, ◌%◌, ◌≤◌, ◌<◌, ◌≡◌, ◌≢◌, ◌⊎◌, inl, inr, refl, ap, true, ltb,
  if◌then◌else◌, some, arith, word64, bit_and, lnot64, Bool-cases,
}
use metal_graph.Base.Bits.{bit_and-clear}
use metal_graph.Flags.{has_flag, only_flags, optimization_icb}
use metal_graph.Outcome.{done}
use metal_graph.Graph.Holding.{Ends}
use metal_graph.Exec.{Exec, ExecState, when_ready}
use metal_graph.Exec.Patch.{Diagnostics, set_optimization_flags, get_diagnostics, put_flags}

low_only : (flags : ℕ) → flags < word64 → only_flags flags 1 ≡ true → flags ≤ 1
unfolding only_flags
low_only flags word only =
    let split : flags / 2 * 2 + flags % 2 ≡ flags = omega arith in
    let high =
      bit_and-clear 1 64 (flags / 2) (flags % 2) (omega arith) (omega arith) (omega arith) in
    let cleared : bit_and flags (lnot64 1) ≡ flags / 2 * 2 = rw split at high in
    let empty : bit_and flags (lnot64 1) ≡ 0 = ground arith in omega arith

low_passes : (flags : ℕ) → flags ≤ 1 → only_flags flags 1 ≡ true
unfolding only_flags
low_passes zero h = refl
low_passes (suc zero) h = refl
low_passes (suc (suc n)) h = absurd (omega arith)

low_flag : (flags : ℕ) → flags ≤ 1 → (if has_flag flags 1 then 1 else 0) ≡ flags
unfolding has_flag
low_flag zero h = refl
low_flag (suc zero) h = refl
low_flag (suc (suc n)) h = absurd (omega arith)

-- The flags were set: the diagnostics show them, and are otherwise as before.
pub record FlagsShown (flags : ℕ) (s t : ExecState) : Type 0 where
  pub idle : s.exec.in_flight_count ≡ 0
  pub low : flags ≤ 1
  pub heap : t.heap ≡ s.heap
  pub nodes : t.exec.nodes ≡ s.exec.nodes
  pub shown :
      (size : ℕ) (d : Diagnostics)
      → get_diagnostics (some size) s.exec ≡ done d
      → get_diagnostics (some size) t.exec ≡ done (record d { icb_enabled = flags })

abbrev shown_of : Exec → Diagnostics
shown_of exec = record {
  size = 32;
  icb_available = exec.icb.available;
  icb_enabled = if has_flag exec.icb.enabled_flags optimization_icb then 1 else 0;
  icb_groups_planned = exec.icb.groups_planned;
  icb_groups_used = exec.icb.groups_used;
  icb_groups_fallback = exec.icb.groups_fallback;
  icb_last_fallback_reason = exec.icb.last_fallback_reason;
}

put-shown :
    (flags : ℕ) (s : ExecState)
    → flags ≤ 1
    → (size : ℕ) (d : Diagnostics) → get_diagnostics (some size) s.exec ≡ done d
    → get_diagnostics (some size) (put_flags flags s).1.exec
      ≡ done (record d { icb_enabled = flags })
unfolding get_diagnostics
put-shown flags s low size d = elim (Bool-cases (ltb size 32)) [
  | inl short ↦ rw short (λ e. cc)
  | inr wide ↦ rw wide (λ e.
      let same : shown_of s.exec ≡ d = cc in
      rw (low_flag flags low)
        (ap (λ (x : Diagnostics). done (record x { icb_enabled = flags })) same))
]

-- mgGraphExecSetOptimizationFlags, of a flag word: it fails with the state as it was exactly if a
-- launch is in flight or a flag other than MG_OPTIMIZATION_ICB is given. Otherwise
-- mgGraphExecGetDiagnostics reports the given flag from then on, and all else as before; the nodes and
-- the heap are as they were.
pub set_optimization_flags-get_diagnostics :
    (flags : ℕ) (s : ExecState)
    → flags < word64
    → Ends {A = Unit {0}}
        (λ _ t. FlagsShown flags s t)
        (λ t. (t ≡ s) × ((s.exec.in_flight_count ≢ 0) ⊎ (1 < flags)))
        (set_optimization_flags flags s)
unfolding set_optimization_flags when_ready
set_optimization_flags-get_diagnostics flags s word =
    elim (Bool-cases (ltb 0 s.exec.in_flight_count)) [
      | inl busy ↦ rw busy (refl, inl (λ z. ground arith))
      | inr idle ↦ rw idle (elim (Bool-cases (only_flags flags 1)) [
        | inl only ↦
            let low = low_only flags word only in
            rw only (record {
              idle = ground arith;
              low = low;
              heap = refl;
              nodes = refl;
              shown = put-shown flags s low;
            })
        | inr others ↦
            let high : ¬ (flags ≤ 1) = λ low. let passes = low_passes flags low in cc in
            rw others (refl, inr (omega arith))
      ])
    ]
