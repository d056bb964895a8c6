-- ===== src/Bus/Diagnosing/Counters.antt =====
-- The counters of the bus, `update_diagnostics_fast` of src/internal/soem/soem_backend.cpp.
use duatic_ethercat_interfac.Prelude.{
  ℕ, suc, ◌+◌, ◌^◌, ◌≤◌, ◌<◌, ◌≡◌, List, [], ◌∷◌, length, arith, ◌==◌, if◌then◌else◌,
}
use duatic_ethercat_interfac.Prelude.Int.{ℤ, pos, negsuc}
use duatic_ethercat_interfac.Diagnostics.{DiagnosticsSnapshot}
use duatic_ethercat_interfac.Bus.Diagnosing.{count_cycle}

-- The cycles of which no frame came back: the working counter is negative.
abbrev pub lost : List ℤ → ℕ
lost [] = 0
lost (pos n ∷ wkcs) = lost wkcs
lost (negsuc n ∷ wkcs) = suc (lost wkcs)

-- The cycles whose frame came back with another working counter than the expected one.
abbrev pub mismatched : ℕ → List ℤ → ℕ
mismatched expected [] = 0
mismatched expected (pos n ∷ wkcs) =
    if n == expected then mismatched expected wkcs else suc (mismatched expected wkcs)
mismatched expected (negsuc n ∷ wkcs) = mismatched expected wkcs

-- The counters after cycles with these working counters.
unfoldable pub count_cycles : ℕ → List ℤ → DiagnosticsSnapshot → DiagnosticsSnapshot
count_cycles expected [] d = d
count_cycles expected (wkc ∷ wkcs) d = count_cycles expected wkcs (count_cycle wkc (pos expected) d)

count_cycle_lem :
    (wkc : ℤ) (expected : ℕ) (d : DiagnosticsSnapshot)
    → d.bus.frames_sent + 1 < 2 ^ 64
    → d.bus.frames_lost + 1 < 2 ^ 64
    → d.bus.wkc_mismatches + 1 < 2 ^ 64
    → let d' = count_cycle wkc (pos expected) d in
      (d'.bus.frames_sent ≡ d.bus.frames_sent + 1)
      × (d'.bus.frames_lost ≡ d.bus.frames_lost + lost (wkc ∷ []))
      × (d'.bus.wkc_mismatches ≡ d.bus.wkc_mismatches + mismatched expected (wkc ∷ []))
unfolding count_cycle
count_cycle_lem (pos n) expected d h l m = ground arith
count_cycle_lem (negsuc n) expected d h l m = ground arith

lost_cons : (wkc : ℤ) (wkcs : List ℤ) → lost (wkc ∷ wkcs) ≡ lost (wkc ∷ []) + lost wkcs
lost_cons (pos n) wkcs = omega arith
lost_cons (negsuc n) wkcs = omega arith

mismatched_cons :
    (expected : ℕ) (wkc : ℤ) (wkcs : List ℤ)
    → mismatched expected (wkc ∷ wkcs) ≡ mismatched expected (wkc ∷ []) + mismatched expected wkcs
mismatched_cons expected (pos n) wkcs = ground arith
mismatched_cons expected (negsuc n) wkcs = omega arith

at_most_one :
    (expected : ℕ) (wkc : ℤ) → (lost (wkc ∷ []) ≤ 1) × (mismatched expected (wkc ∷ []) ≤ 1)
at_most_one expected (pos n) = (omega arith, ground arith)
at_most_one expected (negsuc n) = (omega arith, omega arith)

-- While no counter wraps: every cycle counts one frame sent; exactly the cycles with a negative working
-- counter count one frame lost; and exactly those whose frame came back with another counter than the
-- expected one count one mismatch.
pub count_cycles_lem :
    (expected : ℕ) (wkcs : List ℤ) (d : DiagnosticsSnapshot)
    → d.bus.frames_sent + length wkcs < 2 ^ 64
    → d.bus.frames_lost + length wkcs < 2 ^ 64
    → d.bus.wkc_mismatches + length wkcs < 2 ^ 64
    → let d' = count_cycles expected wkcs d in
      (d'.bus.frames_sent ≡ d.bus.frames_sent + length wkcs)
      × (d'.bus.frames_lost ≡ d.bus.frames_lost + lost wkcs)
      × (d'.bus.wkc_mismatches ≡ d.bus.wkc_mismatches + mismatched expected wkcs)
unfolding count_cycles
count_cycles_lem expected [] d h l m = (omega arith, omega arith, omega arith)
count_cycles_lem expected (wkc ∷ wkcs) d h l m =
    let (sent, gone, wrong) =
      count_cycle_lem wkc expected d (omega (arith, h)) (omega (arith, l)) (omega (arith, m)) in
    let (one, single) = at_most_one expected wkc in
    let (sent', gone', wrong') =
      count_cycles_lem expected wkcs (count_cycle wkc (pos expected) d) (omega (arith, h, sent))
        (omega (arith, l, gone, one)) (omega (arith, m, wrong, single)) in
    (
      omega (arith, sent, sent'),
      omega (arith, gone, gone', lost_cons wkc wkcs),
      omega (arith, wrong, wrong', mismatched_cons expected wkc wkcs),
    )
