-- ===== src/Tracers/Blocks/Runs.antt =====
-- The blocks of a call in dyengine/tracers/nested.go over whatever the EVM reports while it runs.
use mathlib.Core.Path.{subst}
use mathlib.Core.List.{append_assoc, append-nil}
use erebus_redgiant.Prelude.{
  ℕ, ◌+◌, ◌≡◌, refl, sym, ap, ◌∙◌, false, Option, none, some, List, [], ◌∷◌, ◌++◌, length,
  length-append, arith, Address,
}
use erebus_redgiant.Tracers.Call.{Location}
use erebus_redgiant.Tracers.Blocks.{
  TraceBlock, DataWithTrace, new_data_with_trace, capture_location, next_trace,
}
use erebus_redgiant.Tracers.Blocks.Cover.{
  covered, current, joined, blocks, AllBlocks, IsOpen, capture_location-Records,
}

-- What the EVM does while a call runs: an operation, with the addresses of its contract, or a nested call.
pub data Event : Type 0 where
  operation : Location → Address → Address → Event
  enter : Event

abbrev pub step : Event → DataWithTrace → Option DataWithTrace
step (operation loc s c) d = capture_location false loc s c d
step enter d = some (next_trace d)

unfoldable pub run : List Event → DataWithTrace → Option DataWithTrace
run [] d = some d
run (e ∷ es) d = elim (step e d) [ none ↦ none | some d' ↦ run es d' ]

-- The locations reported.
unfoldable pub reported : List Event → List Location
reported [] = []
reported (operation loc s c ∷ es) = loc ∷ reported es
reported (enter ∷ es) = reported es

joined-snoc :
    (ps : List (List TraceBlock)) (p : List TraceBlock)
    → joined (ps ++ p ∷ []) ++ [] ≡ joined ps ++ p
unfolding joined
joined-snoc [] p = append-nil (p ++ []) ∙ append-nil p
joined-snoc (q ∷ ps) p =
    append_assoc q (joined (ps ++ p ∷ [])) []
    ∙ ap (λ x. q ++ x) (joined-snoc ps p)
    ∙ sym (append_assoc q (joined ps) p)

-- How many nested calls begin.
unfoldable pub entries : List Event → ℕ
entries [] = 0
entries (operation loc s c ∷ es) = entries es
entries (enter ∷ es) = entries es + 1

-- What a run does to the data.
Reports : List Event → DataWithTrace → DataWithTrace → Type 0
Reports es d d' =
    AllBlocks (blocks d')
    × (covered (blocks d') ++ current d'.blk ≡ (covered (blocks d) ++ current d.blk) ++ reported es)
    × (length d'.paths ≡ length d.paths + entries es)

run-Reports :
    (es : List Event) (d : DataWithTrace)
    → IsOpen d.loc d.blk
    → AllBlocks (blocks d)
    → (d' : DataWithTrace) × (run es d ≡ some d') × Reports es d d'
unfolding run Reports reported entries
run-Reports [] d o h =
    (d, refl, (h, sym (append-nil (covered (blocks d) ++ current d.blk)), omega arith))
run-Reports (operation loc s c ∷ es) d o h =
    let (d', e, (o', h', w, ps)) = capture_location-Records loc s c d.loc d.blk d o h in
    let (d'', r, (k, v, n)) = run-Reports es d' o' h' in
    (
      d'',
      rw (e, run) r,
      (
        k,
        v
            ∙ ap (λ x. x ++ reported es) w
            ∙ append_assoc (covered (blocks d) ++ current d.blk) (loc ∷ []) (reported es),
        n ∙ ap (λ p. length p + entries es) ps,
      ),
    )
run-Reports (enter ∷ es) d o h =
    let (d', r, (k, v, n)) =
      run-Reports es (next_trace d) o (subst AllBlocks (sym (joined-snoc d.paths d.path)) h) in
    (
      d',
      r,
      (
        k,
        v ∙ ap (λ x. (covered x ++ current d.blk) ++ reported es) (joined-snoc d.paths d.path),
        omega (arith, n, length-append d.paths (d.path ∷ [])),
      ),
    )

-- From a call's new data, whatever operations without an error and nested calls follow: CaptureState
-- does not panic. The blocks of the paths and then the current one have the locations of all the
-- operations, in order; every block of the paths has a location, no location of it but the last is a
-- tail, and none but the first a JUMPDEST; and before the last path there are as many as nested calls.
pub run_covers :
    (es : List Event)
    → (d : DataWithTrace) × (run es new_data_with_trace ≡ some d)
      × AllBlocks (blocks d)
      × (covered (blocks d) ++ current d.blk ≡ reported es)
      × (length d.paths ≡ entries es)
unfolding IsOpen AllBlocks joined covered Reports
run_covers es =
    let (d, r, (k, v, n)) = run-Reports es new_data_with_trace (record {}) (record {}) in
    (d, r, k, v, omega (arith, n))
