-- ===== src/Reporting/Loaded/Tests.antt =====
-- src/reporting/history.rs: a timeline whose script changes.
use automated_flywheel_setup.Base.{String, ◌≡◌, refl, Option, none, some, List, [], ◌∷◌}
use automated_flywheel_setup.Reporting.Loaded.{HistoryEntry, segment}
use automated_flywheel_setup.Reporting.Loaded.Timeline.{IsSegment, segment-IsSegment}

abbrev point : String → Option String → HistoryEntry
point run_id hash = record {
  run_id = run_id;
  started_at = 1;
  status = "passed";
  duration_ms = 20;
  attempts = 1;
  script_sha256 = hash;
  installed_version = none;
  category = none;
}

abbrev changed : List HistoryEntry
changed =
    point "a" (some "11")
    ∷ point "b" none
    ∷ point "c" (some "22")
    ∷ point "d" none
    ∷ point "e" (some "22")
    ∷ []

segment_changed :
    segment changed ≡ point "c" (some "22") ∷ point "d" none ∷ point "e" (some "22") ∷ []
unfolding segment
segment_changed = refl

segment-IsSegment_example : IsSegment changed (segment changed)
segment-IsSegment_example = segment-IsSegment changed
