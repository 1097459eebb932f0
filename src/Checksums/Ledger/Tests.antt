-- ===== src/Checksums/Ledger/Tests.antt =====
-- src/checksums/ledger.rs: a ledger of five verified scripts.
use automated_flywheel_setup.Base.{
  ℕ, String, ◌≡◌, refl, false, none, some, List, [], ◌∷◌, length, as_bytes,
}
use automated_flywheel_setup.Reporting.Diff.{bytes_ltb}
use automated_flywheel_setup.Checksums.Ledger.{LedgerEntry, record_script, mark_verified}
use automated_flywheel_setup.Checksums.Ledger.Pruning.{IsForgotten, record_script-mark_verified}

abbrev entry_of : String → ℕ → LedgerEntry
entry_of sha at_time = record {
  sha256 = sha;
  size = 100;
  first_seen = at_time;
  last_seen = at_time;
  last_verified_pass_run = some "run-1";
  url = none;
}

abbrev full_ledger : List LedgerEntry
full_ledger =
    entry_of "a1" 10
    ∷ entry_of "b2" 20
    ∷ entry_of "c3" 30
    ∷ entry_of "d4" 40
    ∷ entry_of "e5" 50
    ∷ []

-- A script that the ledger already holds stays.
seen_again : length (record_script "c3" 60 100 none none full_ledger) ≡ 5
unfolding record_script bytes_ltb as_bytes
seen_again = refl

record_script-mark_verified_example :
    IsForgotten "c7" (record_script "c7" 60 100 none none full_ledger)
    × (mark_verified "c7" "run-2" 70 (record_script "c7" 60 100 none none full_ledger)
        ≡ (false, record_script "c7" 60 100 none none full_ledger))
record_script-mark_verified_example =
    record_script-mark_verified "c7" "run-2" 60 70 100 none full_ledger refl
      (refl, (refl, (refl, (refl, (refl, tt))))) (refl, (refl, (refl, (refl, (refl, tt)))))
