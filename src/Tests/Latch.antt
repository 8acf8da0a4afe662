-- ===== src/Tests/Latch.antt =====
-- Runs of the extraction latch.
use discogs_sql_loader.Prelude.{
  ℕ, String, true, false, not, ◌&&◌, ◌||◌, List, [], ◌∷◌, ◌≡◌, none, some, same, contains, all,
  keep, String-discrete, arith,
}
use discogs_sql_loader.Text.{Text, codes}
use discogs_sql_loader.Latch.{
  LatchRow, find, has_newer, is_set, record_extraction_signal, should_refresh,
  mark_extraction_refreshed, record_purge_veto, purge_was_vetoed, count_vetoes,
}
use discogs_sql_loader.Latch.Signals.{Signal, run, occurs, signals_of, run-signals}
use discogs_sql_loader.Latch.Refresh.{
  refreshed_at, created_at, refreshes_when_complete, refreshes_once,
}
use discogs_sql_loader.Latch.Vetoes.{
  veto_survives, leading, reached_type, count_vetoes-leading, foreign, foreign_untouched,
}

abbrev version : Text
version = codes "20250101"

abbrev signal : ℕ → String → Signal
signal now t = record { now = now; version = version; data_type = t }

abbrev delivered : List Signal
delivered = signal 1 "artists" ∷ signal 2 "labels" ∷ []

abbrev types : List String
types = "artists" ∷ "labels" ∷ "masters" ∷ []

abbrev other_loader : LatchRow
other_loader = record {
  loader = "musicbrainz";
  version = version;
  signals = "artists" ∷ [];
  created_at = 9;
  updated_at = 9;
  refreshed_at = none;
  purge_vetoed = [];
}

abbrev begun : LatchRow
begun = record other_loader { loader = "discogs"; created_at = 1 }

abbrev vetoed : LatchRow
vetoed = record begun { purge_vetoed = "artists" ∷ [] }

run-signals_example :
    contains String-discrete "labels" (signals_of version (run delivered (other_loader ∷ []))) ≡ (
      contains String-discrete "labels" (signals_of version (other_loader ∷ []))
      || occurs version "labels" delivered)
run-signals_example = run-signals delivered (other_loader ∷ []) version "labels"

refreshes_when_complete_example :
    should_refresh types
      (record_extraction_signal 3 version "masters" (run delivered (other_loader ∷ []))).1
    ≡ (all
          (λ d.
            (contains String-discrete d (signals_of version (other_loader ∷ []))
              || occurs version d delivered)
            || same String-discrete d "masters")
          types
        && not (is_set (refreshed_at version (run delivered (other_loader ∷ []))))
        && not (
            has_newer
              (created_at 3 version (run delivered (other_loader ∷ [])))
              (run delivered (other_loader ∷ []))))
refreshes_when_complete_example =
    refreshes_when_complete delivered (other_loader ∷ []) 3 version "masters" types

found : find version (other_loader ∷ begun ∷ []) ≡ some begun
unfolding find
found = ground arith

refreshes_once_example :
    should_refresh types
      (record_extraction_signal 5 version "masters"
        (run delivered (mark_extraction_refreshed 4 version (other_loader ∷ begun ∷ [])))).1
    ≡ false
refreshes_once_example =
    refreshes_once 4 version (other_loader ∷ begun ∷ []) begun delivered 5 "masters" types found

veto_survives_example :
    purge_was_vetoed version "artists" (
      run delivered (
        mark_extraction_refreshed 4
          (codes "20250201")
          (run delivered (record_purge_veto 1 version "artists" (other_loader ∷ [])))))
    ≡ true
veto_survives_example =
    veto_survives 1 4 version (codes "20250201") "artists" delivered delivered (other_loader ∷ [])

count_vetoes-leading_example :
    count_vetoes "artists" 0 (vetoed ∷ vetoed ∷ begun ∷ vetoed ∷ [])
    ≡ leading
        (λ row. contains String-discrete "artists" row.purge_vetoed)
        (keep (reached_type "artists") (vetoed ∷ vetoed ∷ begun ∷ vetoed ∷ []))
count_vetoes-leading_example =
    count_vetoes-leading "artists" (vetoed ∷ vetoed ∷ begun ∷ vetoed ∷ [])

foreign_untouched_example :
    (foreign (record_extraction_signal 3 version "labels" (other_loader ∷ begun ∷ [])).0
      ≡ foreign (other_loader ∷ begun ∷ []))
    × (foreign (record_purge_veto 3 version "labels" (other_loader ∷ begun ∷ []))
        ≡ foreign (other_loader ∷ begun ∷ []))
    × (foreign (mark_extraction_refreshed 3 version (other_loader ∷ begun ∷ []))
        ≡ foreign (other_loader ∷ begun ∷ []))
foreign_untouched_example = foreign_untouched 3 version "labels" (other_loader ∷ begun ∷ [])
