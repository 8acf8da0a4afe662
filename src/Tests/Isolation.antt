-- ===== src/Tests/Isolation.antt =====
-- A run of the bisection on the writes of the releases table.
use discogs_sql_loader.Prelude.{
  ℕ, ◌+◌, String, Bool, true, List, [], ◌∷◌, ◌≡◌, refl, distinct, contains, arith,
}
use discogs_sql_loader.Text.{Text-discrete, codes}
use discogs_sql_loader.Identity.{
  AliasRef-discrete, entity_kind, alias_ref, alias_targets, targets_from, set_defaults,
}
use discogs_sql_loader.Entities.{Message, Written, Failure, find_row, some_of}
use discogs_sql_loader.Entities.Batch.{latest, refs_for, identified, unresolved_ids, is_unchanged}
use discogs_sql_loader.Entities.Write.{process_batch, write_identified, refuses_batch, refuses_row}
use discogs_sql_loader.Entities.Write.Distinct.{message_ids}
use discogs_sql_loader.Batch.Sink.{write}
use discogs_sql_loader.Batch.Isolation.{Exact}
use discogs_sql_loader.Batch.Isolation.Store.{Store, replay}
use discogs_sql_loader.Batch.Isolation.Writes.{attempt, fails_alone, poison_isolated}
use discogs_sql_loader.Tests.Entities.{services, native, resolves, known, message, poison, rows}
use discogs_sql_loader.Tests.Samples.{tables}

-- the record 2 has a NUL in its payload
abbrev batch : List Message
batch = message "1" ∷ poison "2" "h2" ∷ message "4" ∷ []

abbrev clock : ℕ → ℕ
clock n = n + 5

abbrev always : Failure → Bool
always e = true

abbrev store : Store
store = (rows, tables)

abbrev outcome_of : Message → Written → String
outcome_of m w = "processed"

one_each : distinct Text-discrete (message_ids batch) ≡ true
unfolding distinct contains Text-discrete
one_each = refl

poison_found : fails_alone services "releases" clock always store (poison "2" "h2") ≡ true
unfolding process_batch write_identified refs_for identified unresolved_ids latest alias_ref
    entity_kind alias_targets targets_from set_defaults AliasRef-discrete refuses_batch refuses_row
    some_of Text-discrete is_unchanged find_row replay
poison_found = refl

poison_isolated_example :
    Exact
      (attempt services "releases" clock always store)
      outcome_of
      (fails_alone services "releases" clock always store)
      []
      batch
      (write (attempt services "releases" clock always store) outcome_of [] batch)
poison_isolated_example =
    poison_isolated services native resolves "releases" (codes "release") known always refl refl
      clock store outcome_of batch one_each (omega arith)
