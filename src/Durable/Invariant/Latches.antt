-- ===== src/Durable/Invariant/Latches.antt =====
-- The latch row that `_reconcile_legacy` and `record_durable_signal` write, against the invariant.
use mathlib.Core.Logic.{ite}
use mathlib.Core.Path.{subst}
use discogs_sql_loader.Prelude.{
  ℕ, String, true, false, ◌||◌, List, [], ◌∷◌, ◌++◌, ◌≡◌, refl, ap, sym, ◌∙◌, Option, none, some,
  if◌then◌else◌, same, same_refl, arith,
}
use discogs_sql_loader.Text.{Text, Text-discrete, strip}
use discogs_sql_loader.Table.{map_row, find-update, find-append_one, update, missing_row, at_same}
use discogs_sql_loader.Durable.{DurableLatch, Durable, latch_version, find_latch, find_job}
use discogs_sql_loader.Durable.Version.{text_lt}
use discogs_sql_loader.Durable.Version.Order.{text_lt_irrefl}
use discogs_sql_loader.Durable.Signal.{
  is_ahead, is_behind, with_generation, adopted, coalesce, add_signal, new_latch, returned,
  signal_latch,
}
use discogs_sql_loader.Durable.Job.{is_version}
use discogs_sql_loader.Durable.Invariant.{
  number_ok, numbered_ok, latch_ok, is_refreshed, is_numbered, row_ok, settled, Consistent,
  SettledBut,
}

pub is_version-not_ahead :
    (w : Text) (cv : Option Text) → is_version w cv ≡ true → is_ahead w cv ≡ false
is_version-not_ahead w none h = cc
is_version-not_ahead w (some c) h =
    elim (Text-discrete c w) as (λ d. ite d true false ≡ true → text_lt c w ≡ false) [
      | yes p ↦ (λ q. subst (λ (x : Text). text_lt c x ≡ false) p (text_lt_irrefl c))
      | no p ↦ (λ q. cc)
    ]
      h

pub is_behind-not_version :
    (w : Text) (cv : Option Text) → is_behind w cv ≡ true → is_version w cv ≡ false
is_behind-not_version w none h = cc
is_behind-not_version w (some c) h = elim (Text-discrete c w) as (λ d. ite d true false ≡ false) [
  | yes p ↦
      absurd
        (ground (arith, h, subst (λ (x : Text). text_lt w x ≡ false) (sym p) (text_lt_irrefl w)))
  | no p ↦ (λ i. false)
]

-- the latch row of `w` becomes `l`, and no other row changes
module _ (w : Text) (l : Option DurableLatch) (s : Durable) (rows : List DurableLatch)
    (found : (v : Text)
      → find_latch v rows ≡ (if same Text-discrete v w then l else find_latch v s.latches)) where
  new_row-Consistent :
      latch_ok s.cursor.generation s.cursor.version w l ≡ true
      → is_refreshed l ≡ is_refreshed (find_latch w s.latches)
      → Consistent s
      → Consistent (record s { latches = rows })
  new_row-Consistent ok kept h = record {
    jobs_distinct = h.jobs_distinct;
    rows_ok = λ v.
        rw (found v)
          (elim (Text-discrete v w)
            as (λ d.
              row_ok s.cursor.generation s.cursor.version v
                (if ite d true false then l else find_latch v s.latches) (find_job v s.jobs)
              ≡ true) [
                | yes p ↦
                    subst
                      (λ (x : Text).
                        row_ok s.cursor.generation s.cursor.version x l (find_job x s.jobs) ≡ true)
                      (sym p) (ground (arith, h.rows_ok w, ok, kept))
                | no p ↦ h.rows_ok v
              ]);
  }

  new_row-SettledBut :
      (required : List String)
      → SettledBut required w s
      → SettledBut required w (record s { latches = rows })
  new_row-SettledBut required k v =
      rw (found v)
        (elim (Text-discrete v w)
          as (λ d.
            ite d true false
              || settled required (is_version v s.cursor.version)
                  (if ite d true false then l else find_latch v s.latches) (find_job v s.jobs)
            ≡ true) [ yes p ↦ (λ i. true) | no p ↦ ground (arith, k v, p) ])

pub number_ok-current :
    (g : ℕ) (cv : Option Text) (w : Text) → is_version w cv ≡ true → number_ok g cv w g ≡ true
number_ok-current g cv w h = ground (arith, is_version-not_ahead w cv h)

numbered_ok-coalesce :
    (g : ℕ) (cv : Option Text) (w : Text) (n m : Option ℕ)
    → numbered_ok g cv w n ≡ true
    → numbered_ok g cv w m ≡ true
    → numbered_ok g cv w (coalesce n m) ≡ true
numbered_ok-coalesce g cv w none m h k = k
numbered_ok-coalesce g cv w (some n) m h k = h

with_generation_lem :
    (g : ℕ) (cv : Option Text) (w : Text) (l : Option DurableLatch)
    → is_version w cv ≡ true
    → latch_ok g cv w l ≡ true
    → (latch_ok g cv w (map_row (with_generation g) l) ≡ true)
      × (is_refreshed (map_row (with_generation g) l) ≡ is_refreshed l)
      × (is_numbered (map_row (with_generation g) l) ≡ true)
with_generation_lem g cv w none c h = (λ i. true, λ i. false, λ i. true)
with_generation_lem g cv w (some l) c h =
    (ground (arith, number_ok-current g cv w c), ground arith, ground arith)

with_generation-version :
    (g : ℕ) (l : DurableLatch) → latch_version (with_generation g l) ≡ latch_version l
with_generation-version g l = ground arith

pub adopted_row :
    (w : Text) (g : ℕ) (s : Durable) (v : Text)
    → find_latch v (update Text-discrete latch_version w (with_generation g) s.latches) ≡ (
        if same Text-discrete v w
        then map_row (with_generation g) (find_latch w s.latches)
        else find_latch v s.latches)
adopted_row w g s v =
    find-update Text-discrete latch_version (with_generation g) (with_generation-version g) v w
      s.latches
    ∙ at_same Text-discrete latch_version v w (map_row (with_generation g)) s.latches

pub adopted_lem :
    (required : List String) (w : Text) (s : Durable)
    → is_version w s.cursor.version ≡ true
    → Consistent s
    → SettledBut required w s
    → Consistent (adopted w s)
      × SettledBut required w (adopted w s)
      × (is_numbered (find_latch w (adopted w s).latches) ≡ true)
unfolding adopted
adopted_lem required w s c h k =
    let g = s.cursor.generation in
    let rows : List DurableLatch =
      update Text-discrete latch_version w (with_generation g) s.latches in
    let l : Option DurableLatch = map_row (with_generation g) (find_latch w s.latches) in
    let found : ((v : Text)
        → find_latch v rows ≡ (if same Text-discrete v w then l else find_latch v s.latches)) =
      adopted_row w g s in
    let (ok, kept, numbered) =
      with_generation_lem g s.cursor.version w (find_latch w s.latches) c
        (ground (arith, h.rows_ok w)) in
    (
      new_row-Consistent w l s rows found ok kept h,
      new_row-SettledBut w l s rows found required k,
      rw (found w, same_refl Text-discrete w) numbered,
    )

add_signal-version :
    (g : Option ℕ) (t : String) (l : DurableLatch)
    → latch_version (add_signal g t l) ≡ latch_version l
add_signal-version g t l = refl

signal_row_of :
    (w : Text) (g : Option ℕ) (t : String) (rows : List DurableLatch) (v : Text)
    (l : Option DurableLatch)
    → find_latch w rows ≡ l
    → find_latch v (elim l [
      | none ↦ rows ++ new_latch w g t ∷ []
      | some l ↦ update Text-discrete latch_version w (add_signal g t) rows
    ])
      ≡ (if same Text-discrete v w then some (returned g t w l) else find_latch v rows)
signal_row_of w g t rows v none h =
    find-append_one Text-discrete latch_version v rows (new_latch w g t)
    ∙ missing_row Text-discrete latch_version v w (new_latch w g t) rows h
signal_row_of w g t rows v (some l) h =
    find-update Text-discrete latch_version (add_signal g t) (add_signal-version g t) v w rows
    ∙ at_same Text-discrete latch_version v w (map_row (add_signal g t)) rows
    ∙ ap
        (λ (x : Option DurableLatch).
          (if same Text-discrete v w then map_row (add_signal g t) x else find_latch v rows))
        h

pub signal_row :
    (w : Text) (g : Option ℕ) (t : String) (rows : List DurableLatch) (v : Text)
    → find_latch v (signal_latch w g t rows) ≡ (
        if same Text-discrete v w
        then some (returned g t w (find_latch w rows))
        else find_latch v rows)
unfolding signal_latch
signal_row w g t rows v = signal_row_of w g t rows v (find_latch w rows) refl

returned_lem :
    (gen : ℕ) (cv : Option Text) (w : Text) (g : Option ℕ) (t : String) (l : Option DurableLatch)
    → numbered_ok gen cv w g ≡ true
    → same Text-discrete (strip w) w ≡ true
    → latch_ok gen cv w l ≡ true
    → (latch_ok gen cv w (some (returned g t w l)) ≡ true)
      × (is_refreshed (some (returned g t w l)) ≡ is_refreshed l)
returned_lem gen cv w g t none n trimmed h = (ground arith, refl)
returned_lem gen cv w g t (some l) n trimmed h =
    (ground (arith, numbered_ok-coalesce gen cv w l.generation g), refl)

pub signal_latch_lem :
    (required : List String) (w : Text) (g : Option ℕ) (t : String) (s : Durable)
    → numbered_ok s.cursor.generation s.cursor.version w g ≡ true
    → same Text-discrete (strip w) w ≡ true
    → Consistent s
    → SettledBut required w s
    → Consistent (record s { latches = signal_latch w g t s.latches })
      × SettledBut required w (record s { latches = signal_latch w g t s.latches })
signal_latch_lem required w g t s n trimmed h k =
    let rows : List DurableLatch = signal_latch w g t s.latches in
    let l : Option DurableLatch = some (returned g t w (find_latch w s.latches)) in
    let found : ((v : Text)
        → find_latch v rows ≡ (if same Text-discrete v w then l else find_latch v s.latches)) =
      signal_row w g t s.latches in
    let (ok, kept) =
      returned_lem s.cursor.generation s.cursor.version w g t (find_latch w s.latches) n trimmed
        (ground (arith, h.rows_ok w)) in
    (new_row-Consistent w l s rows found ok kept h, new_row-SettledBut w l s rows found required k)
