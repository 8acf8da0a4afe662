-- ===== src/Durable/Later.antt =====
-- What no operation on the three relations undoes: the generation of a job row, the refresh of a latch
-- and the place of the cursor.
pub mod Deliveries
pub mod Workers
use discogs_sql_loader.Prelude.{ℕ, String, Bool, true, false, List, ◌≡◌, Option, none, some}
use discogs_sql_loader.Text.{Text}
use discogs_sql_loader.Durable.{
  Durable, RefreshJob, find_latch, find_job, Result, done, failed, ◌>>=◌,
}
use discogs_sql_loader.Durable.Signal.{is_ahead}
use discogs_sql_loader.Durable.Invariant.{is_refreshed}

abbrev pub generation_of : Option RefreshJob → Option ℕ
generation_of none = none
generation_of (some j) = some j.generation

pub record Later (s t : Durable) : Type 0 where
  pub generations_kept :
      (v : Text) (g : ℕ)
      → generation_of (find_job v s.jobs) ≡ some g
      → generation_of (find_job v t.jobs) ≡ some g
  pub refreshed_kept :
      (v : Text)
      → is_refreshed (find_latch v s.latches) ≡ true
      → is_refreshed (find_latch v t.latches) ≡ true
  pub passed_kept :
      (v : Text) → is_ahead v s.cursor.version ≡ false → is_ahead v t.cursor.version ≡ false

pub Later-refl : (s : Durable) → Later s s
Later-refl s = record {
  generations_kept = λ v g e. e;
  refreshed_kept = λ v e. e;
  passed_kept = λ v e. e;
}

pub Later-trans : (s t u : Durable) → Later s t → Later t u → Later s u
Later-trans s t u h k = record {
  generations_kept = λ v g e. k.generations_kept v g (h.generations_kept v g e);
  refreshed_kept = λ v e. k.refreshed_kept v (h.refreshed_kept v e);
  passed_kept = λ v e. k.passed_kept v (h.passed_kept v e);
}

-- of a transaction that succeeds
abbrev pub Leads {ℓ} : {A : Type ℓ} → (A → Durable) → Durable → Result A → Type 0
Leads state s (done a) = Later s (state a)
Leads state s (failed e) = Unit

pub Leads-from {ℓ} :
    {A : Type ℓ} (state : A → Durable) (s t : Durable) (r : Result A)
    → Later s t
    → Leads state t r
    → Leads state s r
Leads-from state s t (done a) h k = Later-trans s t (state a) h k
Leads-from state s t (failed e) h k = tt

pub Leads-bind {ℓ κ} :
    {A : Type ℓ} {B : Type κ} (state : A → Durable) (state' : B → Durable) (s : Durable)
    (r : Result A) (f : A → Result B)
    → Leads state s r
    → ((a : A) → Leads state' (state a) (f a))
    → Leads state' s (r >>= f)
Leads-bind state state' s (done a) f h k = Leads-from state' s (state a) (f a) h (k a)
Leads-bind state state' s (failed e) f h k = tt

abbrev pub itself : Durable → Durable
itself t = t
