-- ===== src/Batch/Config.antt =====
-- `validate_stall_s`, `BatchConfig.__post_init__` and `BatchConfig.runtime_policy` of
-- tableinator/batch_processor.py. Durations are whole milliseconds, `none` is an absent bound.
use discogs_sql_loader.Prelude.{ℕ, ◌+◌, ◌*◌, Option, none, some, ltb, leb, if◌then◌else◌}
use Prim.Native.Nat.{min}

pub data Checked {ℓ} (A : Type ℓ) : Type ℓ where
  valid : A → Checked A
  value_error : Checked A

infixl 5 ◌>>=◌
abbrev pub ◌>>=◌ {ℓ κ} : {A : Type ℓ} {B : Type κ} → Checked A → (A → Checked B) → Checked B
valid a >>= f = f a
value_error >>= f = value_error

-- `BROKER_CONSUMER_TIMEOUT_S`
abbrev pub broker_consumer_timeout : ℕ
broker_consumer_timeout = 1_800_000

unfoldable pub validate_stall : ℕ → Option ℕ → Checked ℕ
validate_stall stall none = if ltb 0 stall then valid stall else value_error
validate_stall stall (some max_hold) =
    if ltb 0 stall then if leb max_hold stall then value_error else valid stall else value_error

pub record BatchConfig : Type 0 where
  pub batch_size : ℕ
  pub flush_interval : ℕ
  pub max_pending : ℕ
  pub max_concurrent_flushes : ℕ
  pub min_batch_size : ℕ
  pub backoff_initial : ℕ
  pub backoff_max : ℕ
  pub backoff_multiplier : ℕ
  pub max_flush_retries : ℕ
  pub max_poison_retries : ℕ
  pub max_hold : Option ℕ
  pub max_requeues : Option ℕ
  pub max_write : Option ℕ

-- the fields of `BatchPolicy` that the loader fills
pub record BatchPolicy : Type 0 where
  pub batch_size : ℕ
  pub flush_interval : ℕ
  pub max_pending : ℕ
  pub max_concurrent_flushes : ℕ
  pub min_batch_size : ℕ
  pub backoff_initial : ℕ
  pub backoff_max : ℕ
  pub backoff_multiplier : ℕ
  pub max_drain_retries : ℕ
  pub max_poison_retries : ℕ
  pub max_hold : Option ℕ
  pub max_requeues : Option ℕ
  pub max_write : Option ℕ

-- `cancel_grace` is the runtime's `WRITE_CANCEL_GRACE_S`
module _ (cancel_grace : ℕ) where
  abbrev pub worst_case : ℕ → ℕ → BatchConfig → ℕ
  worst_case max_hold max_write c =
      max_hold + 2 * (max_write + cancel_grace) + c.flush_interval + c.backoff_max

  abbrev bounded : Option ℕ → Option ℕ → BatchConfig → Checked BatchConfig
  bounded none max_write c = valid c
  bounded (some max_hold) none c = value_error
  bounded (some max_hold) (some max_write) c =
      if leb broker_consumer_timeout (worst_case max_hold max_write c) then value_error else valid c

  unfoldable pub post_init : BatchConfig → Checked BatchConfig
  post_init c = bounded c.max_hold c.max_write c

unfoldable pub runtime_policy : BatchConfig → BatchPolicy
runtime_policy c = record {
  batch_size = c.batch_size;
  flush_interval = c.flush_interval;
  max_pending = c.max_pending;
  max_concurrent_flushes = c.max_concurrent_flushes;
  min_batch_size = min c.min_batch_size c.batch_size;
  backoff_initial = c.backoff_initial;
  backoff_max = c.backoff_max;
  backoff_multiplier = c.backoff_multiplier;
  max_drain_retries = c.max_flush_retries;
  max_poison_retries = c.max_poison_retries;
  max_hold = c.max_hold;
  max_requeues = c.max_requeues;
  max_write = c.max_write;
}
