-- ===== src/Epoch/Catchup.antt =====
-- `required_bars` and `bounded_runtime_end` of scripts/runtime_epoch_worker.py: how far one catch-up
-- round may go. Times are milliseconds since the epoch, so natural numbers.
pub mod Bounds
use kairos_deploy.Base.{
  ℕ, zero, suc, ◌+◌, ◌-◌, ◌*◌, ◌/◌, ◌%◌, Bool, true, false, not, ◌&&◌, ◌||◌, Option, none, some,
  List, [], ◌∷◌, ok, err, ◌>>=◌, ◌>>◌, raise_if, length, all, any, ltb, ◌==◌, if◌then◌else◌,
}
use kairos_deploy.Base.Bytes.{Bytes, codes}
use kairos_deploy.Base.Dict.{Dict, lookup}
use kairos_deploy.Epoch.Errors.{
  Guarded, fixed_catchup_interval_required, finality_clock_regression,
  runtime_watermark_skew_exceeds_pending_cap, epoch_interval_exceeds_fixed_cap,
}
use Prim.Native.Nat.{min, max}

abbrev pub symbols : List Bytes
symbols =
    codes "BTCUSDT" ∷ codes "ETHUSDT" ∷ codes "SOLUSDT" ∷ codes "BNBUSDT" ∷ codes "XRPUSDT" ∷ []

abbrev pub minute : ℕ
minute = 60_000

abbrev pub max_pending : ℕ
max_pending = 100

-- The last bar of each symbol, by its `close_time_ms`.
abbrev pub Watermarks : Type 0
Watermarks = Dict ℕ

unfoldable pub has_symbol : Watermarks → Bytes → Bool
has_symbol values symbol = elim (lookup symbol values) [ none ↦ false | some _ ↦ true ]

-- `set(values) == set(SYMBOLS)`, on a dict, whose keys differ.
unfoldable pub covers_symbols : Watermarks → Bool
unfolding has_symbol
covers_symbols values = length values == length symbols && all (has_symbol values) symbols

-- `n < 0 or n % MINUTE` for the interval `n` from a bar's close to `end`.
abbrev pub off_grid : ℕ → Bytes × ℕ → Bool
off_grid end e = ltb end (e.1 + 1) || not ((end - (e.1 + 1)) % minute == 0)

-- `sum(n // MINUTE for n in intervals)`
abbrev pub bars_until : ℕ → Watermarks → ℕ
bars_until end [] = 0
bars_until end (e ∷ values) = (end - (e.1 + 1)) / minute + bars_until end values

unfoldable pub required_bars : Watermarks → ℕ → Guarded ℕ
required_bars values end =
    if not (covers_symbols values) || any (off_grid end) values
    then err fixed_catchup_interval_required
    else ok (bars_until end values)

-- `max(e.close_time_ms + 1 for e in values.values())`
abbrev pub latest_of : Watermarks → ℕ
latest_of [] = 0
latest_of (e ∷ values) = max (e.1 + 1) (latest_of values)

-- The end of the round, from the bars that bring all symbols to the latest one.
abbrev pub round_end : ℕ → ℕ → ℕ → ℕ
round_end target latest baseline =
    min target (latest + (max_pending - baseline) / length symbols * minute)

unfoldable pub bounded_runtime_end : Watermarks → ℕ → Guarded ℕ
bounded_runtime_end values target = do
  raise_if (not (covers_symbols values) || not (target % minute == 0))
      fixed_catchup_interval_required
  raise_if (ltb target (latest_of values)) finality_clock_regression
  baseline ← required_bars values (latest_of values)
  raise_if (ltb max_pending baseline) runtime_watermark_skew_exceeds_pending_cap
  required ← required_bars values (round_end target (latest_of values) baseline)
  raise_if (ltb max_pending required) epoch_interval_exceeds_fixed_cap
  ok (round_end target (latest_of values) baseline)
