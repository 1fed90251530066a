-- ===== src/Epoch/Catchup/Bounds.antt =====
-- The bounds of one catch-up round of scripts/runtime_epoch_worker.py, and how far rounds reach.
use kairos_deploy.Base.{
  ℕ, ◌+◌, ◌-◌, ◌*◌, ◌/◌, ◌%◌, ◌≤◌, ◌<◌, ◌≡◌, ◌≢◌, ap, ◌∙◌, inl, inr, true, false, not, ◌||◌, [],
  ◌∷◌, arith, ok, err, ok-injective, bound, >>=-Bound, passed, raise_if-Passed, at_once, later,
  >>=-Raised, here, beyond, raise_if-Stopped, length, any, ltb, ltb→le, ◌==◌, Bool-cases,
}
use kairos_deploy.Epoch.Errors.{
  EpochError, fixed_catchup_interval_required, epoch_interval_exceeds_fixed_cap,
}
use kairos_deploy.Epoch.Catchup.{
  symbols, minute, max_pending, Watermarks, covers_symbols, off_grid, bars_until, required_bars,
  latest_of, round_end, bounded_runtime_end,
}

-- No bar closes after `end`.
abbrev pub AllBefore : ℕ → Watermarks → Type 0
AllBefore end [] = Unit
AllBefore end (e ∷ values) = (e.1 + 1 ≤ end) × AllBefore end values

on_grid-AllBefore :
    (end : ℕ) (values : Watermarks) → any (off_grid end) values ≡ false → AllBefore end values
on_grid-AllBefore end [] h = tt
on_grid-AllBefore end (e ∷ values) h = ground (arith, on_grid-AllBefore end values)

-- A minute more asks for one bar more of each symbol, at most.
bars_until-le :
    (latest end k : ℕ) (values : Watermarks)
    → AllBefore latest values
    → end ≤ latest + k * minute
    → bars_until end values ≤ bars_until latest values + k * length values
bars_until-le latest end k [] b h = omega arith
bars_until-le latest end k (e ∷ values) (first, rest) h =
    omega (arith, bars_until-le latest end k values rest h)

-- What an accepted interval is.
record OnGrid (values : Watermarks) (end n : ℕ) : Type 0 where
  covered : covers_symbols values ≡ true
  grid : any (off_grid end) values ≡ false
  sum : n ≡ bars_until end values

required_bars-OnGrid :
    (values : Watermarks) (end : ℕ) {n : ℕ} → required_bars values end ≡ ok n → OnGrid values end n
unfolding required_bars
required_bars-OnGrid values end h = ground arith

covers-length : (values : Watermarks) → covers_symbols values ≡ true → length values ≡ 5
unfolding covers_symbols
covers-length values h = ground arith

-- The bars that the round's end asks for stay within the cap.
round-fits :
    (values : Watermarks) (target latest baseline : ℕ)
    → required_bars values latest ≡ ok baseline
    → baseline ≤ max_pending
    → bars_until (round_end target latest baseline) values ≤ max_pending
round-fits values target latest baseline h few =
    let g = required_bars-OnGrid values latest h in
    let k = (max_pending - baseline) / length symbols in
    omega (
      arith,
      bars_until-le latest (round_end target latest baseline) k values
          (on_grid-AllBefore latest values g.grid) (omega arith),
      ap (λ (t : ℕ). k * t) (covers-length values g.covered),
      g.sum,
    )

-- A round that was granted: the bars to the latest watermark and to the round's end.
record IsRound (values : Watermarks) (target end : ℕ) : Type 0 where
  baseline : ℕ
  at_latest : required_bars values (latest_of values) ≡ ok baseline
  before : latest_of values ≤ target
  n : ℕ
  at_end : required_bars values (round_end target (latest_of values) baseline) ≡ ok n
  small : n ≤ max_pending
  same : round_end target (latest_of values) baseline ≡ end

bounded_runtime_end-IsRound :
    (values : Watermarks) (target : ℕ) {end : ℕ}
    → bounded_runtime_end values target ≡ ok end
    → IsRound values target end
unfolding bounded_runtime_end
bounded_runtime_end-IsRound values target {end} h =
    elim (raise_if-Passed (not (covers_symbols values) || not (target % minute == 0)) _ _ h) [
      | passed _ h1 ↦ elim (raise_if-Passed (ltb target (latest_of values)) _ _ h1) [
        | passed in_time h2 ↦ elim (>>=-Bound (required_bars values (latest_of values)) _ h2) [
          | bound baseline at_latest h3 ↦ elim (raise_if-Passed (ltb max_pending baseline) _ _ h3) [
            | passed few h4 ↦
                elim (>>=-Bound
                  (required_bars values (round_end target (latest_of values) baseline)) _ h4) [
                    | bound n at_end h5 ↦ elim (raise_if-Passed (ltb max_pending n) _ _ h5) [
                      | passed enough done ↦ record {
                        baseline = baseline;
                        at_latest = at_latest;
                        before = ltb→le target (latest_of values) in_time;
                        n = n;
                        at_end = at_end;
                        small = ltb→le max_pending n enough;
                        same = ok-injective done;
                      }
                    ]
                  ]
          ]
        ]
      ]
    ]

-- A round's end lies between the latest watermark and the target, and asks for no more bars than may
-- be pending.
pub bounded_runtime_end_bounds :
    (values : Watermarks) (target : ℕ) {end : ℕ}
    → bounded_runtime_end values target ≡ ok end
    → (latest_of values ≤ end)
      × (end ≤ target)
      × (required_bars values end ≡ ok (bars_until end values))
      × (bars_until end values ≤ max_pending)
bounded_runtime_end_bounds values target h =
    let r = bounded_runtime_end-IsRound values target h in
    let g = required_bars-OnGrid values (round_end target (latest_of values) r.baseline) r.at_end in
    rw (← r.same)
      (omega (arith, r.before), omega arith, r.at_end ∙ ap ok g.sum, rw g.sum at r.small)

-- A round goes a minute beyond the latest watermark if the target does and the other symbols lag by
-- 95 bars together, at most.
pub bounded_runtime_end_progress :
    (values : Watermarks) (target : ℕ) {end : ℕ}
    → bounded_runtime_end values target ≡ ok end
    → latest_of values + minute ≤ target
    → bars_until (latest_of values) values + length symbols ≤ max_pending
    → latest_of values + minute ≤ end
bounded_runtime_end_progress values target h ahead lag =
    let r = bounded_runtime_end-IsRound values target h in
    let g = required_bars-OnGrid values (latest_of values) r.at_latest in
    rw (← r.same) (omega (arith, g.sum, lag, ahead))

-- Bars on no fixed interval are refused for that alone.
required_bars-err :
    (values : Watermarks) (end : ℕ) {e : EpochError}
    → required_bars values end ≡ err e
    → e ≡ fixed_catchup_interval_required
unfolding required_bars
required_bars-err values end h =
    elim (Bool-cases (not (covers_symbols values) || any (off_grid end) values)) [
      | inl bad ↦ let h1 = rw bad at h in cc
      | inr good ↦ let h1 = rw good at h in cc
    ]

-- The cap on the whole interval, tested last, is never what stops a round.
pub bounded_runtime_end-ne-cap :
    (values : Watermarks) (target : ℕ)
    → bounded_runtime_end values target ≢ err epoch_interval_exceeds_fixed_cap
unfolding bounded_runtime_end
bounded_runtime_end-ne-cap values target h =
    elim (raise_if-Stopped (not (covers_symbols values) || not (target % minute == 0)) _ _ h) [
      | here _ e ↦ cc
      | beyond _ h1 ↦ elim (raise_if-Stopped (ltb target (latest_of values)) _ _ h1) [
        | here _ e ↦ cc
        | beyond _ h2 ↦ elim (>>=-Raised (required_bars values (latest_of values)) _ h2) [
          | at_once e ↦ let e' = required_bars-err values (latest_of values) e in cc
          | later baseline at_latest h3 ↦
              elim (raise_if-Stopped (ltb max_pending baseline) _ _ h3) [
                | here _ e ↦ cc
                | beyond few h4 ↦
                    let last = round_end target (latest_of values) baseline in
                    elim (>>=-Raised (required_bars values last) _ h4) [
                      | at_once e ↦ let e' = required_bars-err values last e in cc
                      | later n at_end h5 ↦ elim (raise_if-Stopped (ltb max_pending n) _ _ h5) [
                        | here many _ ↦
                            let fits =
                              round-fits values target (latest_of values) baseline at_latest
                                (ground (arith, few)) in
                            let g = required_bars-OnGrid values last at_end in
                            let too_many : max_pending < n = ground (arith, many) in
                            omega (arith, g.sum, fits, too_many)
                        | beyond _ done ↦ cc
                      ]
                    ]
              ]
        ]
      ]
    ]
