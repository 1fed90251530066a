-- ===== src/Canary/Clean.antt =====
-- What the failures and the sums of the loop over the trades of `evaluate_evidence` in
-- scripts/paper_canary_acceptance.py say about the trades.
use kairos_deploy.Base.{
  unnegated, ℕ, ◌+◌, ◌≡◌, refl, arith, List, [], ◌∷◌, Bool, true, false, not, ◌&&◌, &&_true,
  append_if-nil, append_if-nil_parts, append-nil_parts,
}
use kairos_deploy.Base.Sets.{All, bytes_eq_instance}
use kairos_deploy.Canary.Evidence.{Decimals, Trade}
use kairos_deploy.Canary.Judge.{
  has_lineage, is_terminal, is_failed, is_contiguous, has_fill, is_protected_flat, is_marketable,
}
use kairos_deploy.Canary.Report.{Totals, add_if, trade_failures, seen, tally}

module _ {F : Type 0} (decimals : Decimals F) where
  -- Nothing is wrong with the trade.
  pub record IsClean (t : Trade F) : Type 0 where
    pub lineage : has_lineage t ≡ true
    pub terminal : is_terminal t ≡ true
    pub unfailed : is_failed t ≡ false
    pub contiguous : is_contiguous t ≡ true
    pub marketable : is_marketable t ≡ true
    pub round_trip : has_fill decimals t ≡ true → is_protected_flat decimals t ≡ true

  -- Nothing is wrong so far.
  pub record IsQuiet (s : Totals) : Type 0 where
    pub no_failures : s.failures ≡ []
    pub all_terminal : s.nonterminal_trades ≡ 0
    pub none_failed : s.failed_lifecycles ≡ 0
    pub all_marketable : s.marketable_ioc_limit ≡ true

  add_if-zero : (test : Bool) (n : ℕ) → add_if test n ≡ 0 → (test ≡ false) × (n ≡ 0)
  add_if-zero true n h = absurd (omega (arith, h))
  add_if-zero false n h = (refl, h)

  trip_of : (fill flat : Bool) → (fill && not flat) ≡ false → fill ≡ true → flat ≡ true
  trip_of true true h e = refl
  trip_of true false h e = cc
  trip_of false flat h e = cc

  trip_to : (fill flat : Bool) → (fill ≡ true → flat ≡ true) → (fill && not flat) ≡ false
  trip_to true flat h = rw (h refl)
  trip_to false flat h = refl

  seen-IsQuiet_from :
      (t : Trade F) (s : Totals) → IsQuiet (seen decimals t s) → IsQuiet s × IsClean t
  unfolding seen trade_failures
  seen-IsQuiet_from t s q =
      let (before, now) = append-nil_parts s.failures _ q.no_failures in
      let (lineage, rest) = append_if-nil_parts _ _ _ now in
      let (contiguous, last) = append_if-nil_parts _ _ _ rest in
      let trip = append_if-nil _ _ last in
      let (terminal, terminals) =
        add_if-zero (not (is_terminal t)) s.nonterminal_trades q.all_terminal in
      let (unfailed, failed) = add_if-zero (is_failed t) s.failed_lifecycles q.none_failed in
      let (marketables, marketable) = &&_true s.marketable_ioc_limit _ q.all_marketable in
      (
        record {
          no_failures = before;
          all_terminal = terminals;
          none_failed = failed;
          all_marketable = marketables;
        },
        record {
          lineage = unnegated (has_lineage t) lineage;
          terminal = unnegated (is_terminal t) terminal;
          unfailed = unfailed;
          contiguous = unnegated (is_contiguous t) contiguous;
          marketable = marketable;
          round_trip = trip_of (has_fill decimals t) (is_protected_flat decimals t) trip;
        },
      )

  trade_failures-nil : (t : Trade F) → IsClean t → trade_failures decimals t ≡ []
  unfolding trade_failures
  trade_failures-nil t c = rw (
    c.lineage,
    c.contiguous,
    trip_to (has_fill decimals t) (is_protected_flat decimals t) c.round_trip,
  )

  seen-IsQuiet : (t : Trade F) (s : Totals) → IsQuiet s → IsClean t → IsQuiet (seen decimals t s)
  unfolding seen
  seen-IsQuiet t s q c = record {
    no_failures = rw (q.no_failures, trade_failures-nil t c);
    all_terminal = rw (c.terminal, q.all_terminal);
    none_failed = rw (c.unfailed, q.none_failed);
    all_marketable = rw (q.all_marketable, c.marketable);
  }

  pub tally-IsQuiet_from :
      (ts : List (Trade F)) (s : Totals)
      → IsQuiet (tally decimals ts s)
      → IsQuiet s × All IsClean ts
  unfolding tally
  tally-IsQuiet_from [] s q = (q, tt)
  tally-IsQuiet_from (t ∷ ts) s q =
      let (later, rest) = tally-IsQuiet_from ts (seen decimals t s) q in
      let (now, clean) = seen-IsQuiet_from t s later in (now, (clean, rest))

  pub tally-IsQuiet :
      (ts : List (Trade F)) (s : Totals)
      → IsQuiet s
      → All IsClean ts
      → IsQuiet (tally decimals ts s)
  unfolding tally
  tally-IsQuiet [] s q clean = q
  tally-IsQuiet (t ∷ ts) s q (c, clean) =
      tally-IsQuiet ts (seen decimals t s) (seen-IsQuiet t s q c) clean

  -- A number summed over the trades.
  abbrev pub total : (Trade F → ℕ) → List (Trade F) → ℕ
  total count [] = 0
  total count (t ∷ ts) = count t + total count ts

  pub tally-fills :
      (ts : List (Trade F)) (s : Totals)
      → (tally decimals ts s).computed_real_fill_events
        ≡ s.computed_real_fill_events + total (λ t. t.real_fill_event_count) ts
  unfolding tally seen
  tally-fills [] s = omega arith
  tally-fills (t ∷ ts) s = omega (arith, tally-fills ts (seen decimals t s))

  pub tally-cancels :
      (ts : List (Trade F)) (s : Totals)
      → (tally decimals ts s).computed_cancel_effects
        ≡ s.computed_cancel_effects + total (λ t. t.cancel_order_effects) ts
  unfolding tally seen
  tally-cancels [] s = omega arith
  tally-cancels (t ∷ ts) s = omega (arith, tally-cancels ts (seen decimals t s))
