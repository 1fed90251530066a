-- ===== src/Epoch/Transport/Deadline.antt =====
-- The deadline of an outage in the subscription loop of scripts/runtime_epoch_worker.py, against the
-- history of its rounds.
use kairos_deploy.Base.{ℕ, ◌≡◌, Option, none, List, [], ◌∷◌, Bool, true, not, ◌&&◌, leb}
use kairos_deploy.Base.Bytes.{Bytes}
use kairos_deploy.Epoch.Transport.{Loop, Round, Outcome, round}
use kairos_deploy.Epoch.Transport.History.{
  outage_after, failures_after, is_late, is_exceeded, is_exhausted,
}

module _ {P : Type 0} where
  -- A round in an outage that began at `start`, with `n` failures: whether it ends for the deadline, or
  -- for a third failure, and what it leaves.
  record IsStep (r : Round) (start : Option ℕ) (n : ℕ) (late : Bool) (out : Outcome P)
      : Type 0 where
    said : is_exceeded out.ending ≡ late
    silent : late ≡ true → out.events ≡ []
    told : is_exhausted out.ending ≡ leb 3 (failures_after out.events n)
    tracked : out.ending ≡ none → out.loop.recovery_started_at ≡ outage_after r out.events start
    numbered : out.ending ≡ none → out.loop.failures ≡ failures_after out.events n

module _ {P : Type 0} (loads : Bytes → Option P) where
  -- Rounds from an outage that began at `start`, if there is one, with `n` failures: each ends for the
  -- deadline exactly when it is not stopped and begins 16 seconds or more behind the start, and then it
  -- has read nothing, and ends for its failures exactly when they are three.
  abbrev pub IsTimely : Option ℕ → ℕ → List Round → Loop → Type 0
  IsTimely start n [] s = Unit
  IsTimely start n (r ∷ rs) s =
      (is_exceeded (round loads r s).ending ≡ (not r.stopped && is_late start r.budget_at))
      × (is_exceeded (round loads r s).ending ≡ true → (round loads r s).events ≡ [])
      × (is_exhausted (round loads r s).ending ≡ leb 3 (failures_after (round loads r s).events n))
      × ((round loads r s).ending ≡ none
          → IsTimely (outage_after r (round loads r s).events start)
              (failures_after (round loads r s).events n) rs (round loads r s).loop)
