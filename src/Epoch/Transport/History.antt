-- ===== src/Epoch/Transport/History.antt =====
-- What the history of the rounds of the subscription loop in scripts/runtime_epoch_worker.py says of an
-- outage: when it began, and how many reads failed in it.
use kairos_deploy.Base.{
  ℕ, ◌+◌, ◌≤◌, ◌≡◌, refl, ap, Option, none, some, List, [], ◌∷◌, Bool, true, false, arith, leb,
}
use kairos_deploy.Epoch.Transport.{
  End, recovery_deadline_exceeded, retry_exhausted, Loop, Round, Event, drained, replayed, claimed,
  fetched, broken, is_over, counted, recovering,
}
use kairos_deploy.Epoch.Transport.Budget.{Budget}

abbrev first_start : Option ℕ → ℕ → ℕ
first_start none now = now
first_start (some start) now = start

-- When the outage began that goes on behind the events of a round: at the read of its first failure,
-- and until a read that succeeds.
abbrev pub outage_after : Round → List Event → Option ℕ → Option ℕ
outage_after r [] start = start
outage_after r (drained ∷ events) start = outage_after r events none
outage_after r (replayed ∷ events) start = outage_after r events none
outage_after r (fetched ∷ events) start = outage_after r events none
outage_after r (claimed ∷ events) start = outage_after r events start
outage_after r (broken stage ∷ events) start =
    outage_after r events (some (first_start start r.started_at))

-- How many reads failed since the last one that succeeded.
abbrev pub failures_after : List Event → ℕ → ℕ
failures_after [] n = n
failures_after (drained ∷ events) n = failures_after events 0
failures_after (replayed ∷ events) n = failures_after events 0
failures_after (fetched ∷ events) n = failures_after events 0
failures_after (claimed ∷ events) n = failures_after events n
failures_after (broken stage ∷ events) n = failures_after events (n + 1)

-- 16 seconds or more from the start of an outage.
abbrev pub is_late : Option ℕ → ℕ → Bool
is_late none now = false
is_late (some start) now = leb (start + 16_000) now

abbrev pub is_exceeded : Option End → Bool
is_exceeded (some (recovery_deadline_exceeded shown)) = true
is_exceeded _ = false

abbrev pub is_exhausted : Option End → Bool
is_exhausted (some (retry_exhausted shown)) = true
is_exhausted _ = false

-- An error that an outage does not raise.
abbrev pub IsOther : End → Type 0
IsOther e = (is_exceeded (some e) ≡ false) × (is_exhausted (some e) ≡ false)

pub every_end_kept :
    (ending : Option End)
    → ((e : End) → ending ≡ some e → IsOther e)
    → (is_exceeded ending ≡ false) × (is_exhausted ending ≡ false)
every_end_kept none h = (refl, refl)
every_end_kept (some e) h = h e refl

pub below_three : (n : ℕ) → n ≤ 2 → false ≡ leb 3 n
below_three n h = ground arith

pub recovering-failures :
    (d : Option ℕ) (r : Round) (s : Loop) → (recovering d r s).failures ≡ s.failures
recovering-failures none r s = refl
recovering-failures (some d) r s = refl

pub late-is_over :
    (n : ℕ) (d start : Option ℕ) (now : ℕ) → Budget n d start → is_over d now ≡ is_late start now
late-is_over n none none now b = refl
late-is_over n none (some start) now b = elim b [ ]
late-is_over n (some d) none now b = elim b [ ]
late-is_over n (some d) (some start) now b = ap (λ k. leb k now) (omega (arith, b.1))

pub recovering-start :
    (n : ℕ) (d start : Option ℕ) (r : Round) (s : Loop)
    → s.recovery_started_at ≡ start
    → Budget n d start
    → (recovering d r (counted s)).recovery_started_at ≡ some (first_start start r.started_at)
recovering-start n none none r s e b = refl
recovering-start n none (some start) r s e b = elim b [ ]
recovering-start n (some d) none r s e b = elim b [ ]
recovering-start n (some d) (some start) r s e b = e
