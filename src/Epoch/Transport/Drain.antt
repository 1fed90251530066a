-- ===== src/Epoch/Transport/Drain.antt =====
-- The order of reads in the subscription loop of scripts/runtime_epoch_worker.py.
use kairos_deploy.Base.{
  ℕ, ◌+◌, ◌-◌, ◌≡◌, refl, sym, ◌∙◌, subst, inl, inr, Option, none, some, List, [], ◌∷◌, ◌++◌, Bool,
  true, false, not, ◌&&◌, arith, leb, if◌then◌else◌, Bool-cases,
}
use kairos_deploy.Base.Bytes.{Bytes}
use kairos_deploy.Epoch.Redis.{
  DriverError, redis_transport_failure, redis_attempts, Reply, answered, failing,
}
use kairos_deploy.Epoch.Transport.{
  Row, Envelope, Stage, pending_read, reclaim, new_message_read, End, Loop, Round, Event, drained,
  replayed, claimed, fetched, broken, Outcome, is_over, stage_of, exceeded, broken_by,
  reclaim_every_ms, behind, replay_rows, pending_reply, new_reply, new_round, behind_claimed,
  claimed_reply, continue, reading_round, round, rounds,
}

-- Whether what is pending must be read again, behind the events: since a failure, until it is drained.
abbrev pub owed : Bool → List Event → Bool
owed b [] = b
owed b (broken stage ∷ events) = owed true events
owed b (drained ∷ events) = owed false events
owed b (replayed ∷ events) = owed b events
owed b (claimed ∷ events) = owed b events
owed b (fetched ∷ events) = owed b events

-- Which commands fit: reads of what is pending while it is owed, and others while it is not.
abbrev pub fits : Bool → Event → Bool
fits b drained = b
fits b replayed = b
fits b claimed = not b
fits b fetched = not b
fits b (broken pending_read) = b
fits b (broken reclaim) = not b
fits b (broken new_message_read) = not b

abbrev pub disciplined : Bool → List Event → Bool
disciplined b [] = true
disciplined b (event ∷ events) = fits b event && disciplined (owed b (event ∷ [])) events

owed-append : (b : Bool) (es fs : List Event) → owed b (es ++ fs) ≡ owed (owed b es) fs
owed-append b [] fs = refl
owed-append b (broken stage ∷ es) fs = owed-append true es fs
owed-append b (drained ∷ es) fs = owed-append false es fs
owed-append b (replayed ∷ es) fs = owed-append b es fs
owed-append b (claimed ∷ es) fs = owed-append b es fs
owed-append b (fetched ∷ es) fs = owed-append b es fs

disciplined-append :
    (b : Bool) (es fs : List Event)
    → disciplined b es ≡ true
    → disciplined (owed b es) fs ≡ true
    → disciplined b (es ++ fs) ≡ true
disciplined-append b [] fs h k = k
disciplined-append b (broken stage ∷ es) fs h k = ground (arith, disciplined-append true es fs, k)
disciplined-append b (drained ∷ es) fs h k = ground (arith, disciplined-append false es fs, k)
disciplined-append b (replayed ∷ es) fs h k = ground (arith, disciplined-append b es fs, k)
disciplined-append b (claimed ∷ es) fs h k = ground (arith, disciplined-append b es fs, k)
disciplined-append b (fetched ∷ es) fs h k = ground (arith, disciplined-append b es fs, k)

module _ {P : Type 0} where
  -- The commands fit, and the loop goes on with the replay that they leave owed.
  pub record IsDisciplined (b : Bool) (out : Outcome P) : Type 0 where
    pub in_order : disciplined b out.events ≡ true
    pub next : out.ending ≡ none → out.loop.replay_pending ≡ owed b out.events

  exceeded-IsDisciplined :
      (b : Bool) (stage : Stage) (s : Loop) (r : Round) → IsDisciplined b (exceeded stage s r)
  unfolding exceeded
  exceeded-IsDisciplined b stage s r = record { in_order = refl; next = λ h. cc }

  broken_by-IsDisciplined :
      (b : Bool) (stage : Stage) (e : DriverError) (r : Round) (s : Loop)
      → fits b (broken stage) ≡ true
      → IsDisciplined b (broken_by stage e r s)
  unfolding broken_by
  broken_by-IsDisciplined b stage e r s f = elim (Bool-cases (redis_transport_failure e)) [
    | inr other ↦ rw other (record { in_order = refl; next = λ h. cc })
    | inl transport ↦ rw transport (elim (Bool-cases (leb redis_attempts (s.failures + 1))) [
      | inl last ↦ rw last (record { in_order = rw f; next = λ h. cc })
      | inr more ↦ rw more (record { in_order = rw f; next = λ h. refl })
    ])
  ]

  behind-IsDisciplined :
      (b : Bool) (loads : Bytes → Option P) (events : List Event) (emitted : List (Envelope P))
      (out : Outcome P)
      → disciplined b events ≡ true
      → IsDisciplined (owed b events) out
      → IsDisciplined b (behind loads events emitted out)
  behind-IsDisciplined b loads events emitted out f d = record {
    in_order = disciplined-append b events out.events f d.in_order;
    next = λ h. d.next h ∙ sym (owed-append b events out.events);
  }

module _ {P : Type 0} (loads : Bytes → Option P) where
  replay_rows-IsDisciplined :
      (rows : List Row) (s : Loop)
      → s.replay_pending ≡ true
      → IsDisciplined true (replay_rows loads rows s)
  unfolding replay_rows
  replay_rows-IsDisciplined [] s p = record { in_order = refl; next = λ h. refl }
  replay_rows-IsDisciplined (row ∷ rows) s p = record { in_order = refl; next = λ h. p }

  pending_reply-IsDisciplined :
      (r : Round) (q : Reply (List Row)) (s : Loop)
      → s.replay_pending ≡ true
      → IsDisciplined true (pending_reply loads r q s)
  unfolding pending_reply
  pending_reply-IsDisciplined r (failing e) s p =
      broken_by-IsDisciplined true pending_read e r s refl
  pending_reply-IsDisciplined r (answered rows) s p = replay_rows-IsDisciplined rows _ p

  new_reply-IsDisciplined :
      (r : Round) (q : Reply (List Row)) (s : Loop)
      → s.replay_pending ≡ false
      → IsDisciplined false (new_reply loads r q s)
  unfolding new_reply
  new_reply-IsDisciplined r (failing e) s p =
      broken_by-IsDisciplined false new_message_read e r s refl
  new_reply-IsDisciplined r (answered rows) s p = record { in_order = refl; next = λ h. p }

  new_round-IsDisciplined :
      (r : Round) (s : Loop) → s.replay_pending ≡ false → IsDisciplined false (new_round loads r s)
  unfolding new_round
  new_round-IsDisciplined r s p = elim (Bool-cases (is_over s.recovery_deadline r.new_budget_at)) [
    | inl over ↦ simp over (exceeded-IsDisciplined false new_message_read s r)
    | inr left ↦ simp left (new_reply-IsDisciplined r r.new s p)
  ]

  behind_claimed-IsDisciplined :
      (r : Round) (out : List (Envelope P) × Option End) (s : Loop)
      → s.replay_pending ≡ false
      → IsDisciplined false (behind_claimed loads r out s)
  unfolding behind_claimed
  behind_claimed-IsDisciplined r (emitted, some bad) s p = record {
    in_order = refl;
    next = λ h. cc;
  }
  behind_claimed-IsDisciplined r (emitted, none) s p =
      behind-IsDisciplined false loads (claimed ∷ []) emitted (new_round loads r s) refl
        (new_round-IsDisciplined r s p)

  claimed_reply-IsDisciplined :
      (r : Round) (q : Reply (List (Row × ℕ))) (s : Loop)
      → s.replay_pending ≡ false
      → IsDisciplined false (claimed_reply loads r q s)
  unfolding claimed_reply
  claimed_reply-IsDisciplined r (failing e) s p = broken_by-IsDisciplined false reclaim e r s refl
  claimed_reply-IsDisciplined r (answered claims) s p = behind_claimed-IsDisciplined r _ _ p

  reading_round-IsDisciplined :
      (r : Round) (s : Loop)
      → s.replay_pending ≡ false
      → IsDisciplined false (reading_round loads r s)
  unfolding reading_round
  reading_round-IsDisciplined r s p =
      elim (Bool-cases (leb reclaim_every_ms (r.reclaim_at - s.last_reclaim))) [
        | inl due ↦ simp due (claimed_reply-IsDisciplined r r.reclaimed s p)
        | inr early ↦ simp early (new_round-IsDisciplined r s p)
      ]

  round-IsDisciplined : (r : Round) (s : Loop) → IsDisciplined s.replay_pending (round loads r s)
  unfolding round
  round-IsDisciplined r s = elim (Bool-cases r.stopped) [
    | inl stop ↦ simp stop (record { in_order = refl; next = λ h. cc })
    | inr go ↦ simp go (elim (Bool-cases (is_over s.recovery_deadline r.budget_at)) [
      | inl over ↦ simp over (exceeded-IsDisciplined s.replay_pending (stage_of s r) s r)
      | inr left ↦ simp left (elim (Bool-cases s.replay_pending) [
        | inl owes ↦
            subst
              (λ (b : Bool).
                IsDisciplined b
                  (if b then pending_reply loads r r.pending s else reading_round loads r s))
              (sym owes) (pending_reply-IsDisciplined r r.pending s owes)
        | inr free ↦
            subst
              (λ (b : Bool).
                IsDisciplined b
                  (if b then pending_reply loads r r.pending s else reading_round loads r s))
              (sym free) (reading_round-IsDisciplined r s free)
      ])
    ])
  ]

  continue-IsDisciplined :
      (b : Bool) (next : Loop → Outcome P) (out : Outcome P) (ending : Option End)
      → out.ending ≡ ending
      → IsDisciplined b out
      → ((s : Loop) → IsDisciplined s.replay_pending (next s))
      → IsDisciplined b (continue loads next out ending)
  unfolding continue
  continue-IsDisciplined b next out (some e) same d later = d
  continue-IsDisciplined b next out none same d later =
      behind-IsDisciplined b loads out.events out.emitted (next out.loop) d.in_order
        (subst (λ (c : Bool). IsDisciplined c (next out.loop)) (d.next same) (later out.loop))

  -- In every run of the loop, from a failure on, what is pending is read until Redis returns none of
  -- it, and nothing else is; before a failure, nothing pending is read. The variable `replay_pending`
  -- says which.
  pub rounds-IsDisciplined :
      (rs : List Round) (s : Loop) → IsDisciplined s.replay_pending (rounds loads rs s)
  unfolding rounds
  rounds-IsDisciplined [] s = record { in_order = refl; next = λ h. refl }
  rounds-IsDisciplined (r ∷ rs) s =
      continue-IsDisciplined s.replay_pending _ (round loads r s) _ refl (round-IsDisciplined r s)
        (λ s'. rounds-IsDisciplined rs s')
