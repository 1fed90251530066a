-- ===== src/Epoch/Transport/Budget.antt =====
-- The outages of the subscription loop of scripts/runtime_epoch_worker.py: their attempts, their
-- deadline, and what their errors carry.
use kairos_deploy.Base.{
  some-injective, ℕ, ◌+◌, ◌-◌, ◌≤◌, ◌≡◌, refl, sym, subst, inl, inr, Option, none, some, List, [],
  ◌∷◌, true, false, arith, any, leb, leb→le, leb→gt, Bool-cases, Option-cases,
}
use kairos_deploy.Base.Bytes.{Bytes, bytes_eq}
use kairos_deploy.Epoch.Redis.{
  DriverError, is_class_name, redis_transport_failure, redis_error_class, redis_attempts, stages,
  Reply, answered, failing, FailureRecord, record_redis_failure, sanitized_redis_failure,
}
use kairos_deploy.Epoch.Redis.Records.{
  redis_error_class-is_class_name, record_shown, sanitized-is_class_name,
}
use kairos_deploy.Epoch.Transport.Emitted.{emit_ends, emit_claimed_ends}
use kairos_deploy.Epoch.Transport.{
  Row, Envelope, Stage, pending_read, reclaim, new_message_read, stage_name, End,
  recovery_deadline_exceeded, retry_exhausted, pending_payload_missing, stream_payload_missing,
  Loop, Round, Outcome, Event, claimed, since, class_of, reclaim_every_ms, recovery_ms, command_ms,
  is_over, stage_of, exceeded, broken_by, counted, recovering, recorded, emit_claimed, behind,
  replay_rows, pending_reply, new_reply, new_round, behind_claimed, claimed_reply, reading_round,
  continue, round, rounds,
}

-- The deadline of an outage with so many failures, and when it started.
abbrev pub Budget : ℕ → Option ℕ → Option ℕ → Type 0
Budget n none none = n ≡ 0
Budget n (some deadline) (some start) = (1 ≤ n) × (deadline ≡ start + recovery_ms - command_ms)
Budget n none (some start) = ⊥
Budget n (some deadline) none = ⊥

-- An outage has two failures at most, and a deadline; without one nothing is pending.
pub record IsBounded (s : Loop) : Type 0 where
  pub few : s.failures ≤ 2
  pub idle : s.replay_pending ≡ false → s.failures ≡ 0
  pub budget : Budget s.failures s.recovery_deadline s.recovery_started_at

-- What the errors carry: the record of a third failure, or of a deadline while pending rows are read.
abbrev pub Carries : End → Type 0
Carries (retry_exhausted shown) = (f : FailureRecord) × (shown ≡ some f) × (f.attempts ≡ 3)
Carries (recovery_deadline_exceeded shown) =
    (f : FailureRecord) × (shown ≡ some f)
    × (f.stage ≡ stage_name pending_read)
    × (1 ≤ f.attempts)
    × (f.attempts ≤ 2)
Carries _ = Unit

known_stage : (stage : Stage) → any (bytes_eq (stage_name stage)) stages ≡ true
unfolding bytes_eq
known_stage pending_read = refl
known_stage reclaim = refl
known_stage new_message_read = refl

class_of-is_class_name :
    (t : Option FailureRecord) → is_class_name (class_of (sanitized_redis_failure t)) ≡ true
unfolding is_class_name
class_of-is_class_name t = elim (Option-cases (sanitized_redis_failure t)) [
  | inl absent ↦ rw absent refl
  | inr (f, shown) ↦ rw shown (sanitized-is_class_name t shown)
]

-- A deadline is there only behind a failure.
over-failures : (n : ℕ) (d s : Option ℕ) (now : ℕ) → Budget n d s → is_over d now ≡ true → 1 ≤ n
over-failures n none none now b h = cc
over-failures n none (some s) now b h = cc
over-failures n (some d) none now b h = elim b [ ]
over-failures n (some d) (some s) now b h = b.0

deadline_kept :
    (n : ℕ) (d s : Option ℕ) {deadline : ℕ} → d ≡ some deadline → Budget n d s → Budget (n + 1) d s
deadline_kept n none s h b = cc
deadline_kept n (some d) none h b = b
deadline_kept n (some d) (some s) h b = (omega arith, b.1)

-- One failure more, and the deadline that it sets where there is none.
retried-IsBounded :
    (q : Option ℕ) (stage : Stage) (e : DriverError) (r : Round) (s : Loop)
    → s.recovery_deadline ≡ q
    → s.failures + 1 ≤ 2
    → Budget s.failures s.recovery_deadline s.recovery_started_at
    → IsBounded (record (recorded stage e r (recovering q r (counted s))) { replay_pending = true })
retried-IsBounded none stage e r s h few b = record {
  few = few;
  idle = λ owes. cc;
  budget = (omega arith, refl);
}
retried-IsBounded (some d) stage e r s h few b = record {
  few = few;
  idle = λ owes. cc;
  budget = deadline_kept s.failures s.recovery_deadline s.recovery_started_at h b;
}

-- While nothing is pending no deadline runs.
pub idle-is_over :
    (s : Loop) (now : ℕ)
    → IsBounded s
    → s.replay_pending ≡ false
    → is_over s.recovery_deadline now ≡ false
idle-is_over s now b free = elim (Bool-cases (is_over s.recovery_deadline now)) [
  | inr left ↦ left
  | inl over ↦ absurd (
      omega (
        arith,
        over-failures s.failures s.recovery_deadline s.recovery_started_at now b.budget over,
        b.idle free,
      ))
]

stage_of-pending : (s : Loop) (r : Round) → s.replay_pending ≡ true → stage_of s r ≡ pending_read
unfolding stage_of
stage_of-pending s r h = simp h

module _ {P : Type 0} where
  pub record IsWell (out : Outcome P) : Type 0 where
    pub bounded : out.ending ≡ none → IsBounded out.loop
    pub carried : (e : End) → out.ending ≡ some e → Carries e

  exceeded-IsWell :
      (s : Loop) (r : Round) → 1 ≤ s.failures → s.failures ≤ 2 → IsWell (exceeded pending_read s r)
  unfolding exceeded record_redis_failure
  exceeded-IsWell s r least most =
      let class = class_of (sanitized_redis_failure s.telemetry.last_failure) in
      let shown =
        record_shown (stage_name pending_read) (since s.recovery_started_at r) class s.failures
          s.telemetry (known_stage pending_read) least (omega (arith, most))
          (class_of-is_class_name s.telemetry.last_failure) in
      record {
        bounded = λ h. cc;
        carried = λ e h. subst Carries (some-injective h) (_, shown, refl, least, most);
      }

  broken_by-IsWell :
      (stage : Stage) (e : DriverError) (r : Round) (s : Loop)
      → IsBounded s
      → IsWell (broken_by stage e r s)
  unfolding broken_by record_redis_failure
  broken_by-IsWell stage e r s b = elim (Bool-cases (redis_transport_failure e)) [
    | inr other ↦
        rw other
          (record { bounded = λ h. cc; carried = λ e' h. subst Carries (some-injective h) tt })
    | inl transport ↦ rw transport (elim (Bool-cases (leb redis_attempts (s.failures + 1))) [
      | inl last ↦
          let third : s.failures + 1 ≡ 3 =
            omega (arith, leb→le redis_attempts (s.failures + 1) last, b.few) in
          let shown =
            record_shown (stage_name stage) (since s.recovery_started_at r) (redis_error_class e)
              (s.failures + 1) (counted s).telemetry (known_stage stage) (omega arith)
              (omega (arith, third)) (redis_error_class-is_class_name e) in
          rw last (record {
            bounded = λ h. cc;
            carried = λ e' h. subst Carries (some-injective h) (_, shown, third);
          })
      | inr more ↦ rw more (record {
        bounded = λ h.
            retried-IsBounded s.recovery_deadline stage e r s refl
              (omega (arith, leb→gt redis_attempts (s.failures + 1) more)) b.budget;
        carried = λ e' h. elim (Bool-cases r.stopped_in_pause) [
          | inl stop ↦ subst Carries (some-injective (simp stop at h)) tt
          | inr go ↦ cc (simp go at h)
        ];
      })
    ])
  ]

  behind-IsWell :
      (loads : Bytes → Option P) (events : List Event) (emitted : List (Envelope P))
      (out : Outcome P)
      → IsWell out
      → IsWell (behind loads events emitted out)
  behind-IsWell loads events emitted out w = record { bounded = w.bounded; carried = w.carried }

  -- A deadline that has passed: a replay is pending, and its error says so.
  over-IsWell :
      (r : Round) (s : Loop)
      → IsBounded s
      → is_over s.recovery_deadline r.budget_at ≡ true
      → IsWell (exceeded (stage_of s r) s r)
  over-IsWell r s b over = elim (Bool-cases s.replay_pending) [
    | inl owes ↦
        subst (λ (stage : Stage). IsWell (exceeded stage s r)) (sym (stage_of-pending s r owes))
          (exceeded-IsWell s r
            (over-failures s.failures s.recovery_deadline s.recovery_started_at r.budget_at b.budget
              over)
            b.few)
    | inr free ↦ absurd (cc (over, idle-is_over s r.budget_at b free))
  ]

module _ {P : Type 0} (loads : Bytes → Option P) where
  replay_rows-IsWell :
      (rows : List Row) (s : Loop)
      → IsBounded s
      → s.failures ≡ 0
      → IsWell (replay_rows loads rows s)
  unfolding replay_rows
  replay_rows-IsWell [] s b f = record {
    bounded = λ h. record { few = b.few; idle = λ owes. f; budget = b.budget };
    carried = λ e h. cc;
  }
  replay_rows-IsWell (row ∷ rows) s b f = record {
    bounded = λ h. record { few = b.few; idle = λ owes. f; budget = b.budget };
    carried =
        λ e h. emit_ends loads Carries tt pending_payload_missing (some 2) true (row ∷ rows) tt h;
  }

  pending_reply-IsWell :
      (r : Round) (q : Reply (List Row)) (s : Loop)
      → IsBounded s
      → IsWell (pending_reply loads r q s)
  unfolding pending_reply
  pending_reply-IsWell r (failing e) s b = broken_by-IsWell pending_read e r s b
  pending_reply-IsWell r (answered rows) s b =
      replay_rows-IsWell rows _ (record { few = omega arith; idle = λ owes. refl; budget = refl })
        refl

  new_reply-IsWell :
      (r : Round) (q : Reply (List Row)) (s : Loop) → IsBounded s → IsWell (new_reply loads r q s)
  unfolding new_reply
  new_reply-IsWell r (failing e) s b = broken_by-IsWell new_message_read e r s b
  new_reply-IsWell r (answered rows) s b = record {
    bounded = λ h. record { few = omega arith; idle = λ owes. refl; budget = refl };
    carried = λ e h. emit_ends loads Carries tt stream_payload_missing none false rows tt h;
  }

  new_round-IsWell :
      (r : Round) (s : Loop) → IsBounded s → s.replay_pending ≡ false → IsWell (new_round loads r s)
  unfolding new_round
  new_round-IsWell r s b free =
      simp (idle-is_over s r.new_budget_at b free) (new_reply-IsWell r r.new s b)

  behind_claimed-IsWell :
      (r : Round) (out : List (Envelope P) × Option End) (s : Loop)
      → ((e : End) → out.1 ≡ some e → Carries e)
      → IsBounded s
      → s.replay_pending ≡ false
      → IsWell (behind_claimed loads r out s)
  unfolding behind_claimed
  behind_claimed-IsWell r (emitted, some bad) s c b free = record { bounded = λ h. cc; carried = c }
  behind_claimed-IsWell r (emitted, none) s c b free =
      behind-IsWell loads (claimed ∷ []) emitted (new_round loads r s) (new_round-IsWell r s b free)

  claimed_reply-IsWell :
      (r : Round) (q : Reply (List (Row × ℕ))) (s : Loop)
      → IsBounded s
      → s.replay_pending ≡ false
      → IsWell (claimed_reply loads r q s)
  unfolding claimed_reply
  claimed_reply-IsWell r (failing e) s b free = broken_by-IsWell reclaim e r s b
  claimed_reply-IsWell r (answered claims) s b free =
      behind_claimed-IsWell r (emit_claimed loads claims) _
        (λ e h. emit_claimed_ends loads Carries tt claims tt h)
        (record { few = b.few; idle = b.idle; budget = b.budget }) free

  reading_round-IsWell :
      (r : Round) (s : Loop)
      → IsBounded s
      → s.replay_pending ≡ false
      → IsWell (reading_round loads r s)
  unfolding reading_round
  reading_round-IsWell r s b free =
      elim (Bool-cases (leb reclaim_every_ms (r.reclaim_at - s.last_reclaim))) [
        | inl due ↦ simp due (claimed_reply-IsWell r r.reclaimed s b free)
        | inr early ↦ simp early (new_round-IsWell r s b free)
      ]

  pub round-IsWell : (r : Round) (s : Loop) → IsBounded s → IsWell (round loads r s)
  unfolding round
  round-IsWell r s b = elim (Bool-cases r.stopped) [
    | inl stop ↦
        simp stop
          (record { bounded = λ h. cc; carried = λ e h. subst Carries (some-injective h) tt })
    | inr go ↦ simp go (elim (Bool-cases (is_over s.recovery_deadline r.budget_at)) [
      | inl over ↦ simp over (over-IsWell r s b over)
      | inr left ↦ simp left (elim (Bool-cases s.replay_pending) [
        | inl owes ↦ simp owes (pending_reply-IsWell r r.pending s b)
        | inr free ↦ simp free (reading_round-IsWell r s b free)
      ])
    ])
  ]

  continue-IsWell :
      (next : Loop → Outcome P) (out : Outcome P) (ending : Option End)
      → out.ending ≡ ending
      → IsWell out
      → ((s : Loop) → IsBounded s → IsWell (next s))
      → IsWell (continue loads next out ending)
  unfolding continue
  continue-IsWell next out (some e) same w later = w
  continue-IsWell next out none same w later =
      behind-IsWell loads out.events out.emitted (next out.loop) (later out.loop (w.bounded same))

  -- From variables of which it holds, the loop keeps an outage to two failures, and what it raises for
  -- one carries its record.
  pub rounds-IsWell : (rs : List Round) (s : Loop) → IsBounded s → IsWell (rounds loads rs s)
  unfolding rounds
  rounds-IsWell [] s b = record { bounded = λ h. b; carried = λ e h. cc }
  rounds-IsWell (r ∷ rs) s b =
      continue-IsWell _ (round loads r s) _ refl (round-IsWell r s b)
        (λ s' b'. rounds-IsWell rs s' b')
