-- ===== src/Epoch/Outbox/Published.antt =====
-- What a flush that returns has done: `flush` of scripts/runtime_epoch_worker.py.
use kairos_deploy.Base.{
  ℕ, zero, suc, ◌+◌, ◌≤◌, ◌≡◌, refl, sym, ap, subst, inl, inr, Bool, true, false, ◌||◌, List, [],
  ◌∷◌, arith, Result, ok, err, length, take, ltb, ltb→le, ◌==◌, any, all, Bool-cases, Result-cases,
}
use kairos_deploy.Base.Bytes.{Bytes}
use kairos_deploy.Epoch.Catchup.{max_pending}
use kairos_deploy.Epoch.Outbox.{Redis, LuaError, FlushError}
use kairos_deploy.Epoch.Outbox.Flush.{
  Row, Host, Services, Fault, no_fault, request_lost, reply_lost, update_lost, pending, mark,
  check_row, replied, sent, answer_to, flush_row, continue, flush_rows, flush_records, unlocked,
  flush,
}

module _ {P : Type 0} where
  abbrev pub is_done : Row P → Bool
  is_done row = row.is_published

  -- Every row is published, or has the id of one of the records.
  abbrev Covered : List (Row P) → List (Row P) → Type 0
  Covered records [] = Unit
  Covered records (row ∷ rows) =
      (row.is_published || any (λ (r : Row P). row.id == r.id) records ≡ true)
      × Covered records rows

  mark-Covered :
      (r : Row P) (records rows : List (Row P))
      → Covered (r ∷ records) rows
      → Covered records (mark r.id rows)
  mark-Covered r records [] c = tt
  mark-Covered r records (row ∷ rows) (first, c) = (
    elim (Bool-cases row.is_published) [
      | inl done ↦ ground (arith, done)
      | inr due ↦ ground (arith, due, first)
    ],
    ground (arith, mark-Covered r records rows c),
  )

  none_open : (rows : List (Row P)) → Covered [] rows → all is_done rows ≡ true
  none_open [] c = refl
  none_open (row ∷ rows) (first, c) = ground (arith, none_open rows c)

  with_record :
      (r : Row P) (records rows : List (Row P)) → Covered records rows → Covered (r ∷ records) rows
  with_record r records [] c = tt
  with_record r records (row ∷ rows) (first, c) =
      (ground (arith, first), with_record r records rows c)

  pending-Covered : (rows : List (Row P)) → Covered (pending rows) rows
  pending-Covered [] = tt
  pending-Covered (row ∷ rows) = elim (Bool-cases row.is_published) [
    | inl done ↦
        let skipped : pending (row ∷ rows) ≡ pending rows = simp done in
        (
          ground (arith, done),
          subst (λ (rs : List (Row P)). Covered rs rows) (sym skipped) (pending-Covered rows),
        )
    | inr due ↦
        let kept : pending (row ∷ rows) ≡ row ∷ pending rows = simp due in
        subst (λ (rs : List (Row P)). Covered rs (row ∷ rows)) (sym kept)
          (ground arith, with_record row (pending rows) rows (pending-Covered rows))
  ]

  -- A list that a prefix of it, no longer than the cap, does not cut.
  pub take_short :
      (n : ℕ) (rows : List (Row P)) → length (take (suc n) rows) ≤ n → take (suc n) rows ≡ rows
  take_short n [] h = refl
  take_short zero (row ∷ rows) h = absurd (omega (arith, h))
  take_short (suc n) (row ∷ rows) h =
      ap (λ (rs : List (Row P)). row ∷ rs) (take_short n rows (omega (arith, h)))

  -- The loop went on behind a row.
  pub data Continued (next : Host P → Result FlushError ℕ × Host P)
      (out : Result FlushError (Unit {0}) × Host P) (n : ℕ) (host' : Host P) : Type 0 where
    continued :
        (later : Host P)
        → out ≡ (ok tt, later)
        → next later ≡ (ok n, host')
        → Continued next out n host'

  pub continue-Continued :
      (next : Host P → Result FlushError ℕ × Host P) (out : Result FlushError (Unit {0}) × Host P)
      {n : ℕ} {host' : Host P}
      → continue next out ≡ (ok n, host')
      → Continued next out n host'
  continue-Continued next (ok u, later) h = continued later refl h
  continue-Continued next (err e, later) h = cc

  -- The outcome before the lock was given back.
  pub record Unlocked (out : Result FlushError ℕ × Host P) (r : Result FlushError ℕ)
      (host' : Host P) : Type 0 where
    pub later : Host P
    pub returned : out ≡ (r, later)
    pub same_redis : host'.redis ≡ later.redis
    same_rows : host'.rows ≡ later.rows
    released : host'.lock_held ≡ false

  pub unlocked-Unlocked :
      (out : Result FlushError ℕ × Host P) {r : Result FlushError ℕ} {host' : Host P}
      → unlocked out ≡ (r, host')
      → Unlocked out r host'
  unlocked-Unlocked (q, later) {r} {host'} h =
      let result : q ≡ r = cc in
      let given : record later { lock_held = false } ≡ host' =
        ap (λ (p : Result FlushError ℕ × Host P). p.1) h in
      record {
        later = later;
        returned = ap (λ (x : Result FlushError ℕ). (x, later)) result;
        same_redis = ap (λ (x : Host P). x.redis) (sym given);
        same_rows = ap (λ (x : Host P). x.rows) (sym given);
        released = ap (λ (x : Host P). x.lock_held) (sym given);
      }

module _ {P : Type 0} (services : Services P) where
  replied-rows :
      (fault : Fault) (row : Row P) (host : Host P) (r : Result LuaError Bytes) {host' : Host P}
      → replied fault row host r ≡ (ok tt, host')
      → host'.rows ≡ mark row.id host.rows
  replied-rows no_fault row host (err e) h = cc
  replied-rows no_fault row host (ok receipt) h = ground (arith, h)
  replied-rows request_lost row host (err e) h = cc
  replied-rows request_lost row host (ok receipt) h = ground (arith, h)
  replied-rows reply_lost row host (err e) h = cc
  replied-rows reply_lost row host (ok receipt) h = ground (arith, h)
  replied-rows update_lost row host (err e) h = cc
  replied-rows update_lost row host (ok receipt) h = ground (arith, h)

  sent-rows :
      (fault : Fault) (row : Row P) (host : Host P) (a : Result LuaError Bytes × Redis)
      {host' : Host P}
      → sent fault row host a ≡ (ok tt, host')
      → host'.rows ≡ mark row.id host.rows
  sent-rows no_fault row host a h = replied-rows no_fault row (record host { redis = a.1 }) a.0 h
  sent-rows request_lost row host a h = cc
  sent-rows reply_lost row host a h = cc
  sent-rows update_lost row host a h =
      replied-rows update_lost row (record host { redis = a.1 }) a.0 h

  flush_row-rows :
      (fault : Fault) (row : Row P) (host : Host P) {host' : Host P}
      → flush_row services fault row host ≡ (ok tt, host')
      → host'.rows ≡ mark row.id host.rows
  unfolding flush_row
  flush_row-rows fault row host h = elim (Result-cases (check_row services row)) [
    | inl (u, e) ↦ sent-rows fault row host (answer_to services row host.redis) (rw e at h)
    | inr (e, refused) ↦ let h1 = rw refused at h in cc
  ]

  flush_rows-done :
      (faults : ℕ → Fault) (count : ℕ) (records : List (Row P)) (host : Host P) {n : ℕ}
      {host' : Host P}
      → flush_rows services faults count records host ≡ (ok n, host')
      → Covered records host.rows
      → (all is_done host'.rows ≡ true) × (n ≡ count + length records)
  unfolding flush_rows
  flush_rows-done faults count [] host {n} {host'} h c =
      let joined : (ok count, host) ≡ (ok n, host') = h in
      let same : host ≡ host' = ap (λ (p : Result FlushError ℕ × Host P). p.1) joined in
      let counted : count ≡ n = cc in
      (subst (λ (x : Host P). all is_done x.rows ≡ true) same (none_open host.rows c), omega arith)
  flush_rows-done faults count (row ∷ records) host {n} {host'} h c =
      elim (continue-Continued _ (flush_row services (faults count) row host) h) [
        | continued later e h1 ↦
            let (done, total) = flush_rows-done faults (count + 1) records later h1 (
              subst (Covered records) (sym (flush_row-rows (faults count) row host e))
                (mark-Covered row records host.rows c)) in
            (done, omega (arith, total))
      ]

  flush_records-done :
      (faults : ℕ → Fault) (host : Host P) {n : ℕ} {host' : Host P}
      → flush_records services faults (take (max_pending + 1) (pending host.rows)) host
        ≡ (ok n, host')
      → (all is_done host'.rows ≡ true) × (n ≡ length (pending host.rows))
  flush_records-done faults host {n} {host'} h =
      elim (Bool-cases (ltb max_pending (length (take (max_pending + 1) (pending host.rows))))) [
        | inl many ↦ let h1 = rw many at h in cc
        | inr few ↦
            let whole : take (max_pending + 1) (pending host.rows) ≡ pending host.rows =
              take_short max_pending (pending host.rows)
                (ltb→le max_pending (length (take (max_pending + 1) (pending host.rows))) few) in
            let h1 : flush_rows services faults 0 (take (max_pending + 1) (pending host.rows)) host
                ≡ (ok n, host') =
              rw few at h in
            let (done, total) =
              flush_rows-done faults 0 (pending host.rows) host (rw whole at h1)
                (pending-Covered host.rows) in
            (done, omega (arith, total))
      ]

  -- A flush that returns has published every row that was pending, and says how many these were.
  pub flush-is_done :
      (faults : ℕ → Fault) (host : Host P) {n : ℕ} {host' : Host P}
      → flush services faults host ≡ (ok n, host')
      → (all is_done host'.rows ≡ true)
        × (n ≡ length (pending host.rows))
        × (host'.lock_held ≡ false)
  unfolding flush
  flush-is_done faults host {n} {host'} h = elim (Bool-cases host.lock_held) [
    | inl busy ↦ let h1 = rw busy at h in cc
    | inr free ↦
        let run =
          flush_records services faults (take (max_pending + 1) (pending host.rows))
            (record host { lock_held = true }) in
        let u = unlocked-Unlocked run (rw free at h) in
        let (done, total) =
          flush_records-done faults (record host { lock_held = true }) u.returned in
        (rw u.same_rows done, total, u.released)
  ]
