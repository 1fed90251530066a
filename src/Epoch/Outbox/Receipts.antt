-- ===== src/Epoch/Outbox/Receipts.antt =====
-- The receipts of the rows that `flush` of scripts/runtime_epoch_worker.py has published.
use kairos_deploy.Base.{
  ℕ, ◌+◌, ◌≡◌, refl, sym, ap, ◌∙◌, subst, inl, inr, true, some, List, [], ◌∷◌, arith, Result, ok,
  err, length, take, ltb, ltb→le, Bool-cases, Result-cases, Option-cases,
}
use kairos_deploy.Base.Bytes.{Bytes, bytes_eq, bytes_eq_sound}
use kairos_deploy.Base.Dict.{lookup}
use kairos_deploy.Epoch.Catchup.{max_pending}
use kairos_deploy.Epoch.Outbox.{Redis, LuaError, FlushError, publish, reply_prior}
use kairos_deploy.Epoch.Outbox.Flush.{
  Row, Host, Services, Fault, no_fault, request_lost, reply_lost, update_lost, pending, check_row,
  replied, sent, answer_to, flush_row, flush_rows, flush_records, flush,
}
use kairos_deploy.Epoch.Outbox.Ledger.{lookup_written, publish_kept, flush_rows-good}
use kairos_deploy.Epoch.Outbox.Published.{
  continued, continue-Continued, take_short, unlocked-Unlocked,
}

-- A receipt for the message and the digest.
abbrev pub HasReceipt : Bytes → Bytes → Redis → Type 0
HasReceipt m d redis = (id : Bytes) × (lookup m redis.publications ≡ some (d, id))

reply_prior-digest :
    (digest encoded : Bytes) (p : Bytes × Bytes) (redis : Redis) {receipt : Bytes}
    → reply_prior digest encoded p redis ≡ ok receipt
    → p.0 ≡ digest
unfolding reply_prior
reply_prior-digest digest encoded p redis h = elim (Bool-cases (bytes_eq p.0 digest)) [
  | inl same ↦ bytes_eq_sound p.0 digest same
  | inr other ↦ let h1 = rw other at h in cc
]

publish-HasReceipt :
    (id m d e : Bytes) (redis : Redis) {receipt : Bytes}
    → (publish id m d e redis).0 ≡ ok receipt
    → HasReceipt m d (publish id m d e redis).1
unfolding publish
publish-HasReceipt id m d e redis {receipt} h = elim (Option-cases (lookup m redis.publications)) [
  | inl new ↦ (id, rw new (lookup_written m (d, id) redis.publications))
  | inr (p, prior) ↦
      let same : p.0 ≡ d = reply_prior-digest d e p redis (rw prior at h) in
      (p.1, rw prior (prior ∙ ap (λ (x : Bytes). some (x, p.1)) same))
]

module _ {P : Type 0} (services : Services P) where
  abbrev pub Receipted : List (Row P) → Redis → Type 0
  Receipted [] redis = Unit
  Receipted (row ∷ rows) redis =
      HasReceipt row.message_id (services.digest row.payload) redis × Receipted rows redis

  replied-redis :
      (fault : Fault) (row : Row P) (host : Host P) (r : Result LuaError Bytes) {host' : Host P}
      → replied fault row host r ≡ (ok tt, host')
      → ((receipt : Bytes) × (r ≡ ok receipt)) × (host'.redis ≡ host.redis)
  replied-redis fault row host (err e) h = cc
  replied-redis no_fault row host (ok receipt) h = ((receipt, refl), ground (arith, h))
  replied-redis request_lost row host (ok receipt) h = ((receipt, refl), ground (arith, h))
  replied-redis reply_lost row host (ok receipt) h = ((receipt, refl), ground (arith, h))
  replied-redis update_lost row host (ok receipt) h = ((receipt, refl), ground (arith, h))

  answered :
      (fault : Fault) (row : Row P) (host : Host P) {host' : Host P}
      → sent fault row host (answer_to services row host.redis) ≡ (ok tt, host')
      → HasReceipt row.message_id (services.digest row.payload) host'.redis
  answered request_lost row host h = cc
  answered reply_lost row host h = cc
  answered no_fault row host h =
      let ((receipt, e), same) = replied-redis no_fault row _ _ h in
      subst (HasReceipt row.message_id (services.digest row.payload)) (sym same)
        (publish-HasReceipt _ row.message_id (services.digest row.payload) _ host.redis e)
  answered update_lost row host h =
      let ((receipt, e), same) = replied-redis update_lost row _ _ h in
      subst (HasReceipt row.message_id (services.digest row.payload)) (sym same)
        (publish-HasReceipt _ row.message_id (services.digest row.payload) _ host.redis e)

  flush_row-HasReceipt :
      (fault : Fault) (row : Row P) (host : Host P) {host' : Host P}
      → flush_row services fault row host ≡ (ok tt, host')
      → HasReceipt row.message_id (services.digest row.payload) host'.redis
  unfolding flush_row
  flush_row-HasReceipt fault row host h = elim (Result-cases (check_row services row)) [
    | inl (u, e) ↦ answered fault row host (rw e at h)
    | inr (e, refused) ↦ let h1 = rw refused at h in cc
  ]

  flush_rows_kept :
      (faults : ℕ → Fault) (count : ℕ) (records : List (Row P)) (host : Host P) (m d : Bytes)
      → HasReceipt m d host.redis
      → HasReceipt m d (flush_rows services faults count records host).1.redis
  flush_rows_kept faults count records host m d (id, there) = (
    id,
    flush_rows-good services (λ redis. lookup m redis.publications ≡ some (d, id))
        (λ row redis.
          publish_kept redis row.message_id (services.digest row.payload)
            (services.encoded row.payload) (services.next_id redis.stream) m (d, id))
        faults count records host there,
  )

  flush_rows-Receipted :
      (faults : ℕ → Fault) (count : ℕ) (records : List (Row P)) (host : Host P) {n : ℕ}
      {host' : Host P}
      → flush_rows services faults count records host ≡ (ok n, host')
      → Receipted records host'.redis
  unfolding flush_rows
  flush_rows-Receipted faults count [] host h = tt
  flush_rows-Receipted faults count (row ∷ records) host {n} {host'} h =
      elim (continue-Continued _ (flush_row services (faults count) row host) h) [
        | continued later e h1 ↦ (
          subst
              (λ (x : Result FlushError ℕ × Host P).
                HasReceipt row.message_id (services.digest row.payload) x.1.redis)
              h1
              (flush_rows_kept faults (count + 1) records later row.message_id
                (services.digest row.payload) (flush_row-HasReceipt (faults count) row host e)),
          flush_rows-Receipted faults (count + 1) records later h1,
        )
      ]

  flush_records-Receipted :
      (faults : ℕ → Fault) (host : Host P) {n : ℕ} {host' : Host P}
      → flush_records services faults (take (max_pending + 1) (pending host.rows)) host
        ≡ (ok n, host')
      → Receipted (pending host.rows) host'.redis
  flush_records-Receipted faults host {n} {host'} h =
      elim (Bool-cases (ltb max_pending (length (take (max_pending + 1) (pending host.rows))))) [
        | inl many ↦ let h1 = rw many at h in cc
        | inr few ↦
            let whole : take (max_pending + 1) (pending host.rows) ≡ pending host.rows =
              take_short max_pending (pending host.rows)
                (ltb→le max_pending (length (take (max_pending + 1) (pending host.rows))) few) in
            let h1 : flush_rows services faults 0 (take (max_pending + 1) (pending host.rows)) host
                ≡ (ok n, host') =
              rw few at h in
            flush_rows-Receipted faults 0 (pending host.rows) host (rw whole at h1)
      ]

  -- Behind a flush that returns, the ledger has a receipt for every row that was pending, with the
  -- digest of its payload.
  pub flush-Receipted :
      (faults : ℕ → Fault) (host : Host P) {n : ℕ} {host' : Host P}
      → flush services faults host ≡ (ok n, host')
      → Receipted (pending host.rows) host'.redis
  unfolding flush
  flush-Receipted faults host {n} {host'} h = elim (Bool-cases host.lock_held) [
    | inl busy ↦ let h1 = rw busy at h in cc
    | inr free ↦
        let run =
          flush_records services faults (take (max_pending + 1) (pending host.rows))
            (record host { lock_held = true }) in
        let u = unlocked-Unlocked run (rw free at h) in
        rw u.same_redis
          (flush_records-Receipted faults (record host { lock_held = true }) u.returned)
  ]
