-- ===== src/Epoch/Outbox/Ledger.antt =====
-- The ledger that `PUBLICATION_LUA` keeps in Redis, whatever `flush` of scripts/runtime_epoch_worker.py
-- loses on the way.
use kairos_deploy.Base.{
  ℕ, suc, ◌+◌, ◌≡◌, refl, sym, ap, ◌∙◌, inl, inr, none, some, List, [], ◌∷◌, arith, Result, ok, err,
  length, length-append, take, ltb, Bool-cases, Result-cases, Option-cases,
}
use kairos_deploy.Base.Bytes.{Bytes, codes, bytes_eq, bytes_eq_sound, bytes_eq_refl}
use kairos_deploy.Base.Dict.{Dict, lookup, insert, insert_new, lookup-insert}
use kairos_deploy.Epoch.Catchup.{max_pending}
use kairos_deploy.Epoch.Outbox.{Redis, LuaError, FlushError, publish, published, is_receipt}
use kairos_deploy.Epoch.Outbox.Flush.{
  Row, Host, Services, Fault, no_fault, request_lost, reply_lost, update_lost, pending, check_row,
  replied, sent, answer_to, flush_row, continue, flush_rows, flush,
}

-- One entry for each message: each has an entry of its own, with one field, and there are no others.
pub record IsExactlyOnce (redis : Redis) : Type 0 where
  pub one_each : length redis.stream ≡ length redis.publications
  pub held :
      (m d i : Bytes)
      → lookup m redis.publications ≡ some (d, i)
      → (e : Bytes) × (lookup i redis.stream ≡ some ((codes "data", e) ∷ []))
  pub apart :
      (m m' d d' i : Bytes)
      → lookup m redis.publications ≡ some (d, i)
      → lookup m' redis.publications ≡ some (d', i)
      → m ≡ m'

module _ {V : Type 0} where
  length-insert :
      (k : Bytes) (v : V) (d : Dict V) → lookup k d ≡ none → length (insert k v d) ≡ suc (length d)
  length-insert k v d h =
      ap length (insert_new k v d h) ∙ (length-append d ((k, v) ∷ []) ∙ omega arith)

  -- A value that is found after a write is the new one, or was found before.
  data Found (k j : Bytes) (v w : V) (d : Dict V) : Type 0 where
    written : k ≡ j → v ≡ w → Found k j v w d
    before : lookup j d ≡ some w → Found k j v w d

  insert-Found :
      (k j : Bytes) (v w : V) (d : Dict V) → lookup j (insert k v d) ≡ some w → Found k j v w d
  insert-Found k j v w d h = elim (Bool-cases (bytes_eq k j)) [
    | inl same ↦
        let e = sym (lookup-insert k j v d) ∙ h in
        let e1 = rw same at e in written (bytes_eq_sound k j same) cc
    | inr other ↦ let e = sym (lookup-insert k j v d) ∙ h in before (rw other at e)
  ]

  pub lookup_written : (k : Bytes) (v : V) (d : Dict V) → lookup k (insert k v d) ≡ some v
  lookup_written k v d = lookup-insert k k v d ∙ rw (bytes_eq_refl k) refl

  -- A write under a new key keeps what was found.
  insert_kept :
      (k j : Bytes) (v w : V) (d : Dict V)
      → lookup k d ≡ none
      → lookup j d ≡ some w
      → lookup j (insert k v d) ≡ some w
  insert_kept k j v w d new h = elim (Bool-cases (bytes_eq k j)) [
    | inl same ↦
        let k_is_j : k ≡ j = bytes_eq_sound k j same in let h1 = rw (← k_is_j) at h in absurd cc
    | inr other ↦ lookup-insert k j v d ∙ rw other h
  ]

module _ (redis : Redis) (message_id digest encoded id : Bytes)
    (new : lookup message_id redis.publications ≡ none) (fresh : lookup id redis.stream ≡ none)
    (once : IsExactlyOnce redis) where
  held_after :
      (m d i : Bytes)
      → lookup m (insert message_id (digest, id) redis.publications) ≡ some (d, i)
      → (e : Bytes) × (lookup i (insert id ((codes "data", encoded) ∷ []) redis.stream)
          ≡ some ((codes "data", e) ∷ []))
  held_after m d i h = elim (insert-Found message_id m (digest, id) (d, i) redis.publications h) [
    | written _ e ↦
        let id_is_i : id ≡ i = ap (λ (p : Bytes × Bytes). p.1) e in
        (encoded, rw (← id_is_i) (lookup_written id ((codes "data", encoded) ∷ []) redis.stream))
    | before b ↦
        let (e, there) = once.held m d i b in
        (
          e,
          insert_kept id i ((codes "data", encoded) ∷ []) ((codes "data", e) ∷ []) redis.stream
              fresh there,
        )
  ]

  -- No message had the fresh id.
  new_id : (m d : Bytes) → lookup m redis.publications ≡ some (d, id) → ⊥
  new_id m d b = let (e, there) = once.held m d id b in cc

  apart_after :
      (m m' d d' i : Bytes)
      → lookup m (insert message_id (digest, id) redis.publications) ≡ some (d, i)
      → lookup m' (insert message_id (digest, id) redis.publications) ≡ some (d', i)
      → m ≡ m'
  apart_after m m' d d' i h h' =
      elim (insert-Found message_id m (digest, id) (d, i) redis.publications h) [
        | written at_m e ↦
            let id_is_i : id ≡ i = ap (λ (p : Bytes × Bytes). p.1) e in
            elim (insert-Found message_id m' (digest, id) (d', i) redis.publications h') [
              | written at_m' _ ↦ sym at_m ∙ at_m'
              | before b' ↦ absurd (new_id m' d' (rw (← id_is_i) at b'))
            ]
        | before b ↦ elim (insert-Found message_id m' (digest, id) (d', i) redis.publications h') [
          | written _ e ↦
              let id_is_i : id ≡ i = ap (λ (p : Bytes × Bytes). p.1) e in
              absurd (new_id m d (rw (← id_is_i) at b))
          | before b' ↦ once.apart m m' d d' i b b'
        ]
      ]

  published-IsExactlyOnce : IsExactlyOnce (published message_id digest encoded id redis)
  published-IsExactlyOnce = record {
    one_each =
        length-insert id ((codes "data", encoded) ∷ []) redis.stream fresh
        ∙ (ap (λ (n : ℕ). suc n) once.one_each
            ∙ sym (length-insert message_id (digest, id) redis.publications new));
    held = held_after;
    apart = apart_after;
  }

publish-IsExactlyOnce :
    (redis : Redis) (message_id digest encoded id : Bytes)
    → lookup id redis.stream ≡ none
    → IsExactlyOnce redis
    → IsExactlyOnce (publish id message_id digest encoded redis).1
unfolding publish
publish-IsExactlyOnce redis message_id digest encoded id fresh once =
    elim (Option-cases (lookup message_id redis.publications)) [
      | inl new ↦ rw new (published-IsExactlyOnce redis message_id digest encoded id new fresh once)
      | inr (p, prior) ↦ rw prior once
    ]

-- A receipt is never changed.
pub publish_kept :
    (redis : Redis) (message_id digest encoded id m : Bytes) (v : Bytes × Bytes)
    → lookup m redis.publications ≡ some v
    → lookup m (publish id message_id digest encoded redis).1.publications ≡ some v
unfolding publish
publish_kept redis message_id digest encoded id m v h =
    elim (Option-cases (lookup message_id redis.publications)) [
      | inl new ↦ rw new (insert_kept message_id m (digest, id) v redis.publications new h)
      | inr (p, prior) ↦ rw prior h
    ]

-- A property of Redis that each answer keeps holds after a flush, too.
module _ {P : Type 0} (services : Services P) (Good : Redis → Type 0)
    (step : (row : Row P) (redis : Redis)
      → Good redis
      → Good (answer_to services row redis).1) where
  replied-good :
      (fault : Fault) (row : Row P) (host : Host P) (r : Result LuaError Bytes)
      → Good host.redis
      → Good (replied fault row host r).1.redis
  replied-good no_fault row host (err e) g = g
  replied-good request_lost row host (err e) g = g
  replied-good reply_lost row host (err e) g = g
  replied-good update_lost row host (err e) g = g
  replied-good no_fault row host (ok receipt) g = elim (Bool-cases (is_receipt receipt)) [
    | inl y ↦ rw y g
    | inr n ↦ rw n g
  ]
  replied-good request_lost row host (ok receipt) g = elim (Bool-cases (is_receipt receipt)) [
    | inl y ↦ rw y g
    | inr n ↦ rw n g
  ]
  replied-good reply_lost row host (ok receipt) g = elim (Bool-cases (is_receipt receipt)) [
    | inl y ↦ rw y g
    | inr n ↦ rw n g
  ]
  replied-good update_lost row host (ok receipt) g = elim (Bool-cases (is_receipt receipt)) [
    | inl y ↦ rw y g
    | inr n ↦ rw n g
  ]

  sent-good :
      (fault : Fault) (row : Row P) (host : Host P)
      → Good host.redis
      → Good (sent fault row host (answer_to services row host.redis)).1.redis
  sent-good no_fault row host g = replied-good no_fault row _ _ (step row host.redis g)
  sent-good request_lost row host g = g
  sent-good reply_lost row host g = step row host.redis g
  sent-good update_lost row host g = replied-good update_lost row _ _ (step row host.redis g)

  flush_row-good :
      (fault : Fault) (row : Row P) (host : Host P)
      → Good host.redis
      → Good (flush_row services fault row host).1.redis
  unfolding flush_row
  flush_row-good fault row host g = elim (Result-cases (check_row services row)) [
    | inl (u, e) ↦ rw e (sent-good fault row host g)
    | inr (e, refused) ↦ rw refused g
  ]

  continue-good :
      (next : Host P → Result FlushError ℕ × Host P) (out : Result FlushError (Unit {0}) × Host P)
      → ((later : Host P) → Good later.redis → Good (next later).1.redis)
      → Good out.1.redis
      → Good (continue next out).1.redis
  continue-good next (ok u, later) go g = go later g
  continue-good next (err e, later) go g = g

  pub flush_rows-good :
      (faults : ℕ → Fault) (count : ℕ) (records : List (Row P)) (host : Host P)
      → Good host.redis
      → Good (flush_rows services faults count records host).1.redis
  unfolding flush_rows
  flush_rows-good faults count [] host g = g
  flush_rows-good faults count (row ∷ records) host g =
      continue-good _ (flush_row services (faults count) row host)
        (λ later. flush_rows-good faults (count + 1) records later)
        (flush_row-good (faults count) row host g)

  flush-good :
      (faults : ℕ → Fault) (host : Host P)
      → Good host.redis
      → Good (flush services faults host).1.redis
  unfolding flush
  flush-good faults host g = elim (Bool-cases host.lock_held) [
    | inl busy ↦ rw busy g
    | inr free ↦
        rw free
          (elim (Bool-cases
            (ltb max_pending (length (take (max_pending + 1) (pending host.rows))))) [
              | inl many ↦ rw many g
              | inr few ↦ rw few (flush_rows-good faults 0 _ _ g)
            ])
  ]

-- The dispatcher runs after each other, each with losses of its own.
abbrev pub flushes : {P : Type 0} → Services P → List (ℕ → Fault) → Host P → Host P
flushes services [] host = host
flushes services (faults ∷ later) host = flushes services later (flush services faults host).1

-- Whatever is lost, and however often the dispatcher runs again, Redis keeps one stream entry for each
-- message on its ledger, with one `data` field, and no others, if the ids that it gives are fresh.
pub flushes-IsExactlyOnce :
    {P : Type 0} (services : Services P)
    → ((stream : Dict (Dict Bytes)) → lookup (services.next_id stream) stream ≡ none)
    → (runs : List (ℕ → Fault)) (host : Host P) → IsExactlyOnce host.redis
    → IsExactlyOnce (flushes services runs host).redis
flushes-IsExactlyOnce services fresh [] host once = once
flushes-IsExactlyOnce services fresh (faults ∷ runs) host once =
    flushes-IsExactlyOnce services fresh runs (flush services faults host).1 (
      flush-good services IsExactlyOnce
        (λ row redis.
          publish-IsExactlyOnce redis row.message_id (services.digest row.payload)
            (services.encoded row.payload) (services.next_id redis.stream) (fresh redis.stream))
        faults host once)

-- A receipt on the ledger stays as it is, whatever is lost in later runs.
pub flushes_kept :
    {P : Type 0} (services : Services P) (runs : List (ℕ → Fault)) (host : Host P) (m : Bytes)
    (v : Bytes × Bytes)
    → lookup m host.redis.publications ≡ some v
    → lookup m (flushes services runs host).redis.publications ≡ some v
flushes_kept services [] host m v h = h
flushes_kept services (faults ∷ runs) host m v h =
    flushes_kept services runs (flush services faults host).1 m v (
      flush-good services (λ redis. lookup m redis.publications ≡ some v)
        (λ row redis.
          publish_kept redis row.message_id (services.digest row.payload)
            (services.encoded row.payload) (services.next_id redis.stream) m v)
        faults host h)
