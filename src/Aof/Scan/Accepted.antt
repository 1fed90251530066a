-- ===== src/Aof/Scan/Accepted.antt =====
-- What an accepted `XADD` and an accepted `HSET` of scripts/runtime_epoch_redis_aof.py look like.
use kairos_deploy.Base.{
  ◌≡◌, refl, sym, ap, ◌∙◌, ◌⊎◌, ok-injective, inl, inr, Bool, true, false, not, ◌||◌, none, some,
  List, [], ◌∷◌, arith, ok, bound, >>=-Bound, passed, raise_if-Passed, Bool-cases, Option-cases,
  ◌++◌,
}
use kairos_deploy.Base.Bytes.{Bytes, codes, bytes_eq, bytes_eq_sound, is_ascii, is_hex64, lower}
use kairos_deploy.Base.Dict.{lookup}
use kairos_deploy.Base.Sets.{Two, contains, two_beq, two_beq_sound, two_eq_instance}
use kairos_deploy.Aof.Codes.{topic, unknown_command_or_key}
use kairos_deploy.Aof.Tokens.{stream_id}
use kairos_deploy.Aof.Commands.{Python}
use kairos_deploy.Aof.Scan.{Scan, added, on_xadd, recorded, record_receipt, receipt_pair, on_hset}

-- An identifier that is accepted is returned as it is.
stream_id-same :
    (value : Bytes) (zero : Bool) {sid : Bytes} → stream_id value zero ≡ ok sid → sid ≡ value
unfolding stream_id
stream_id-same value zero h = ground arith

pub record AcceptedXadd (py : Python) (args : List Bytes) (s s' : Scan) : Type 0 where
  pub sid : Bytes
  pub payload : Bytes
  pub form : args ≡ topic ∷ sid ∷ codes "data" ∷ payload ∷ []
  pub fresh : lookup sid s.stream_receipts ≡ none
  pub result : s' ≡ added sid (py.sha256 payload) s

pub on_xadd-accepted :
    (py : Python) (args : List Bytes) (s : Scan) {s' : Scan}
    → on_xadd py args s ≡ ok s'
    → AcceptedXadd py args s s'
unfolding on_xadd
on_xadd-accepted py (key ∷ id ∷ field ∷ payload ∷ []) s {s'} h =
    elim (raise_if-Passed (not (bytes_eq key topic) || not (bytes_eq field (codes "data")))
      unknown_command_or_key _ h) [
        | passed exact h1 ↦ elim (>>=-Bound (stream_id id false) _ h1) [
          | bound sid valid h2 ↦ elim (Option-cases (lookup sid s.stream_receipts)) [
            | inr (old, reused) ↦ cc (rw reused at h2)
            | inl fresh ↦
                let key_eq : key ≡ topic = bytes_eq_sound key topic (ground arith) in
                let field_eq : field ≡ codes "data" =
                  bytes_eq_sound field (codes "data") (ground arith) in
                let id_eq : sid ≡ id = stream_id-same id false valid in
                record {
                  sid = sid;
                  payload = payload;
                  form = rw (key_eq, field_eq, id_eq) refl;
                  fresh = fresh;
                  result = sym (ok-injective (rw fresh at h2));
                }
          ]
        ]
      ]
on_xadd-accepted py _ s h = cc

pub record AcceptedHset (s s' : Scan) : Type 0 where
  pub message_id : Bytes
  pub pair : Two
  pub inside : s.in_multi ≡ true
  pub in_transaction : contains pair s.transaction_streams ≡ true
  pub appended : contains pair s.xadd_receipts ≡ true
  pub result : record_receipt message_id pair s ≡ ok s'

pub on_hset-accepted :
    (py : Python) (exact_key : Bytes) (args : List Bytes) (s : Scan) {s' : Scan}
    → on_hset py exact_key args s ≡ ok s'
    → AcceptedHset s s'
unfolding on_hset
on_hset-accepted py exact_key (key ∷ field ∷ value ∷ []) s {s'} h =
    elim (raise_if-Passed (not s.in_multi) _ _ h) [
      | passed inside h1 ↦ elim (raise_if-Passed (not (bytes_eq key exact_key)) _ _ h1) [
        | passed _ h2 ↦ elim (raise_if-Passed (not (is_ascii field)) _ _ h2) [
          | passed _ h3 ↦ elim (raise_if-Passed (not (is_hex64 field)) _ _ h3) [
            | passed _ h4 ↦ elim (>>=-Bound (receipt_pair py value) _ h4) [
              | bound pair decoded h5 ↦
                  elim (raise_if-Passed
                    (not (contains pair s.transaction_streams)
                      || not (contains pair s.xadd_receipts))
                    _ _ h5) [
                      | passed known done ↦ record {
                        message_id = lower field;
                        pair = pair;
                        inside = ground arith;
                        in_transaction = ground arith;
                        appended = ground arith;
                        result = done;
                      }
                    ]
            ]
          ]
        ]
      ]
    ]
on_hset-accepted py exact_key _ s h = ground arith

-- A receipt is new, or it is the one that the message has already.
pub record_receipt-cases :
    (message_id : Bytes) (pair : Two) (s : Scan) {s' : Scan}
    → record_receipt message_id pair s ≡ ok s'
    → ((lookup message_id s.receipt_fields ≡ none)
        × (s' ≡ recorded message_id pair (s.publication_ids ++ message_id ∷ []) s))
      ⊎ ((lookup message_id s.receipt_fields ≡ some pair)
          × (s' ≡ recorded message_id pair s.publication_ids s))
unfolding record_receipt
record_receipt-cases message_id pair s h =
    elim (Option-cases (lookup message_id s.receipt_fields)) [
      | inl fresh ↦ inl (fresh, sym (ok-injective (rw (fresh, record_receipt) at h)))
      | inr (old, there) ↦ elim (Bool-cases (two_beq old pair)) [
        | inr rewritten ↦ cc (rw rewritten at (rw (there, record_receipt) at h))
        | inl same ↦ inr (
          there ∙ ap some (two_beq_sound old pair same),
          sym (ok-injective (rw same at (rw (there, record_receipt) at h))),
        )
      ]
    ]
