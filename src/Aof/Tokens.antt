-- ===== src/Aof/Tokens.antt =====
-- The checks of single tokens and of the `XGROUP` and `XCLAIM` arguments in
-- scripts/runtime_epoch_redis_aof.py.
use kairos_deploy.Base.{
  ◌≡◌, ap, ◌∙◌, inl, inr, Bool-cases, &&_true, bound, >>=-Bound, ok-injective, ℕ, suc, ◌-◌, ◌^◌,
  Bool, true, false, not, ◌&&◌, ◌||◌, Option, none, some, List, [], ◌∷◌, ok, err, ◌>>=◌, ◌>>◌,
  raise_if, length, ltb, leb, ◌==◌, if◌then◌else◌,
}
use kairos_deploy.Base.Bytes.{
  Bytes, codes, bytes_eq, bytes_eq_sound, is_ascii, all_digits, number, is_canonical_number,
  split_dash, is_consumer, upper,
}
use kairos_deploy.Aof.Codes.{
  Checked, stream_id_invalid, malformed_or_truncated, unknown_command_or_key,
  consumer_identity_invalid, topic, group,
}
use kairos_deploy.Aof.Codes.{AofError}

-- `ms`, `seq` and the dash between them, within 64 bits each and not both zero.
stream_id_parts : Bytes → Bytes → Bool → Bool
stream_id_parts ms seq allow_zero =
    is_canonical_number ms
    && is_canonical_number seq
    && leb (length ms) 20
    && leb (length seq) 20
    && leb (number ms) (2 ^ 64 - 1)
    && leb (number seq) (2 ^ 64 - 1)
    && not (number ms == 0 && number seq == 0 && not allow_zero)

-- `_stream_id`: every refusal carries the same code.
unfoldable pub stream_id : Bytes → Bool → Checked Bytes
unfolding stream_id_parts
stream_id value allow_zero =
    if not (is_ascii value) then err stream_id_invalid else elim (split_dash value) [
      | none ↦ err stream_id_invalid
      | some p ↦ if stream_id_parts p.0 p.1 allow_zero then ok value else err stream_id_invalid
    ]

-- `_unsigned`
unfoldable pub unsigned : Bytes → ℕ → AofError → Checked ℕ
unsigned value maximum code =
    if length value == 0 || ltb 20 (length value) || not (all_digits value)
    then err malformed_or_truncated
    else if ltb maximum (number value)
    then err code
    else ok (number value)

pub data GroupCommand : Type 0 where
  create setid : GroupCommand

-- The identifier that both forms of `XGROUP` name.
group_id : Bytes → GroupCommand → Checked GroupCommand
group_id sid form =
    if bytes_eq sid (codes "$") || bytes_eq sid (codes "0")
    then ok form
    else stream_id sid true >> ok form

-- The shape of the arguments behind `XGROUP`, by their number.
group_form : List Bytes → Checked GroupCommand
group_form (op ∷ key ∷ grp ∷ sid ∷ []) = err unknown_command_or_key
group_form (op ∷ key ∷ grp ∷ sid ∷ a ∷ []) =
    if bytes_eq op (codes "CREATE") && bytes_eq a (codes "MKSTREAM")
    then ok create
    else err unknown_command_or_key
group_form (op ∷ key ∷ grp ∷ sid ∷ a ∷ b ∷ []) =
    if bytes_eq op (codes "SETID") && bytes_eq a (codes "ENTRIESREAD")
    then unsigned b (2 ^ 63 - 1) malformed_or_truncated >> ok setid
    else err unknown_command_or_key
group_form _ = err unknown_command_or_key

-- `_valid_group_args`
unfoldable pub valid_group_args : List Bytes → Checked GroupCommand
unfolding group_id group_form
valid_group_args (op ∷ key ∷ grp ∷ sid ∷ more) =
    if not (bytes_eq key topic) || not (bytes_eq grp group)
    then err unknown_command_or_key
    else group_form (op ∷ key ∷ grp ∷ sid ∷ more) >>= group_id sid
valid_group_args _ = err unknown_command_or_key

-- The operation that a form stands for.
abbrev pub op_of : GroupCommand → Bytes
op_of create = codes "CREATE"
op_of setid = codes "SETID"

group_form-op :
    (op key grp sid : Bytes) (more : List Bytes) (form : GroupCommand)
    → group_form (op ∷ key ∷ grp ∷ sid ∷ more) ≡ ok form
    → op ≡ op_of form
unfolding group_form
group_form-op op key grp sid [] form h = cc
group_form-op op key grp sid (a ∷ []) form h =
    elim (Bool-cases (bytes_eq op (codes "CREATE") && bytes_eq a (codes "MKSTREAM"))) [
      | inl both ↦
          bytes_eq_sound op (codes "CREATE") (&&_true _ _ both).0
          ∙ ap op_of (ok-injective (rw both at h))
      | inr other ↦ cc (rw other at h)
    ]
group_form-op op key grp sid (a ∷ b ∷ []) form h =
    elim (Bool-cases (bytes_eq op (codes "SETID") && bytes_eq a (codes "ENTRIESREAD"))) [
      | inl both ↦
          elim (>>=-Bound (unsigned b (2 ^ 63 - 1) malformed_or_truncated) _ (rw both at h)) [
            | bound _ _ h1 ↦
                bytes_eq_sound op (codes "SETID") (&&_true _ _ both).0 ∙ ap op_of (ok-injective h1)
          ]
      | inr other ↦ cc (rw other at h)
    ]
group_form-op op key grp sid (a ∷ b ∷ c ∷ more) form h = cc

group_id-same :
    (sid : Bytes) (form form' : GroupCommand) → group_id sid form ≡ ok form' → form ≡ form'
unfolding group_id
group_id-same sid form form' h =
    elim (Bool-cases (bytes_eq sid (codes "$") || bytes_eq sid (codes "0"))) [
      | inl fixed ↦ ok-injective (rw fixed at h)
      | inr other ↦ elim (>>=-Bound (stream_id sid true) _ (rw other at h)) [
        | bound _ _ h1 ↦ ok-injective h1
      ]
    ]

-- Arguments of `XGROUP` that are accepted begin with the operation of their form.
pub valid_group_args-op :
    (args : List Bytes) (form : GroupCommand)
    → valid_group_args args ≡ ok form
    → (more : List Bytes) × (args ≡ op_of form ∷ more)
unfolding valid_group_args
valid_group_args-op (op ∷ key ∷ grp ∷ sid ∷ more) form h =
    elim (Bool-cases (not (bytes_eq key topic) || not (bytes_eq grp group))) [
      | inl other ↦ cc (rw (other, valid_group_args) at h)
      | inr exact ↦
          elim (>>=-Bound (group_form (op ∷ key ∷ grp ∷ sid ∷ more)) (group_id sid)
            (rw (exact, valid_group_args) at h)) [
              | bound form' e h1 ↦ (
                key ∷ grp ∷ sid ∷ more,
                ap (λ (x : Bytes). x ∷ key ∷ grp ∷ sid ∷ more)
                    (group_form-op op key grp sid more form' e
                      ∙ ap op_of (group_id-same sid form' form h1)),
              )
            ]
    ]
valid_group_args-op _ form h = cc

-- The options of `XCLAIM`, in the order in which they may stand.
pub data ClaimOption : Type 0 where
  time retrycount force justid lastid : ClaimOption

-- `options`, as a lookup by name.
claim_option : Bytes → Option ClaimOption
claim_option name =
    if bytes_eq name (codes "TIME")
    then some time
    else if bytes_eq name (codes "RETRYCOUNT")
    then some retrycount
    else if bytes_eq name (codes "FORCE")
    then some force
    else if bytes_eq name (codes "JUSTID")
    then some justid
    else if bytes_eq name (codes "LASTID")
    then some lastid
    else none

-- `option_order`, counted from 1 so that 0 stands for the source's initial -1.
claim_order : ClaimOption → ℕ
claim_order time = 1
claim_order retrycount = 2
claim_order force = 3
claim_order justid = 4
claim_order lastid = 5

takes_value : ClaimOption → Bool
takes_value force = false
takes_value justid = false
takes_value _ = true

claim_value : ClaimOption → Bytes → Checked (Unit {0})
claim_value lastid value = stream_id value true >> ok tt
claim_value _ value = unsigned value (2 ^ 63 - 1) malformed_or_truncated >> ok tt

-- The second loop of `_valid_claim`, on the arguments from `i` on.
unfoldable pub claim_options : ℕ → List Bytes → Checked (Unit {0})
unfolding claim_option claim_order takes_value claim_value
claim_options last [] = ok tt
claim_options last (opt ∷ []) = elim (claim_option (upper opt)) [
  | none ↦ err unknown_command_or_key
  | some o ↦ if leb (claim_order o) last || takes_value o then err malformed_or_truncated else ok tt
]
claim_options last (opt ∷ value ∷ more) = elim (claim_option (upper opt)) [
  | none ↦ err unknown_command_or_key
  | some o ↦ raise_if (leb (claim_order o) last) malformed_or_truncated >> elim (takes_value o) [
    | false ↦ claim_options (claim_order o) (value ∷ more)
    | true ↦ claim_value o value >> claim_options (claim_order o) more
  ]
]

-- The first loop of `_valid_claim`; `ids` counts the identifiers read so far.
unfoldable pub claim_ids : ℕ → List Bytes → Checked (Unit {0})
unfolding claim_option
claim_ids ids [] = raise_if (ids == 0) malformed_or_truncated
claim_ids ids (arg ∷ rest) = elim (claim_option (upper arg)) [
  | none ↦ stream_id arg false >> claim_ids (suc ids) rest
  | some o ↦ raise_if (ids == 0) malformed_or_truncated >> claim_options 0 (arg ∷ rest)
]

-- `_valid_claim`
unfoldable pub valid_claim : List Bytes → Checked (Unit {0})
valid_claim (key ∷ grp ∷ consumer ∷ idle ∷ first ∷ more) =
    if not (bytes_eq key topic) || not (bytes_eq grp group)
    then err unknown_command_or_key
    else raise_if (not (is_ascii consumer)) malformed_or_truncated
      >> raise_if (not (is_consumer consumer)) consumer_identity_invalid
      >> unsigned idle (2 ^ 63 - 1) malformed_or_truncated
      >> claim_ids 0 (first ∷ more)
valid_claim _ = err unknown_command_or_key
