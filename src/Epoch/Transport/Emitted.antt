-- ===== src/Epoch/Transport/Emitted.antt =====
-- What the reading of rows in scripts/runtime_epoch_worker.py may end with: what holds of its errors
-- holds of every end.
use kairos_deploy.Base.{
  some-injective, ℕ, ◌≡◌, ap, subst, inl, inr, Option, none, some, List, [], ◌∷◌, Bool, true,
  Result, ok, err, Option-cases,
}
use kairos_deploy.Base.Bytes.{Bytes}
use kairos_deploy.Base.Dict.{Dict}
use kairos_deploy.Epoch.Transport.{
  Row, Envelope, End, pending_payload_missing, undecodable_payload, data_field, decoded, payload_of,
  with_row, emit, emit_claimed, joined,
}

module _ {P : Type 0} (loads : Bytes → Option P) (C : End → Type 0)
    (undecodable : C undecodable_payload) where
  payload_of_ends :
      (missing : End) (fields : Dict Bytes) {e : End}
      → C missing
      → payload_of loads missing fields ≡ err e
      → C e
  unfolding payload_of
  payload_of_ends missing fields {e} c h = elim (Option-cases (data_field fields)) [
    | inl absent ↦ let same : missing ≡ e = cc (rw (absent, payload_of) at h) in subst C same c
    | inr (text, present) ↦ elim (Option-cases (loads text)) [
      | inl bad ↦
          let h1 = rw (present, payload_of) at h in
          let same : undecodable_payload ≡ e = cc (rw (bad, decoded) at h1) in
          subst C same undecodable
      | inr (payload, good) ↦
          let h1 = rw (present, payload_of) at h in let h2 = rw (good, decoded) at h1 in cc
    ]
  ]

  with_row_ends :
      (attempt : Option ℕ) (was_claimed : Bool) (id : Bytes) (p : Result End P)
      (rest : List (Envelope P) × Option End) {e : End}
      → ((e : End) → p ≡ err e → C e)
      → ((e : End) → rest.1 ≡ some e → C e)
      → (with_row attempt was_claimed id p rest).1 ≡ some e
      → C e
  with_row_ends attempt was_claimed id (err bad) rest {e} c d h = c e (ap err (some-injective h))
  with_row_ends attempt was_claimed id (ok payload) rest {e} c d h = d e h

  pub emit_ends :
      (missing : End) (attempt : Option ℕ) (was_claimed : Bool) (rows : List Row) {e : End}
      → C missing
      → (emit loads missing attempt was_claimed rows).1 ≡ some e
      → C e
  unfolding emit
  emit_ends missing attempt was_claimed [] c h = cc
  emit_ends missing attempt was_claimed (row ∷ rows) c h =
      with_row_ends attempt was_claimed row.0 (payload_of loads missing row.1)
        (emit loads missing attempt was_claimed rows) (λ e k. payload_of_ends missing row.1 c k)
        (λ e k. emit_ends missing attempt was_claimed rows c k) h

  joined_ends :
      (first rest : List (Envelope P) × Option End) {e : End}
      → ((e : End) → first.1 ≡ some e → C e)
      → ((e : End) → rest.1 ≡ some e → C e)
      → (joined first rest).1 ≡ some e
      → C e
  joined_ends (emitted, some bad) rest {e} c d h = c e h
  joined_ends (emitted, none) rest {e} c d h = d e h

  pub emit_claimed_ends :
      (claims : List (Row × ℕ)) {e : End}
      → C pending_payload_missing
      → (emit_claimed loads claims).1 ≡ some e
      → C e
  unfolding emit_claimed
  emit_claimed_ends [] absent h = cc
  emit_claimed_ends (claim ∷ claims) absent h =
      joined_ends (emit loads pending_payload_missing (some claim.1) true (claim.0 ∷ []))
        (emit_claimed loads claims)
        (λ e k. emit_ends pending_payload_missing (some claim.1) true (claim.0 ∷ []) absent k)
        (λ e k. emit_claimed_ends claims absent k) h
