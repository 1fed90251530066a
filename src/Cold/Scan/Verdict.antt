-- ===== src/Cold/Scan/Verdict.antt =====
-- What the scan of `_inspect_stream` in scripts/cold_redis_acceptance.py says of the stream that Redis
-- holds.
use kairos_deploy.Base.{
  ℕ, ◌≤◌, ◌<◌, ◌≡◌, refl, sym, subst, ap, ◌∙◌, arith, inl, inr, List, [], ◌∷◌, ◌++◌, false,
  Bool-cases, ok, length, length-append, take, take-length_append, ltb, ltb→lt, ltb→le, ◌==◌,
  ==_iff, append-nil, if◌then◌else◌,
}
use kairos_deploy.Base.Bytes.{Bytes}
use kairos_deploy.Cold.Resp.{Reply}
use kairos_deploy.Cold.Scan.{
  max_xrange_entries, Checked, Probe, Scan, scan_start, State, conflict, positive_accepted,
  inconclusive_zero_match, inconclusive_scan_limit, state_of, inspect,
}
use kairos_deploy.Cold.Scan.Walk.{Entry, AreReadable, IsXrange, hits, hits-append, IsAt}
use kairos_deploy.Cold.Scan.Loop.{IsFinal, Finishes, scan_with-Finishes}

module _ {P : Type 0} (probe : Probe P) where
  -- What a state says of a stream.
  abbrev pub IsVerdict : List Entry → State → Type 0
  IsVerdict stream conflict = 1 < length (hits probe stream)
  IsVerdict stream positive_accepted = length (hits probe stream) ≡ 1
  IsVerdict stream inconclusive_zero_match = hits probe stream ≡ []
  IsVerdict stream inconclusive_scan_limit =
      (max_xrange_entries ≤ length stream)
      × (length (hits probe (take max_xrange_entries stream)) ≤ 1)

  hits_in_parts :
      (stream : List Entry) (s : Scan) (f : IsFinal probe stream s)
      → hits probe stream ≡ s.matches ++ hits probe f.rest
  hits_in_parts stream s f =
      ap (λ es. hits probe es) f.parts
      ∙ hits-append probe f.past f.rest
      ∙ ap (λ xs. xs ++ hits probe f.rest) (sym f.found)

  no_length : (xs : List Bytes) → length xs ≤ 1 → (length xs == 1) ≡ false → xs ≡ []
  no_length [] h other = refl
  no_length (x ∷ xs) h other = absurd (ground arith)

  -- The whole stream was scanned.
  whole-IsVerdict :
      (stream : List Entry) (matches : List Bytes)
      → hits probe stream ≡ matches
      → length matches ≤ 1
      → IsVerdict stream
          (if length matches == 1 then positive_accepted else inconclusive_zero_match)
  whole-IsVerdict stream matches same few = elim (Bool-cases (length matches == 1)) [
    | inl one ↦ rw one (ap (λ xs. length xs) same ∙ (==_iff (length matches) 1).0 one)
    | inr other ↦ rw other (same ∙ no_length matches few other)
  ]

  -- The limit was reached.
  limit-IsVerdict :
      (past rest stream : List Entry)
      → stream ≡ past ++ rest
      → length past ≡ max_xrange_entries
      → length (hits probe past) ≤ 1
      → IsVerdict stream inconclusive_scan_limit
  limit-IsVerdict past rest stream parts full few =
      let first : take (length past) stream ≡ past = rw parts (take-length_append past rest) in
      (
        omega (arith, full, ap (λ xs. length xs) parts, length-append past rest),
        subst (λ n. length (hits probe (take n stream)) ≤ 1) full
            (subst (λ xs. length (hits probe xs) ≤ 1) (sym first) few),
      )

  state_of-IsVerdict :
      (stream : List Entry) (s : Scan) → IsFinal probe stream s → IsVerdict stream (state_of s)
  unfolding state_of
  state_of-IsVerdict stream s f =
      let all_of = hits_in_parts stream s f in
      elim (Bool-cases (ltb 1 (length s.matches))) [
        | inl two ↦ rw two (
            omega (
              arith,
              ltb→lt 1 (length s.matches) two,
              ap (λ xs. length xs) all_of,
              length-append s.matches (hits probe f.rest),
            ))
        | inr few ↦
            let most = ltb→le 1 (length s.matches) few in
            rw few (elim f.reason [
              | inl two ↦ absurd (omega (arith, two, most))
              | inr (inl (whole, empty)) ↦ rw whole (
                  whole-IsVerdict stream s.matches
                    (all_of ∙ ap (λ es. s.matches ++ hits probe es) empty ∙ append-nil s.matches)
                    most)
              | inr (inr (limit, full)) ↦ rw limit (
                  limit-IsVerdict f.past f.rest stream f.parts full
                    (subst (λ xs. length xs ≤ 1) f.found most))
            ])
      ]

  -- If XRANGE answers with the entries of a stream, whose ids are well-formed and on whose values
  -- `json.loads` ends with a payload or an error that the scan catches, the scan ends, and its state
  -- is right for the stream: a conflict if it holds the message twice at least, accepted if it holds
  -- it once, no match if it does not hold it, and the limit only if the stream has as many entries as
  -- are scanned at most, the first of which hold the message once at most.
  pub inspect-IsVerdict :
      (stream : List Entry) (xrange : Bytes → ℕ → Checked Reply)
      → IsXrange stream xrange
      → AreReadable probe stream
      → (state : State) × (inspect probe xrange ≡ ok state) × IsVerdict stream state
  unfolding inspect Finishes
  inspect-IsVerdict stream xrange redis valid =
      let start : IsAt probe [] scan_start = record {
        scanned = refl;
        found = refl;
        placed = inl (refl, refl);
        unfinished = refl;
      } in
      let (s, done_by, final) =
        scan_with-Finishes probe stream xrange redis max_xrange_entries [] stream scan_start refl
          valid start (omega arith) (omega arith) in
      (state_of s, rw done_by refl, state_of-IsVerdict stream s final)
