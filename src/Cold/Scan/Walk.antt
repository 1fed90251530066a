-- ===== src/Cold/Scan/Walk.antt =====
-- The entries of a stream, and how the scan of `_inspect_stream` in scripts/cold_redis_acceptance.py
-- passes over them.
use kairos_deploy.Base.{
  ℕ, ◌≡◌, ◌⊎◌, refl, sym, subst, arith, inl, inr, List, [], ◌∷◌, ◌++◌, Bool, true, false, not,
  Bool-cases, ok, length, length-append, take, append_assoc, append-nil, if◌then◌else◌,
}
use kairos_deploy.Base.Bytes.{Bytes, codes, bytes_eq}
use kairos_deploy.Base.Sets.{All}
use kairos_deploy.Cold.Resp.{Reply, Replies, bulk, array, nil, cons}
use kairos_deploy.Cold.Scan.{
  Checked, Loaded, payload, undecodable, unexpected, loaded_match, Probe, Scan, is_stream_id,
  is_even, data_fields, is_wanted, is_match, passed_entry, on_fields, on_id, on_entry, on_entries,
}

-- An entry of a stream.
pub record Entry : Type 0 where
  pub id : Bytes
  pub pairs : List (Bytes × Bytes)

abbrev pub flat : List (Bytes × Bytes) → Replies
flat [] = nil
flat (pair ∷ pairs) = cons (bulk pair.0) (cons (bulk pair.1) (flat pairs))

-- Entries as Redis answers with them.
abbrev pub rows : List Entry → Replies
rows [] = nil
rows (e ∷ es) = cons (array (cons (bulk e.id) (cons (array (flat e.pairs)) nil))) (rows es)

-- The values of an entry under `data`.
abbrev pub data_of : List (Bytes × Bytes) → List Bytes
data_of [] = []
data_of (pair ∷ pairs) =
    if bytes_eq pair.0 (codes "data") then pair.1 ∷ data_of pairs else data_of pairs

-- XRANGE on the stream, from its start or behind an entry of it.
pub record IsXrange (stream : List Entry) (xrange : Bytes → ℕ → Checked Reply) : Type 0 where
  pub from_start : (count : ℕ) → xrange (codes "-") count ≡ ok (array (rows (take count stream)))
  pub from_entry :
      (past : List Entry) (e : Entry) (rest : List Entry) (count : ℕ)
      → stream ≡ (past ++ (e ∷ [])) ++ rest
      → xrange (40 ∷ e.id) count ≡ ok (array (rows (take count rest)))

module _ {P : Type 0} (probe : Probe P) where
  -- The text decodes to a payload, and that is the message.
  abbrev pub is_loaded : Loaded P → Bool
  is_loaded (payload p) = is_wanted probe p
  is_loaded _ = false

  abbrev pub is_unexpected : Loaded P → Bool
  is_unexpected unexpected = true
  is_unexpected _ = false

  loaded_match-is_loaded :
      (l : Loaded P) → not (is_unexpected l) ≡ true → loaded_match probe l ≡ ok (is_loaded l)
  loaded_match-is_loaded (payload p) h = refl
  loaded_match-is_loaded undecodable h = refl
  loaded_match-is_loaded unexpected h = cc

  -- The entry has one value under `data`, and that is the message.
  abbrev pub is_hit : List Bytes → Bool
  is_hit (value ∷ []) = is_loaded (probe.loads value)
  is_hit _ = false

  -- `json.loads` ends on the value, with a payload or with an error that is caught.
  abbrev pub is_safe : List Bytes → Bool
  is_safe (value ∷ []) = not (is_unexpected (probe.loads value))
  is_safe _ = true

  -- Entries whose ids are well-formed and whose values `json.loads` ends on.
  abbrev pub AreReadable : List Entry → Type 0
  AreReadable es = All (λ e. (is_stream_id e.id ≡ true) × (is_safe (data_of e.pairs) ≡ true)) es

  -- The ids of the entries that hold the message.
  abbrev pub hits : List Entry → List Bytes
  hits [] = []
  hits (e ∷ es) = if is_hit (data_of e.pairs) then e.id ∷ hits es else hits es

  pub hits-append : (xs ys : List Entry) → hits (xs ++ ys) ≡ hits xs ++ hits ys
  hits-append [] ys = refl
  hits-append (x ∷ xs) ys = elim (Bool-cases (is_hit (data_of x.pairs))) [
    | inl hit ↦ rw (hit, hits-append xs ys)
    | inr other ↦ rw (other, hits-append xs ys)
  ]

  flat-is_even : (pairs : List (Bytes × Bytes)) → is_even (flat pairs) ≡ true
  unfolding is_even
  flat-is_even [] = refl
  flat-is_even (pair ∷ pairs) = flat-is_even pairs

  abbrev as_bulks : List Bytes → List Reply
  as_bulks [] = []
  as_bulks (value ∷ values) = bulk value ∷ as_bulks values

  data_fields-flat :
      (pairs : List (Bytes × Bytes)) → data_fields (flat pairs) ≡ ok (as_bulks (data_of pairs))
  unfolding data_fields
  data_fields-flat [] = refl
  data_fields-flat (pair ∷ pairs) = elim (Bool-cases (bytes_eq pair.0 (codes "data"))) [
    | inl named ↦ rw (named, data_fields-flat pairs)
    | inr other ↦ rw (other, data_fields-flat pairs)
  ]

  is_match-hit :
      (values : List Bytes)
      → is_safe values ≡ true
      → is_match probe (as_bulks values) ≡ ok (is_hit values)
  unfolding is_match
  is_match-hit [] h = refl
  is_match-hit (value ∷ []) h = loaded_match-is_loaded (probe.loads value) h
  is_match-hit (value ∷ other ∷ values) h = refl

  -- The scan behind entries.
  abbrev pub walked : List Entry → Scan → Scan
  walked [] s = s
  walked (e ∷ es) s = walked es (passed_entry probe e.id (is_hit (data_of e.pairs)) s)

  pub on_entries-walked :
      (es : List Entry) (s : Scan)
      → AreReadable es
      → on_entries probe (rows es) s ≡ ok (walked es s)
  unfolding on_entries on_entry on_id on_fields
  on_entries-walked [] s h = refl
  on_entries-walked (e ∷ es) s ((valid, safe), h) =
      rw
        (valid, flat-is_even e.pairs, data_fields-flat e.pairs, is_match-hit (data_of e.pairs) safe)
        (on_entries-walked es (passed_entry probe e.id (is_hit (data_of e.pairs)) s) h)

  -- The cursor stands behind these entries.
  abbrev pub Placed : Bytes → List Entry → Type 0
  Placed cursor past =
      ((past ≡ []) × (cursor ≡ codes "-"))
      ⊎ ((before : List Entry) × (e : Entry) × (past ≡ before ++ (e ∷ [])) × (cursor ≡ e.id))

  pub record IsAt (past : List Entry) (s : Scan) : Type 0 where
    pub scanned : s.entries_scanned ≡ length past
    pub found : s.matches ≡ hits past
    pub placed : Placed s.cursor past
    pub unfinished : s.complete ≡ false

  passed_entry-IsAt :
      (past : List Entry) (e : Entry) (s : Scan)
      → IsAt past s
      → IsAt (past ++ (e ∷ [])) (passed_entry probe e.id (is_hit (data_of e.pairs)) s)
  passed_entry-IsAt past e s at = record {
    scanned = omega (arith, at.scanned, length-append past (e ∷ []));
    found = elim (Bool-cases (is_hit (data_of e.pairs))) [
      | inl hit ↦ rw (hits-append past (e ∷ []), hit, at.found)
      | inr other ↦ rw (hits-append past (e ∷ []), other, at.found) (sym (append-nil _))
    ];
    placed = inr (past, e, refl, refl);
    unfinished = at.unfinished;
  }

  pub walked-IsAt :
      (es past : List Entry) (s : Scan) → IsAt past s → IsAt (past ++ es) (walked es s)
  walked-IsAt [] past s at = subst (λ xs. IsAt xs s) (sym (append-nil past)) at
  walked-IsAt (e ∷ es) past s at =
      subst (λ xs. IsAt xs (walked (e ∷ es) s)) (append_assoc past (e ∷ []) es)
        (walked-IsAt es (past ++ (e ∷ [])) _ (passed_entry-IsAt past e s at))
