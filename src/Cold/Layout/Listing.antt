-- ===== src/Cold/Layout/Listing.antt =====
-- What the loop of `_persistence_layout` in scripts/cold_redis_acceptance.py over the lines of a manifest
-- lists.
use kairos_deploy.Base.{
  ℕ, ◌≡◌, sym, ap, ◌∙◌, ◌≤◌, ltb→le, Option, none, some, append-nil, append_assoc, ◌++◌, ltb, subst,
  arith, inl, inr, List, [], ◌∷◌, Bool, true, false, not, ◌||◌, Bool-cases, unnegated, ok, ◌>>◌,
  raise_if, passed, raise_if-Passed, bound, >>=-Bound, ok-injective, length,
}
use kairos_deploy.Base.Bytes.{Bytes, bytes_eq, bytes_eq_sound, number}
use kairos_deploy.Base.Sets.{contains, bytes_eq_instance}
use kairos_deploy.Base.Integers.{max_digits}
use kairos_deploy.Cold.Manifest.{
  Line, is_blank, parse_line, manifest_sequence_type_conflict, manifest_offsets_invalid,
  component_missing,
}
use kairos_deploy.Cold.Layout.{
  max_offset, offsets_conflict, relative_of, on_entry, on_line, is_seen, same_bool, Listed,
  on_lines,
}

pub both_false : (a b : Bool) → (a || b) ≡ false → (a ≡ false) × (b ≡ false)
both_false a b h = (ground arith, ground arith)

same_bool_sound : (a b : Bool) → same_bool a b ≡ true → b ≡ a
same_bool_sound true b h = h
same_bool_sound false b h = ground arith

-- Offsets that an entry may have: none, or a start and perhaps an end, of an increment, in 64 bits with
-- a sign, the end not before the start.
abbrev pub HasOffsets : Bool → Option Bytes → Option Bytes → Type 0
HasOffsets is_base none last = Unit
HasOffsets is_base (some start) none = (is_base ≡ false) × (number start ≤ max_offset)
HasOffsets is_base (some start) (some last) =
    (is_base ≡ false) × (number start ≤ number last) × (number last ≤ max_offset)

offsets_conflict-HasOffsets :
    (is_base : Bool) (first last : Option Bytes)
    → offsets_conflict is_base first last ≡ false
    → HasOffsets is_base first last
unfolding offsets_conflict
offsets_conflict-HasOffsets is_base none last h = tt
offsets_conflict-HasOffsets is_base (some start) none h =
    let (increment, rest) = both_false is_base _ h in
    let (small, _) = both_false (ltb max_offset (number start)) _ rest in
    (increment, ltb→le max_offset (number start) small)
offsets_conflict-HasOffsets is_base (some start) (some last) h =
    let (increment, rest) = both_false is_base _ h in
    let (_, ends) = both_false (ltb max_offset (number start)) _ rest in
    let (small, ordered) = both_false (ltb max_offset (number last)) _ ends in
    (increment, ltb→le (number last) (number start) ordered, ltb→le max_offset (number last) small)

-- A line of the manifest that is listed: its type is that of its file, the sequence in the name is its
-- sequence, its offsets are allowed, and the file is there.
pub record IsListed (files : List Bytes) (l : Line) : Type 0 where
  pub kind : l.is_base_file ≡ l.is_base_entry
  pub sequence : l.filename_sequence ≡ l.sequence
  pub offsets_of : HasOffsets l.is_base_entry l.startoffset l.endoffset
  pub there : contains (relative_of l) files ≡ true

abbrev pub key_of : Line → ℕ × Bool
key_of l = (number l.sequence, l.is_base_entry)

-- The paths that lines list, in their order: one for each line that is not blank. No line has the
-- sequence number and type of one before it, nor of those that are given.
pub data Lists (files : List Bytes) : List (ℕ × Bool) → List Bytes → List Bytes → Type 0 where
  end_of_lines : {seen : List (ℕ × Bool)} → Lists files seen [] []
  blank_line :
      {seen : List (ℕ × Bool)} {line : Bytes} {lines paths : List Bytes}
      → is_blank line ≡ true
      → Lists files seen lines paths
      → Lists files seen (line ∷ lines) paths
  listed_line :
      {seen : List (ℕ × Bool)} {line : Bytes} {lines paths : List Bytes} (l : Line)
      → is_blank line ≡ false
      → parse_line line ≡ ok l
      → IsListed files l
      → is_seen (number l.sequence) l.is_base_entry seen ≡ false
      → Lists files (key_of l ∷ seen) lines paths
      → Lists files seen (line ∷ lines) (relative_of l ∷ paths)

-- What an entry adds.
abbrev entered : Line → Listed → Listed
entered l s = record {
  seen_sequences = key_of l ∷ s.seen_sequences;
  multipart = s.multipart ++ (relative_of l ∷ []);
}

-- An entry that is accepted is listed, behind those before it.
on_entry-IsListed :
    (files : List Bytes) (l : Line) (s : Listed) {s' : Listed}
    → on_entry files l s ≡ ok s'
    → IsListed files l
      × (is_seen (number l.sequence) l.is_base_entry s.seen_sequences ≡ false)
      × (s'.seen_sequences ≡ key_of l ∷ s.seen_sequences)
      × (s'.multipart ≡ s.multipart ++ (relative_of l ∷ []))
unfolding on_entry
on_entry-IsListed files l s {s'} h =
    elim (raise_if-Passed (ltb max_digits (length l.sequence)) _ _ h) [
      | passed _ h1 ↦
          elim (raise_if-Passed
            (not (same_bool l.is_base_entry l.is_base_file)
              || (not (bytes_eq l.filename_sequence l.sequence)
                  || is_seen (number l.sequence) l.is_base_entry s.seen_sequences))
            manifest_sequence_type_conflict
            (raise_if (offsets_conflict l.is_base_entry l.startoffset l.endoffset)
                manifest_offsets_invalid
              >> (raise_if (not (contains (relative_of l) files)) component_missing
                  >> ok (entered l s)))
            h1) [
              | passed known h2 ↦
                  elim (raise_if-Passed (offsets_conflict l.is_base_entry l.startoffset l.endoffset)
                    manifest_offsets_invalid
                    (raise_if (not (contains (relative_of l) files)) component_missing
                      >> ok (entered l s))
                    h2) [
                      | passed spans h3 ↦
                          elim (raise_if-Passed (not (contains (relative_of l) files))
                            component_missing (ok (entered l s)) h3) [
                              | passed there h4 ↦
                                  let (kinds, rest) = both_false _ _ known in
                                  let (names, fresh) = both_false _ _ rest in
                                  (
                                    record {
                                      kind = same_bool_sound _ _ (unnegated _ kinds);
                                      sequence = bytes_eq_sound _ _ (unnegated _ names);
                                      offsets_of = offsets_conflict-HasOffsets _ _ _ spans;
                                      there = unnegated _ there;
                                    },
                                    fresh,
                                    ap (λ (x : Listed). x.seen_sequences) (sym (ok-injective h4)),
                                    ap (λ (x : Listed). x.multipart) (sym (ok-injective h4)),
                                  )
                            ]
                    ]
            ]
    ]

-- The loop lists the lines in their order.
pub on_lines-Lists :
    (files lines : List Bytes) (s : Listed) {s' : Listed}
    → on_lines files lines s ≡ ok s'
    → (paths : List Bytes) × (s'.multipart ≡ s.multipart ++ paths)
      × Lists files s.seen_sequences lines paths
unfolding on_lines
on_lines-Lists files [] s h =
    ([], ap (λ (x : Listed). x.multipart) (sym (ok-injective h)) ∙ sym (append-nil _), end_of_lines)
on_lines-Lists files (line ∷ lines) s {s'} h = elim (Bool-cases (is_blank line)) [
  | inl blank ↦
      let (paths, same, lists) = on_lines-Lists files lines s (rw blank at h) in
      (paths, same, blank_line blank lists)
  | inr text ↦ elim (>>=-Bound (on_line files line s) _ h) [
    | bound s1 e h1 ↦ elim (>>=-Bound (parse_line line) (λ l. on_entry files l s) (rw text at e)) [
      | bound l parsed e1 ↦
          let (listed, fresh, seen, grown) = on_entry-IsListed files l s e1 in
          let (paths, same, lists) = on_lines-Lists files lines s1 h1 in
          (
            relative_of l ∷ paths,
            same
                ∙ ap (λ xs. xs ++ paths) grown
                ∙ append_assoc s.multipart (relative_of l ∷ []) paths,
            listed_line l text parsed listed fresh
                (subst (λ xs. Lists files xs lines paths) seen lists),
          )
    ]
  ]
]
