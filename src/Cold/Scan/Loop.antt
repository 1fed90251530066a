-- ===== src/Cold/Scan/Loop.antt =====
-- How the loop of `_inspect_stream` in scripts/cold_redis_acceptance.py over the pages of a stream ends.
use kairos_deploy.Base.{
  ℕ, zero, suc, ◌+◌, ◌≤◌, ◌<◌, ◌≡◌, ◌⊎◌, refl, sym, subst, ap, ◌∙◌, arith, inl, inr, List, [], ◌∷◌,
  ◌++◌, Bool, true, false, Bool-cases, ok, length, length-append, take, drop, take-append-drop, ltb,
  ltb→lt, ltb→le, append_assoc, append-nil,
}
use kairos_deploy.Base.Bytes.{Bytes, codes, bytes_eq, bytes_eq_sound, split_dash}
use kairos_deploy.Cold.Resp.{Reply, array}
use kairos_deploy.Cold.Resp.Encode.{size}
use kairos_deploy.Cold.Scan.{
  max_xrange_entries, Checked, Probe, Scan, is_stream_id, minimum_of, count_of, behind_page,
  on_reply, scan_with,
}
use kairos_deploy.Cold.Scan.Walk.{
  Entry, rows, AreReadable, IsXrange, hits, walked, on_entries-walked, Placed, IsAt, walked-IsAt,
}

size-rows : (es : List Entry) → size (rows es) ≡ length es
size-rows [] = refl
size-rows (e ∷ es) = rw (size-rows es)

length-take_le : (n : ℕ) (es : List Entry) → length (take n es) ≤ n
length-take_le zero es = omega arith
length-take_le (suc n) [] = omega arith
length-take_le (suc n) (e ∷ es) = omega (arith, length-take_le n es)

-- A page that is not full has the whole rest.
drop_short : (n : ℕ) (es : List Entry) → length (take n es) < n → drop n es ≡ []
drop_short zero es h = absurd (omega arith)
drop_short (suc n) [] h = refl
drop_short (suc n) (e ∷ es) h = drop_short n es (omega arith)

count_of_bounds :
    (n : ℕ) → n < max_xrange_entries → (1 ≤ count_of n) × (n + count_of n ≤ max_xrange_entries)
count_of_bounds n h = (ground arith, ground arith)

-- A stream id is not the cursor that stands for the start.
stream_id_dash : (id : Bytes) → is_stream_id id ≡ true → bytes_eq id (codes "-") ≡ false
unfolding is_stream_id split_dash bytes_eq
stream_id_dash id h = elim (Bool-cases (bytes_eq id (codes "-"))) [
  | inl same ↦ absurd (let e = bytes_eq_sound id (codes "-") same in let k = rw e at h in cc)
  | inr other ↦ other
]

module _ {P : Type 0} (probe : Probe P) where
  ids_of_parts :
      (xs ys : List Entry)
      → AreReadable probe (xs ++ ys)
      → AreReadable probe xs × AreReadable probe ys
  ids_of_parts [] ys h = (tt, h)
  ids_of_parts (x ∷ xs) ys (first, h) =
      ((first, (ids_of_parts xs ys h).0), (ids_of_parts xs ys h).1)

  -- How the loop ends: with two matches, behind the whole stream, or at the limit.
  pub record IsFinal (stream : List Entry) (s : Scan) : Type 0 where
    pub past : List Entry
    pub rest : List Entry
    pub parts : stream ≡ past ++ rest
    pub found : s.matches ≡ hits probe past
    pub reason :
        (1 < length s.matches)
        ⊎ (((s.complete ≡ true) × (rest ≡ []))
            ⊎ ((s.complete ≡ false) × (length past ≡ max_xrange_entries)))

  unfoldable pub Finishes : List Entry → Checked Scan → Type 0
  Finishes stream m = (s : Scan) × (m ≡ ok s) × IsFinal stream s

  module _ (stream : List Entry) where
    behind_page-Finishes :
        (next : Scan → Checked Scan) (short : Bool) (past rest : List Entry) (s : Scan)
        → stream ≡ past ++ rest
        → IsAt probe past s
        → (short ≡ true → rest ≡ [])
        → (length s.matches ≤ 1 → Finishes stream (next s))
        → Finishes stream (behind_page next short s)
    unfolding behind_page Finishes
    behind_page-Finishes next short past rest s parts at ended more =
        elim (Bool-cases (ltb 1 (length s.matches))) [
          | inl two ↦
              rw (two, behind_page)
                (
                  s,
                  refl,
                  record {
                    past = past;
                    rest = rest;
                    parts = parts;
                    found = at.found;
                    reason = inl (ltb→lt 1 _ two);
                  },
                )
          | inr few ↦
              rw (few, behind_page)
                (elim (Bool-cases short) [
                  | inl last ↦ rw last (
                    record s { complete = true },
                    refl,
                    record {
                      past = past;
                      rest = rest;
                      parts = parts;
                      found = at.found;
                      reason = inr (inl (refl, ended last));
                    },
                  )
                  | inr full ↦ rw full (more (ltb→le 1 _ few))
                ])
        ]

    on_reply-Finishes :
        (next : Scan → Checked Scan) (count : ℕ) (es past rest : List Entry) (s : Scan)
        → stream ≡ (past ++ es) ++ rest
        → AreReadable probe es
        → IsAt probe past s
        → length es ≤ count
        → (length es < count → rest ≡ [])
        → 1 ≤ count
        → ((s' : Scan)
            → IsAt probe (past ++ es) s'
            → 1 ≤ length es
            → length s'.matches ≤ 1
            → Finishes stream (next s'))
        → Finishes stream (on_reply probe next count (array (rows es)) s)
    unfolding on_reply Finishes
    on_reply-Finishes next count [] past rest s parts valid at most ended least more = (
      record s { complete = true },
      refl,
      record {
        past = past;
        rest = rest;
        parts = parts ∙ ap (λ xs. xs ++ rest) (append-nil past);
        found = at.found;
        reason = inr (inl (refl, ended (omega arith)));
      },
    )
    on_reply-Finishes next count (e ∷ es) past rest s parts valid at most ended least more =
        let fits : ltb count (size (rows (e ∷ es))) ≡ false = ground (arith, size-rows (e ∷ es)) in
        let s' = walked probe (e ∷ es) s in
        let at' = walked-IsAt probe (e ∷ es) past s at in
        let close : (ltb (size (rows (e ∷ es))) count ≡ true → rest ≡ []) =
          λ short. ended (omega (arith, ltb→lt _ _ short, size-rows (e ∷ es))) in
        rw (fits, on_entries-walked probe (e ∷ es) s valid)
          (behind_page-Finishes next _ (past ++ (e ∷ es)) rest s' parts at' close
            (λ few. more s' at' (omega arith) few))

  module _ (stream : List Entry) (xrange : Bytes → ℕ → Checked Reply)
      (redis : IsXrange stream xrange) where
    -- The reply for the next page.
    xrange_next :
        (past rest : List Entry) (cursor : Bytes) (count : ℕ)
        → stream ≡ past ++ rest
        → AreReadable probe stream
        → Placed probe cursor past
        → xrange (minimum_of cursor) count ≡ ok (array (rows (take count rest)))
    unfolding bytes_eq
    xrange_next past rest cursor count parts valid (inl (start, at_start)) =
        let same : stream ≡ rest = subst (λ xs. stream ≡ xs ++ rest) start parts in
        subst (λ c. xrange (minimum_of c) count ≡ ok (array (rows (take count rest))))
          (sym at_start)
          (redis.from_start count ∙ ap (λ xs. ok (array (rows (take count xs)))) same)
    xrange_next past rest cursor count parts valid (inr (before, e, behind, at_entry)) =
        let whole : stream ≡ (before ++ (e ∷ [])) ++ rest =
          subst (λ xs. stream ≡ xs ++ rest) behind parts in
        let of_past =
          (ids_of_parts (before ++ (e ∷ [])) rest (subst (AreReadable probe) whole valid)).0 in
        let of_entry = (ids_of_parts before (e ∷ []) of_past).1.0.0 in
        subst (λ c. xrange (minimum_of c) count ≡ ok (array (rows (take count rest))))
          (sym at_entry)
          (rw (stream_id_dash e.id of_entry) (redis.from_entry before e rest count whole))

    pub scan_with-Finishes :
        (fuel : ℕ) (past rest : List Entry) (s : Scan)
        → stream ≡ past ++ rest
        → AreReadable probe stream
        → IsAt probe past s
        → max_xrange_entries ≤ length past + fuel
        → length past ≤ max_xrange_entries
        → Finishes stream (scan_with probe fuel xrange s)
    unfolding scan_with Finishes
    scan_with-Finishes zero past rest s parts valid at enough within = (
      s,
      refl,
      record {
        past = past;
        rest = rest;
        parts = parts;
        found = at.found;
        reason = inr (inr (at.unfinished, omega arith));
      },
    )
    scan_with-Finishes (suc fuel) past rest s parts valid at enough within =
        elim (Bool-cases (ltb s.entries_scanned max_xrange_entries)) [
          | inl more ↦
              let left : length past < max_xrange_entries =
                omega (arith, ltb→lt _ _ more, at.scanned) in
              let count = count_of s.entries_scanned in
              let page = take count rest in
              let split = take-append-drop count rest in
              let (least, most) = count_of_bounds s.entries_scanned (ltb→lt _ _ more) in
              let size_of = length-take_le count rest in
              let valid_page =
                (ids_of_parts page (drop count rest) (
                  subst (AreReadable probe) (sym split)
                    (ids_of_parts past rest (subst (AreReadable probe) parts valid)).1)).0 in
              let whole : stream ≡ (past ++ page) ++ drop count rest =
                parts
                ∙ ap (λ xs. past ++ xs) (sym split)
                ∙ sym (append_assoc past page (drop count rest)) in
              let sum = length-append past page in
              rw (more, scan_with, xrange_next past rest s.cursor count parts valid at.placed)
                (on_reply-Finishes stream _ count page past (drop count rest) s whole valid_page at
                  size_of (drop_short count rest) least
                  (λ s' at' grew few.
                    scan_with-Finishes fuel (past ++ page) (drop count rest) s' whole valid at'
                      (omega (arith, enough, grew, sum))
                      (omega (arith, most, at.scanned, size_of, sum))))
          | inr full ↦
              rw (full, scan_with)
                (
                  s,
                  refl,
                  record {
                    past = past;
                    rest = rest;
                    parts = parts;
                    found = at.found;
                    reason = inr (inr (at.unfinished, omega (arith, ltb→le _ _ full, at.scanned)));
                  },
                )
        ]
