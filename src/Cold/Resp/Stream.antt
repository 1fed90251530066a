-- ===== src/Cold/Resp/Stream.antt =====
-- What `_more`, `_take` and `_line` of `RESPReader` in scripts/cold_redis_acceptance.py do on bytes that
-- arrive in parts.
use kairos_deploy.Base.{
  ℕ, ◌+◌, ◌≤◌, ◌≡◌, refl, sym, subst, ap, ◌∙◌, arith, inl, inr, some, List, [], ◌∷◌, ◌++◌, Bool,
  true, false, not, ◌&&◌, &&_true, Bool-cases, Option-cases, some-injective, ok, length,
  length-append, take, drop, ltb, leb, leb→le, le→leb, all, append_assoc, append-nil,
}
use kairos_deploy.Base.Bytes.{Bytes, find_crlf}
use kairos_deploy.Base.Lines.{crlf, unbroken, find_crlf-le, find_crlf-append, find_crlf-unbroken}
use kairos_deploy.Cold.Resp.{
  Arrival, Reader, Read, Checked, is_empty, more, taken, take_bytes, line_at, read_line,
}

-- The bytes that the socket receives later.
abbrev pub arriving : List Arrival → Bytes
arriving [] = []
arriving (a ∷ later) = a.data_received ++ arriving later

-- The bytes that the reader has not passed yet.
abbrev pub ahead : Reader → List Arrival → Bytes
ahead r later = r.buffer ++ arriving later

abbrev pub is_timely : Arrival → Bool
is_timely a = a.in_time && not (is_empty a.data_received)

-- All parts arrive in time, and together stay within the bound.
pub record IsReady (r : Reader) (later : List Arrival) : Type 0 where
  pub timely : all is_timely later ≡ true
  pub bounded : r.received + length (arriving later) ≤ r.maximum_bytes

-- A read that returns a value and leaves the bytes `rest` ahead.
pub record Gives {A : Type 0} (m : Checked (Read A)) (v : A) (maximum : ℕ) (rest : Bytes)
    : Type 0 where
  pub out : Read A
  pub returned : m ≡ ok out
  pub gives : out.value ≡ v
  pub left : ahead out.reader out.later ≡ rest
  pub ready : IsReady out.reader out.later
  pub same_maximum : out.reader.maximum_bytes ≡ maximum

-- The reader with a part more.
abbrev pub grown : Arrival → Reader → Reader
grown a r = record r {
  received = r.received + length a.data_received;
  buffer = r.buffer ++ a.data_received;
}

nonempty-length : (bs : Bytes) → not (is_empty bs) ≡ true → 1 ≤ length bs
nonempty-length [] h = cc
nonempty-length (b ∷ bs) h = omega arith

timely_parts :
    (a : Arrival) → is_timely a ≡ true → (a.in_time ≡ true) × (is_empty a.data_received ≡ false)
timely_parts a h = ground arith

more-grown :
    (a : Arrival) (later : List Arrival) (r : Reader)
    → IsReady r (a ∷ later)
    → more a r ≡ ok (grown a r)
unfolding more
more-grown a later r q =
    let (first, rest) = &&_true (is_timely a) (all is_timely later) q.timely in
    let (in_time, full) = timely_parts a first in
    let long = nonempty-length a.data_received (rw full) in
    let sum = length-append a.data_received (arriving later) in
    let early : leb r.maximum_bytes r.received ≡ false = ground (arith, q.bounded) in
    let short : ltb r.maximum_bytes (r.received + length a.data_received) ≡ false =
      ground (arith, q.bounded) in
    rw (in_time, full, early, short) refl

grown-IsReady :
    (a : Arrival) (later : List Arrival) (r : Reader)
    → IsReady r (a ∷ later)
    → IsReady (grown a r) later
grown-IsReady a later r q = record {
  timely = (&&_true (is_timely a) (all is_timely later) q.timely).1;
  bounded = omega (arith, q.bounded, length-append a.data_received (arriving later));
}

ahead-grown :
    (a : Arrival) (later : List Arrival) (r : Reader)
    → ahead (grown a r) later ≡ ahead r (a ∷ later)
ahead-grown a later r = append_assoc r.buffer a.data_received (arriving later)

-- Bytes of which a first part is known to reach no further than `w`.
prefix_split :
    (w xs ys rest : Bytes)
    → xs ++ ys ≡ w ++ rest
    → length w ≤ length xs
    → (take (length w) xs ≡ w) × (drop (length w) xs ++ ys ≡ rest)
prefix_split [] xs ys rest h le = (refl, h)
prefix_split (c ∷ w) [] ys rest h le = absurd (omega arith)
prefix_split (c ∷ w) (x ∷ xs) ys rest h le =
    let first : x ≡ c = cc in
    let behind : xs ++ ys ≡ w ++ rest = cc in
    let shorter : length w ≤ length xs = omega arith in
    let (same, others) = prefix_split w xs ys rest behind shorter in (rw (first, same) refl, others)

taken-IsReady :
    (n : ℕ) (r : Reader) (later : List Arrival)
    → IsReady r later
    → IsReady (taken n r later).reader later
taken-IsReady n r later q = record { timely = q.timely; bounded = q.bounded }

take_bytes_here :
    (w rest : Bytes) (r : Reader) (later : List Arrival)
    → ahead r later ≡ w ++ rest
    → length w ≤ length r.buffer
    → IsReady r later
    → take_bytes (length w) r later ≡ ok (taken (length w) r later)
    → Gives (take_bytes (length w) r later) w r.maximum_bytes rest
take_bytes_here w rest r later h le q e =
    let (same, others) = prefix_split w r.buffer (arriving later) rest h le in
    record {
      out = taken (length w) r later;
      returned = e;
      gives = same;
      left = others;
      ready = taken-IsReady (length w) r later q;
      same_maximum = refl;
    }

-- The reader takes the bytes that are ahead, in however many parts they arrive.
pub take_bytes-Gives :
    (w rest : Bytes) (later : List Arrival) (r : Reader)
    → ahead r later ≡ w ++ rest
    → IsReady r later
    → Gives (take_bytes (length w) r later) w r.maximum_bytes rest
unfolding take_bytes
take_bytes-Gives w rest [] r h q =
    let le : length w ≤ length r.buffer =
      omega (arith, length-append r.buffer [], length-append w rest, ap (λ bs. length bs) h) in
    take_bytes_here w rest r [] h le q (rw (le→leb (length w) (length r.buffer) le) refl)
take_bytes-Gives w rest (a ∷ later) r h q = elim (Bool-cases (leb (length w) (length r.buffer))) [
  | inl enough ↦
      take_bytes_here w rest r (a ∷ later) h (leb→le _ _ enough) q (rw (enough, take_bytes) refl)
  | inr short ↦
      let g =
        take_bytes-Gives w rest later (grown a r) (ahead-grown a later r ∙ h)
          (grown-IsReady a later r q) in
      record {
        out = g.out;
        returned = rw (short, more-grown a later r q, take_bytes) g.returned;
        gives = g.gives;
        left = g.left;
        ready = g.ready;
        same_maximum = g.same_maximum;
      }
]

line_here :
    (text rest : Bytes) (r : Reader) (later : List Arrival) (position : ℕ)
    → ahead r later ≡ text ++ (crlf ++ rest)
    → unbroken text ≡ true
    → find_crlf r.buffer ≡ some position
    → IsReady r later
    → read_line r later ≡ ok (line_at position r later)
    → Gives (read_line r later) text r.maximum_bytes rest
line_here text rest r later position h plain found q e =
    let at_end : find_crlf (ahead r later) ≡ some (length text) =
      rw h (find_crlf-unbroken text rest plain) in
    let same : position ≡ length text =
      some-injective (sym (find_crlf-append r.buffer (arriving later) position found) ∙ at_end) in
    let enough : length text + 2 ≤ length r.buffer =
      omega (arith, find_crlf-le r.buffer position found, same) in
    let least : length text ≤ length r.buffer = omega (arith, enough) in
    let (first, _) = prefix_split text r.buffer (arriving later) (crlf ++ rest) h least in
    let sum : length (text ++ crlf) ≡ length text + 2 = length-append text crlf in
    let whole : ahead r later ≡ (text ++ crlf) ++ rest = h ∙ sym (append_assoc text crlf rest) in
    let most : length (text ++ crlf) ≤ length r.buffer = omega (arith, enough, sum) in
    let (_, others) = prefix_split (text ++ crlf) r.buffer (arriving later) rest whole most in
    record {
      out = line_at position r later;
      returned = e;
      gives = rw same first;
      left = rw same (subst (λ n. drop n r.buffer ++ arriving later ≡ rest) sum others);
      ready = record { timely = q.timely; bounded = q.bounded };
      same_maximum = refl;
    }

-- The reader takes a line that is ahead, in however many parts it arrives.
pub read_line-Gives :
    (text rest : Bytes) (later : List Arrival) (r : Reader)
    → ahead r later ≡ text ++ (crlf ++ rest)
    → unbroken text ≡ true
    → IsReady r later
    → Gives (read_line r later) text r.maximum_bytes rest
unfolding read_line
read_line-Gives text rest [] r h plain q = elim (Option-cases (find_crlf r.buffer)) [
  | inl absent ↦ absurd (
      let all_of : r.buffer ≡ text ++ (crlf ++ rest) = sym (append-nil r.buffer) ∙ h in
      let there = find_crlf-unbroken text rest plain in
      let here : find_crlf r.buffer ≡ some (length text) = rw all_of there in cc)
  | inr (position, found) ↦
      line_here text rest r [] position h plain found q (rw (found, read_line) refl)
]
read_line-Gives text rest (a ∷ later) r h plain q = elim (Option-cases (find_crlf r.buffer)) [
  | inl absent ↦
      let g =
        read_line-Gives text rest later (grown a r) (ahead-grown a later r ∙ h) plain
          (grown-IsReady a later r q) in
      record {
        out = g.out;
        returned = rw (absent, more-grown a later r q, read_line) g.returned;
        gives = g.gives;
        left = g.left;
        ready = g.ready;
        same_maximum = g.same_maximum;
      }
  | inr (position, found) ↦
      line_here text rest r (a ∷ later) position h plain found q (rw (found, read_line) refl)
]
