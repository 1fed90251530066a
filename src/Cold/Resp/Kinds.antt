-- ===== src/Cold/Resp/Kinds.antt =====
-- How `RESPReader.parse` of scripts/cold_redis_acceptance.py reads each kind of reply that holds no other.
use kairos_deploy.Base.{
  ℕ, suc, ◌+◌, ◌≤◌, ◌≡◌, refl, sym, subst, ap, ◌∙◌, arith, some, List, [], ◌∷◌, ◌++◌, true, false,
  ok, ◌>>=◌, length, length-append, take-length_append, drop-length_append, ltb, append_assoc,
}
use kairos_deploy.Base.Bytes.{Bytes, bytes_eq}
use kairos_deploy.Base.Lines.{crlf, unbroken, unbroken-digits}
use kairos_deploy.Base.Integers.{ℤ, pos, negsuc, decimal, decimal_with, int_of, max_digits}
use kairos_deploy.Base.Numerals.{int_of-decimal, int_of-negative, decimal-all_digits}
use kairos_deploy.Cold.Resp.{
  Arrival, Reader, Read, Checked, Reply, line, integer, nothing, bulk, take_bytes, read_line,
  with_value, integer_reply, bulk_reply, bulk_of, reply_of, parse,
}
use kairos_deploy.Cold.Resp.Stream.{ahead, IsReady, Gives, take_bytes-Gives, read_line-Gives}
use kairos_deploy.Cold.Resp.Encode.{numeral, IsShort}

-- What follows a read that gives a value.
pub bind-Gives :
    {A B : Type 0} (m : Checked (Read A)) (f : Read A → Checked (Read B)) {v : A} {w : B}
    {maximum : ℕ} {mid rest : Bytes}
    → Gives m v maximum mid
    → ((x : Read A)
        → x.value ≡ v
        → ahead x.reader x.later ≡ mid
        → IsReady x.reader x.later
        → x.reader.maximum_bytes ≡ maximum
        → Gives (f x) w maximum rest)
    → Gives (m >>= f) w maximum rest
bind-Gives m f g next =
    let k = next g.out g.gives g.left g.ready g.same_maximum in
    record {
      out = k.out;
      returned = rw g.returned k.returned;
      gives = k.gives;
      left = k.left;
      ready = k.ready;
      same_maximum = k.same_maximum;
    }

-- A read that has the value already.
pub ok-Gives :
    {A B : Type 0} (x : Read A) (w : B) {maximum : ℕ} {rest : Bytes}
    → ahead x.reader x.later ≡ rest
    → IsReady x.reader x.later
    → x.reader.maximum_bytes ≡ maximum
    → Gives (ok (with_value w x)) w maximum rest
ok-Gives x w left q same = record {
  out = with_value w x;
  returned = refl;
  gives = refl;
  left = left;
  ready = record { timely = q.timely; bounded = q.bounded };
  same_maximum = same;
}

pub numeral-unbroken : (n : ℤ) → unbroken (numeral n) ≡ true
numeral-unbroken (pos n) = unbroken-digits (decimal n) (decimal-all_digits n)
numeral-unbroken (negsuc n) = unbroken-digits (decimal (suc n)) (decimal-all_digits (suc n))

int_of-numeral : (n : ℤ) → IsShort n → int_of (numeral n) ≡ some n
int_of-numeral (pos n) short = int_of-decimal n short
int_of-numeral (negsuc n) short = int_of-negative n short

minus_one : int_of (45 ∷ 49 ∷ []) ≡ some (negsuc 0)
unfolding decimal decimal_with
minus_one = int_of-negative 0 (omega arith)

-- A line, and then what is done with it.
pub after_line :
    {B : Type 0} (f : Read Bytes → Checked (Read B)) {w : B} {maximum : ℕ} (text mid rest : Bytes)
    (r : Reader) (later : List Arrival)
    → ahead r later ≡ text ++ (crlf ++ mid)
    → unbroken text ≡ true
    → IsReady r later
    → r.maximum_bytes ≡ maximum
    → ((x : Read Bytes)
        → x.value ≡ text
        → ahead x.reader x.later ≡ mid
        → IsReady x.reader x.later
        → x.reader.maximum_bytes ≡ maximum
        → Gives (f x) w maximum rest)
    → Gives (read_line r later >>= f) w maximum rest
after_line f text mid rest r later h plain q same next =
    bind-Gives (read_line r later) f
      (subst (λ n. Gives (read_line r later) text n mid) same
        (read_line-Gives text mid later r h plain q))
      next

-- The first byte, and then the rest of the reply.
pub after_prefix :
    (levels c : ℕ) {v : Reply} {maximum : ℕ} (mid rest : Bytes) (r : Reader) (later : List Arrival)
    → ahead r later ≡ c ∷ mid
    → IsReady r later
    → r.maximum_bytes ≡ maximum
    → ((r' : Reader) (later' : List Arrival)
        → ahead r' later' ≡ mid
        → IsReady r' later'
        → r'.maximum_bytes ≡ maximum
        → Gives (reply_of (parse levels) (c ∷ []) r' later') v maximum rest)
    → Gives (parse (suc levels) r later) v maximum rest
unfolding parse
after_prefix levels c {v} {maximum} mid rest r later h q same next =
    bind-Gives (take_bytes 1 r later) _
      (subst (λ n. Gives (take_bytes 1 r later) (c ∷ []) n mid) same
        (take_bytes-Gives (c ∷ []) mid later r h q))
      (λ x e left ready max.
        subst (λ p. Gives (reply_of (parse levels) p x.reader x.later) v maximum rest) (sym e)
          (next x.reader x.later left ready max))

module _ (levels maximum : ℕ) (rest : Bytes) where
  pub line-Gives :
      (text : Bytes) (r : Reader) (later : List Arrival)
      → unbroken text ≡ true
      → ahead r later ≡ (text ++ crlf) ++ rest
      → IsReady r later
      → r.maximum_bytes ≡ maximum
      → Gives (reply_of (parse levels) (43 ∷ []) r later) (line text) maximum rest
  unfolding reply_of bytes_eq
  line-Gives text r later plain h q same =
      after_line _ text rest rest r later (h ∙ append_assoc text crlf rest) plain q same
        (λ x e left ready max.
          subst (λ t. Gives (ok (with_value (line x.value) x)) (line t) maximum rest) e
            (ok-Gives x (line x.value) left ready max))

  pub integer-Gives :
      (n : ℤ) (r : Reader) (later : List Arrival)
      → IsShort n
      → ahead r later ≡ (numeral n ++ crlf) ++ rest
      → IsReady r later
      → r.maximum_bytes ≡ maximum
      → Gives (reply_of (parse levels) (58 ∷ []) r later) (integer n) maximum rest
  unfolding reply_of bytes_eq
  integer-Gives n r later short h q same =
      after_line _ (numeral n) rest rest r later (h ∙ append_assoc (numeral n) crlf rest)
        (numeral-unbroken n) q same
        (λ x e left ready max.
          subst (λ o. Gives (integer_reply o x) (integer n) maximum rest)
            (sym (ap int_of e ∙ int_of-numeral n short)) (ok-Gives x (integer n) left ready max))

  pub nothing-Gives :
      (r : Reader) (later : List Arrival)
      → ahead r later ≡ 45 ∷ 49 ∷ (crlf ++ rest)
      → IsReady r later
      → r.maximum_bytes ≡ maximum
      → Gives (reply_of (parse levels) (36 ∷ []) r later) nothing maximum rest
  unfolding reply_of bytes_eq bulk_of
  nothing-Gives r later h q same =
      after_line _ (45 ∷ 49 ∷ []) rest rest r later h refl q same (λ x e left ready max.
        subst (λ o. Gives (bulk_of o x) nothing maximum rest) (sym (ap int_of e ∙ minus_one))
          (ok-Gives x nothing left ready max))

  bulk_value :
      (value : Bytes) (x : Read Bytes)
      → x.value ≡ value ++ crlf
      → ahead x.reader x.later ≡ rest
      → IsReady x.reader x.later
      → x.reader.maximum_bytes ≡ maximum
      → Gives (bulk_reply (length value) x) (bulk value) maximum rest
  unfolding bytes_eq
  bulk_value value x e left ready max =
      rw (e, drop-length_append value crlf, take-length_append value crlf)
        (ok-Gives x (bulk value) left ready max)

  sized_bulk :
      (value : Bytes) (x : Read Bytes)
      → length value ≤ x.reader.maximum_bytes
      → ahead x.reader x.later ≡ (value ++ crlf) ++ rest
      → IsReady x.reader x.later
      → x.reader.maximum_bytes ≡ maximum
      → Gives (bulk_of (some (pos (length value))) x) (bulk value) maximum rest
  unfolding bulk_of
  sized_bulk value x le h q same =
      let small : ltb x.reader.maximum_bytes (length value) ≡ false = ground arith in
      let whole : length (value ++ crlf) ≡ length value + 2 = length-append value crlf in
      rw small (
        bind-Gives (take_bytes (length value + 2) x.reader x.later) (bulk_reply (length value))
          (subst
            (λ n. Gives (take_bytes (length value + 2) x.reader x.later) (value ++ crlf) n rest)
            same
            (subst
              (λ n.
                Gives (take_bytes n x.reader x.later) (value ++ crlf) x.reader.maximum_bytes rest)
              whole (take_bytes-Gives (value ++ crlf) rest x.later x.reader h q)))
          (λ y e left ready max. bulk_value value y e left ready max))

  pub bulk-Gives :
      (value : Bytes) (r : Reader) (later : List Arrival)
      → length value ≤ maximum
      → length (decimal (length value)) ≤ max_digits
      → ahead r later ≡ (decimal (length value) ++ (crlf ++ (value ++ crlf))) ++ rest
      → IsReady r later
      → r.maximum_bytes ≡ maximum
      → Gives (reply_of (parse levels) (36 ∷ []) r later) (bulk value) maximum rest
  unfolding reply_of bytes_eq bulk_of
  bulk-Gives value r later le short h q same =
      after_line _ (decimal (length value)) ((value ++ crlf) ++ rest) rest r later
        (h ∙ append_assoc (decimal (length value)) (crlf ++ (value ++ crlf)) rest)
        (numeral-unbroken (pos (length value))) q same
        (λ x e left ready max.
          subst (λ o. Gives (bulk_of o x) (bulk value) maximum rest)
            (sym (ap int_of e ∙ int_of-decimal (length value) short))
            (sized_bulk value x (subst (λ n. length value ≤ n) (sym max) le) left ready max))
