-- ===== src/Cold/Resp/Roundtrip.antt =====
-- `RESPReader.parse` of scripts/cold_redis_acceptance.py on replies as the protocol writes them.
use kairos_deploy.Base.{
  ℕ, zero, suc, ◌≤◌, ◌≡◌, refl, sym, subst, ap, ◌∙◌, arith, List, [], ◌∷◌, ◌++◌, false, length, ltb,
  append_assoc, append-nil,
}
use kairos_deploy.Base.Bytes.{Bytes, bytes_eq}
use kairos_deploy.Base.Lines.{crlf}
use kairos_deploy.Base.Integers.{pos, decimal, int_of, max_digits}
use kairos_deploy.Base.Numerals.{int_of-decimal}
use kairos_deploy.Cold.Resp.{
  Arrival, Reader, Reply, Replies, line, integer, nothing, bulk, array, nil, cons, max_array,
  parse_items, array_of, reply_of, parse, max_levels, joined_parts, request, new_reader,
}
use kairos_deploy.Cold.Resp.Stream.{arriving, ahead, IsReady, Gives}
use kairos_deploy.Cold.Resp.Encode.{
  size, numeral, encode, encode_all, Fits, AllFit, bulks, PartsFit,
}
use kairos_deploy.Cold.Resp.Kinds.{
  bind-Gives, ok-Gives, numeral-unbroken, after_line, after_prefix, line-Gives, integer-Gives,
  nothing-Gives, bulk-Gives,
}

-- The replies of `levels` levels are given back.
abbrev IsParsed : ℕ → ℕ → Type 0
IsParsed levels maximum =
    (v : Reply) (rest : Bytes) (r : Reader) (later : List Arrival)
    → Fits levels maximum v
    → ahead r later ≡ encode v ++ rest
    → IsReady r later
    → r.maximum_bytes ≡ maximum
    → Gives (parse levels r later) v maximum rest

module _ (levels maximum : ℕ) (rest : Bytes) where
  items-Gives :
      (vs : Replies) (r : Reader) (later : List Arrival)
      → IsParsed levels maximum
      → AllFit levels maximum vs
      → ahead r later ≡ encode_all vs ++ rest
      → IsReady r later
      → r.maximum_bytes ≡ maximum
      → Gives (parse_items (parse levels) (size vs) r later) vs maximum rest
  unfolding parse_items encode_all AllFit
  items-Gives nil r later each fit h q same = record {
    out = record { value = nil; reader = r; later = later };
    returned = refl;
    gives = refl;
    left = h;
    ready = q;
    same_maximum = same;
  }
  items-Gives (cons v vs) r later each (fit, fits) h q same =
      bind-Gives (parse levels r later) _
        (each v (encode_all vs ++ rest) r later fit
          (h ∙ append_assoc (encode v) (encode_all vs) rest) q same)
        (λ x e left ready max.
          bind-Gives (parse_items (parse levels) (size vs) x.reader x.later) _
            (items-Gives vs x.reader x.later each fits left ready max)
            (λ xs es left1 ready1 max1. rw (e, es) (ok-Gives xs (cons v vs) left1 ready1 max1)))

  array-Gives :
      (vs : Replies) (r : Reader) (later : List Arrival)
      → size vs ≤ max_array
      → length (decimal (size vs)) ≤ max_digits
      → IsParsed levels maximum
      → AllFit levels maximum vs
      → ahead r later ≡ (decimal (size vs) ++ (crlf ++ encode_all vs)) ++ rest
      → IsReady r later
      → r.maximum_bytes ≡ maximum
      → Gives (reply_of (parse levels) (42 ∷ []) r later) (array vs) maximum rest
  unfolding reply_of bytes_eq array_of
  array-Gives vs r later few short each fits h q same =
      after_line _ (decimal (size vs)) (encode_all vs ++ rest) rest r later
        (h ∙ append_assoc (decimal (size vs)) (crlf ++ encode_all vs) rest)
        (numeral-unbroken (pos (size vs))) q same
        (λ x e left ready max.
          subst (λ o. Gives (array_of (parse levels) o x) (array vs) maximum rest)
            (sym (ap int_of e ∙ int_of-decimal (size vs) short))
            (let small : ltb max_array (size vs) ≡ false = ground arith in
              rw small (
                bind-Gives (parse_items (parse levels) (size vs) x.reader x.later) _
                  (items-Gives vs x.reader x.later each fits left ready max)
                  (λ xs es left1 ready1 max1. rw es (ok-Gives xs (array vs) left1 ready1 max1)))))

-- The reader gives back a reply within the bounds that is ahead as the protocol writes it, in however
-- many parts it arrives in time, and leaves what is behind it.
pub parse-encode :
    (levels : ℕ) (v : Reply) {maximum : ℕ} (rest : Bytes) (r : Reader) (later : List Arrival)
    → Fits levels maximum v
    → ahead r later ≡ encode v ++ rest
    → IsReady r later
    → r.maximum_bytes ≡ maximum
    → Gives (parse levels r later) v maximum rest
unfolding Fits encode
parse-encode zero v rest r later fit h q same = absurd fit
parse-encode (suc levels) (line text) {maximum} rest r later fit h q same =
    after_prefix levels 43 ((text ++ crlf) ++ rest) rest r later h q same
      (λ r' later' left ready max. line-Gives levels maximum rest text r' later' fit left ready max)
parse-encode (suc levels) (integer n) {maximum} rest r later fit h q same =
    after_prefix levels 58 ((numeral n ++ crlf) ++ rest) rest r later h q same
      (λ r' later' left ready max. integer-Gives levels maximum rest n r' later' fit left ready max)
parse-encode (suc levels) nothing {maximum} rest r later fit h q same =
    after_prefix levels 36 (45 ∷ 49 ∷ (crlf ++ rest)) rest r later h q same
      (λ r' later' left ready max. nothing-Gives levels maximum rest r' later' left ready max)
parse-encode (suc levels) (bulk value) {maximum} rest r later (le, short) h q same =
    after_prefix levels 36 ((decimal (length value) ++ (crlf ++ (value ++ crlf))) ++ rest) rest r
      later h q same
      (λ r' later' left ready max.
        bulk-Gives levels maximum rest value r' later' le short left ready max)
parse-encode (suc levels) (array vs) {maximum} rest r later (few, short, all_fit) h q same =
    after_prefix levels 42 ((decimal (size vs) ++ (crlf ++ encode_all vs)) ++ rest) rest r later h q
      same
      (λ r' later' left ready max.
        array-Gives levels maximum rest vs r' later' few short
          (λ v rest1 r1 later1 fit1 h1 q1 same1.
            parse-encode levels v rest1 r1 later1 fit1 h1 q1 same1)
          all_fit left ready max)

size-bulks : (parts : List Bytes) → size (bulks parts) ≡ length parts
size-bulks [] = refl
size-bulks (part ∷ parts) = rw (size-bulks parts)

joined_parts-bulks : (parts : List Bytes) → joined_parts parts ≡ encode_all (bulks parts)
unfolding joined_parts encode_all encode
joined_parts-bulks [] = refl
joined_parts-bulks (part ∷ parts) =
    let size_of = decimal (length part) in
    let rest = encode_all (bulks parts) in
    rw (joined_parts-bulks parts) (
      ap (λ bs. 36 ∷ bs)
        (sym (
          append_assoc size_of (crlf ++ (part ++ crlf)) rest
          ∙ ap (λ bs. size_of ++ (crlf ++ bs)) (append_assoc part crlf rest))))

request-encode : (parts : List Bytes) → request parts ≡ encode (array (bulks parts))
unfolding request encode
request-encode parts = rw (size-bulks parts, joined_parts-bulks parts)

bulks_fit :
    (levels maximum : ℕ) (parts : List Bytes)
    → PartsFit maximum parts
    → AllFit (suc levels) maximum (bulks parts)
unfolding AllFit Fits
bulks_fit levels maximum [] h = tt
bulks_fit levels maximum (part ∷ parts) (h, hs) = (h, bulks_fit levels maximum parts hs)

-- The request for a command whose parts are within the bounds is read back as the array of its parts,
-- in however many parts it arrives in time.
pub parse-request :
    (parts : List Bytes) (maximum : ℕ) (later : List Arrival)
    → length parts ≤ max_array
    → length (decimal (length parts)) ≤ max_digits
    → PartsFit maximum parts
    → IsReady (new_reader maximum) later
    → arriving later ≡ request parts
    → Gives (parse max_levels (new_reader maximum) later) (array (bulks parts)) maximum []
unfolding Fits
parse-request parts maximum later few short fit ready sent =
    let counted : size (bulks parts) ≡ length parts = size-bulks parts in
    parse-encode max_levels (array (bulks parts)) [] (new_reader maximum) later
      (
        subst (λ n. n ≤ max_array) (sym counted) few,
        subst (λ n. length (decimal n) ≤ max_digits) (sym counted) short,
        bulks_fit 7 maximum parts fit,
      )
      (sent ∙ request-encode parts ∙ sym (append-nil _)) ready refl
