-- ===== src/Aof/Reader/Cursor.antt =====
-- How the cursor of the reader moves over the bytes, and where line breaks are found.
use kairos_deploy.Base.{
  ◌≡◌, sym, ap, ◌∙◌, ◌++◌, append_assoc, arith, length, drop, length-append, drop-add,
  drop-length_append,
}
use kairos_deploy.Base.Bytes.{Bytes}
use kairos_deploy.Aof.Reader.{Reader, remaining, advance}

-- From `r` the reader passed over the bytes `w` and stands at `r'`.
pub record Passes (r : Reader) (w : Bytes) (r' : Reader) : Type 0 where
  pub moved : r' ≡ advance (length w) r
  pub read : remaining r ≡ w ++ remaining r'

-- The bytes left behind a prefix of what was left.
pub remaining-advance :
    (r : Reader) (w rest : Bytes)
    → remaining r ≡ w ++ rest
    → remaining (advance (length w) r) ≡ rest
remaining-advance r w rest h =
    drop-add r.offset (length w) r.input ∙ (ap (drop (length w)) h ∙ drop-length_append w rest)

pub Passes-advance :
    (r : Reader) (w rest : Bytes) {r' : Reader}
    → remaining r ≡ w ++ rest
    → r' ≡ advance (length w) r
    → Passes r w r'
Passes-advance r w rest h e = record { moved = e; read = rw (e, remaining-advance r w rest h) h }

pub Passes-trans :
    {r r' r'' : Reader} (v w : Bytes) → Passes r v r' → Passes r' w r'' → Passes r (v ++ w) r''
Passes-trans {r} {r'} {r''} v w p q = record {
  moved = ground (arith, p.moved, q.moved, length-append v w);
  read = p.read ∙ (ap (λ t. v ++ t) q.read ∙ sym (append_assoc v w (remaining r'')));
}
