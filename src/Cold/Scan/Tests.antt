-- ===== src/Cold/Scan/Tests.antt =====
-- Concrete runs of the scan of scripts/cold_redis_acceptance.py.
use kairos_deploy.Base.{
  ℕ, zero, suc, ◌≡◌, refl, subst, sym, ap, some, List, [], ◌∷◌, ◌++◌, ok, take, if◌then◌else◌,
}
use kairos_deploy.Base.Bytes.{Bytes, codes, bytes_eq, split_dash}
use kairos_deploy.Cold.Resp.{Reply, array, nil}
use kairos_deploy.Cold.Scan.{
  Checked, Probe, payload, State, positive_accepted, is_stream_id, is_even, data_fields, is_match,
  on_fields, on_id, on_entry, on_entries, behind_page, on_reply, scan_with, state_of, inspect,
}
use kairos_deploy.Cold.Scan.Walk.{Entry, rows, IsXrange, AreReadable}
use kairos_deploy.Cold.Scan.Verdict.{IsVerdict, inspect-IsVerdict}

-- A message whose payload is its id, with that as its digest.
abbrev probe : Probe Bytes
probe = record {
  message_id = codes "m";
  payload_sha256 = codes "m";
  loads = λ text. payload text;
  id_in = λ payload. some payload;
  digest_of = λ payload. some payload;
}

abbrev entry : Entry
entry = record { id = codes "1-0"; pairs = (codes "data", codes "m") ∷ [] }

abbrev stream : List Entry
stream = entry ∷ []

abbrev page : List Entry → Checked Reply
page es = ok (array (rows es))

abbrev xrange : Bytes → ℕ → Checked Reply
xrange minimum count =
    if bytes_eq minimum (codes "-") then ok (array (rows (take count stream))) else ok (array nil)

take-nil : (count : ℕ) → take {A = Entry} count [] ≡ []
take-nil zero = refl
take-nil (suc count) = refl

nothing_behind :
    (past : List Entry) (e : Entry) (rest : List Entry)
    → stream ≡ (past ++ (e ∷ [])) ++ rest
    → rest ≡ []
nothing_behind [] e rest h = cc
nothing_behind (x ∷ []) e rest h = cc
nothing_behind (x ∷ y ∷ past) e rest h = cc

xrange-IsXrange : IsXrange stream xrange
unfolding bytes_eq
xrange-IsXrange = record {
  from_start = λ count. refl;
  from_entry = λ past e rest count parts.
      subst (λ es. page [] ≡ page (take count es)) (sym (nothing_behind past e rest parts))
        (ap page (sym (take-nil count)));
}

stream-AreReadable : AreReadable probe stream
unfolding is_stream_id split_dash bytes_eq
stream-AreReadable = ((refl, refl), tt)

accepted_once : inspect probe xrange ≡ ok positive_accepted
unfolding inspect scan_with on_reply on_entries on_entry on_id on_fields is_even data_fields
    is_match behind_page state_of is_stream_id split_dash bytes_eq
accepted_once = refl

inspect-IsVerdict_example :
    (state : State) × (inspect probe xrange ≡ ok state) × IsVerdict probe stream state
inspect-IsVerdict_example = inspect-IsVerdict probe stream xrange xrange-IsXrange stream-AreReadable
