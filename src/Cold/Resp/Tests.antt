-- ===== src/Cold/Resp/Tests.antt =====
-- Concrete runs of the reader of scripts/cold_redis_acceptance.py.
use kairos_deploy.Base.{arith, refl, List, [], ◌∷◌, true}
use kairos_deploy.Base.Bytes.{Bytes, codes}
use kairos_deploy.Base.Integers.{negsuc, decimal, decimal_with}
use kairos_deploy.Cold.Resp.{
  Arrival, Reply, line, integer, nothing, bulk, array, nil, cons, parse, max_levels, request,
  joined_parts, new_reader,
}
use kairos_deploy.Cold.Resp.Stream.{IsReady, Gives}
use kairos_deploy.Cold.Resp.Encode.{encode, Fits, bulks}
use kairos_deploy.Cold.Resp.Roundtrip.{parse-encode, parse-request}

abbrev part : Bytes → Arrival
part bytes = record { in_time = true; data_received = bytes }

abbrev reply : Reply
reply = array (
    cons (bulk (codes "a"))
      (cons (integer (negsuc 6)) (cons (line (codes "OK")) (cons nothing nil))))

-- The reply in parts, one of which breaks a line break.
abbrev reply_parts : List Arrival
reply_parts =
    part (42 ∷ [])
    ∷ part (52 ∷ 13 ∷ [])
    ∷ part (10 ∷ 36 ∷ 49 ∷ 13 ∷ 10 ∷ 97 ∷ 13 ∷ [])
    ∷ part (10 ∷ 58 ∷ 45 ∷ 55 ∷ 13 ∷ 10 ∷ 43 ∷ 79 ∷ 75 ∷ 13 ∷ 10 ∷ 36 ∷ 45 ∷ 49 ∷ 13 ∷ 10 ∷ [])
    ∷ []

reply-Fits : Fits max_levels 64 reply
unfolding Fits decimal decimal_with
reply-Fits =
    (omega arith, omega arith, ((omega arith, omega arith), (omega arith, (refl, (tt, tt)))))

reply_parts-IsReady : IsReady (new_reader 64) reply_parts
reply_parts-IsReady = record { timely = refl; bounded = omega arith }

parse-encode_example : Gives (parse max_levels (new_reader 64) reply_parts) reply 64 []
unfolding encode decimal decimal_with
parse-encode_example =
    parse-encode max_levels reply [] (new_reader 64) reply_parts reply-Fits refl reply_parts-IsReady
      refl

abbrev command : List Bytes
command = codes "INFO" ∷ codes "server" ∷ []

abbrev command_parts : List Arrival
command_parts = part (request command) ∷ []

command_parts-IsReady : IsReady (new_reader 64) command_parts
unfolding request joined_parts decimal decimal_with
command_parts-IsReady = record { timely = refl; bounded = omega arith }

parse-request_example :
    Gives (parse max_levels (new_reader 64) command_parts) (array (bulks command)) 64 []
unfolding request joined_parts decimal decimal_with
parse-request_example =
    parse-request command 64 command_parts (omega arith) (omega arith)
      ((omega arith, omega arith), ((omega arith, omega arith), tt)) command_parts-IsReady refl
