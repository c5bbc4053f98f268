-- ===== src/Tunnel/Tests/Uploaded.antt =====
-- What the theorem on a pack over a stream upload session says of one record and a stale session.
use aliyun_odps_go_sdk.Prelude.{ℕ, ◌≡◌, refl, true, [], ◌∷◌, arith}
use aliyun_odps_go_sdk.Prelude.Int.{ℤ, pos, ◌+ℤ◌}
use aliyun_odps_go_sdk.Text.{Text, codes}
use aliyun_odps_go_sdk.Text.Decimal.{parse_int, print_int}
use aliyun_odps_go_sdk.Words.{Bytes}
use aliyun_odps_go_sdk.Outcome.{Outcome, ok, err}
use aliyun_odps_go_sdk.Tunnel.Writer.{write, write_integer, close, new_record_writer}
use aliyun_odps_go_sdk.Tunnel.Session.Load.{Session, SessionError}
use aliyun_odps_go_sdk.Tunnel.Session.{flush_stream}
use aliyun_odps_go_sdk.Tunnel.Pack.{Pack, PackOutcome, Answer, new_pack, append, flush}
use aliyun_odps_go_sdk.Tunnel.Pack.Steps.{Reached, opened, called, appended}
use aliyun_odps_go_sdk.Tunnel.Pack.Uploaded.{Uploaded, flush-Uploaded}
use aliyun_odps_go_sdk.Tunnel.Tests.Wire.{wire, wire_laws}
use aliyun_odps_go_sdk.Tunnel.Tests.Packs.{one_column, five, keep, five-AllFit}
use aliyun_odps_go_sdk.Tunnel.Tests.Sessions.{ascii, first, stale, two}

abbrev State : Type 0
State = Session × ℕ

abbrev flush_two : Bytes → ℤ → State → Outcome State SessionError (Text × ℤ)
flush_two bytes count = flush_stream ascii first (codes "t") two bytes count

abbrev pack_of : {A : Type 0} → PackOutcome State SessionError A → Pack State SessionError
pack_of (ok a p) = p
pack_of (err e p) = p
pack_of _ = new_pack one_column (stale, 0)

abbrev answer_of : PackOutcome State SessionError Answer → Answer
answer_of (ok a p) = a
answer_of _ = ([], pos 0, pos 0)

abbrev full : Pack State SessionError
unfolding append new_pack
full = pack_of (append wire one_column true five (new_pack one_column (stale, 0)))

abbrev flushed : PackOutcome State SessionError Answer
unfolding flush
flushed = flush wire one_column flush_two full

five_appended : append wire one_column true five (new_pack one_column (stale, 0)) ≡ ok tt full
unfolding append new_pack full write new_record_writer write_integer
five_appended = refl

reached : Reached wire one_column true flush_two full (five ∷ [])
reached = called (opened (stale, 0)) (appended five five_appended refl)

uploads : flush wire one_column flush_two full ≡ ok (answer_of flushed) (pack_of flushed)
unfolding flush append new_pack full flushed write new_record_writer write_integer close ◌+ℤ◌
    flush_stream parse_int print_int
uploads = refl

flush-Uploaded_example :
    Uploaded wire wire_laws one_column true ascii first
      (codes "t")
      two
      (λ su n. (tt, (tt, tt)))
      keep
      []
      (five ∷ [])
      (stale, 0)
      (pack_of flushed).session
      (answer_of flushed)
unfolding full write new_record_writer write_integer
flush-Uploaded_example =
    flush-Uploaded wire wire_laws one_column true ascii first (codes "t") two
      (λ su n. (tt, (tt, tt))) keep [] full (five ∷ []) (answer_of flushed) (pack_of flushed)
      reached (cc) (omega arith) five-AllFit (omega arith) (omega arith) uploads
