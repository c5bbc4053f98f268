-- ===== src/Tunnel/Tests/Sessions.antt =====
-- What the theorems on stream upload sessions and on `Retry` say with a service that forgets its slots.
use aliyun_odps_go_sdk.Prelude.{
  ℕ, ◌+◌, ◌≡◌, ◌⊎◌, refl, Bool, true, false, List, [], ◌∷◌, arith, length, ◌==◌, if◌then◌else◌, inl,
  inr,
}
use aliyun_odps_go_sdk.Prelude.Int.{pos}
use aliyun_odps_go_sdk.Text.{Text, codes, text_eq}
use aliyun_odps_go_sdk.Text.Decimal.{parse_int, print_int}
use aliyun_odps_go_sdk.Text.Unicode.{Unicode}
use aliyun_odps_go_sdk.Outcome.{Outcome, Fault, ok, err, panic}
use aliyun_odps_go_sdk.Tunnel.Schema.{SchemaModel}
use aliyun_odps_go_sdk.Tunnel.Slot.{Slot, slot_num}
use aliyun_odps_go_sdk.Tunnel.Retry.{retry}
use aliyun_odps_go_sdk.Tunnel.Retry.Tries.{Tried, retry-Tried}
use aliyun_odps_go_sdk.Tunnel.Session.Load.{
  Json, Information, Session, number, text, loaded, create_session,
}
use aliyun_odps_go_sdk.Tunnel.Session.{Service, response, after_put, flush_stream}
use aliyun_odps_go_sdk.Tunnel.Session.Settles.{Settles}
use aliyun_odps_go_sdk.Tunnel.Session.Routing.{Ready}
use aliyun_odps_go_sdk.Tunnel.Session.Flushes.{Run, flush_stream-Run, flush_stream-Settles}
use aliyun_odps_go_sdk.Tunnel.Session.Created.{Created, create_session-Created}
use aliyun_odps_go_sdk.Tunnel.Session.Malformed.{after_put-panic}

abbrev pub ascii : Unicode
ascii = record { space = λ c. false; letter = λ c. false; digit = λ c. false; upper = λ c. c }

abbrev pub first : ℕ → ℕ
first n = 0

abbrev no_columns : SchemaModel
no_columns = record { is_virtual_view = false; columns = []; partition_keys = [] }

abbrev answer : List (List Json) → Information
answer slots = record {
  schema = no_columns;
  session_name = codes "s";
  slots = slots;
  status = codes "normal";
  quota_name = [];
  schema_version = pos 0;
}

abbrev two_slots : List (List Json)
two_slots =
    (number (pos 1) ∷ text (codes "10.0.0.1:80") ∷ [])
    ∷ (number (pos 2) ∷ text (codes "10.0.0.2:80") ∷ [])
    ∷ []

-- A session with one slot, whose slots are to be loaded again.
abbrev pub stale : Session
stale = record {
  id = codes "s";
  schema = record {
    table_name = codes "t";
    is_virtual_view = false;
    columns = [];
    partition_columns = [];
  };
  schema_version = pos 0;
  quota_name = [];
  selector = record {
    index = 0;
    arr = record { id = codes "7"; ip = codes "10.0.0.7"; port = pos 80 } ∷ [];
  };
  slots_stale = true;
}

-- The state counts the requests; a flush is answered with two slots.
abbrev pub two : Service ℕ
two = record {
  reload = λ su n. (loaded (answer two_slots), n + 1);
  put = λ su current bytes count n.
      (response 200 (codes "r") (pos (length bytes)) (codes "2") (codes "10.0.0.1:80"), n + 1);
}

flush_stream-Run_example :
    Run ascii first
      (codes "t")
      two
      (λ su n. (tt, (tt, tt)))
      (1 ∷ 2 ∷ [])
      (pos 1)
      stale
      0
      (flush_stream ascii first (codes "t") two (1 ∷ 2 ∷ []) (pos 1) (stale, 0))
flush_stream-Run_example =
    flush_stream-Run ascii first (codes "t") two (λ su n. (tt, (tt, tt))) (1 ∷ 2 ∷ []) (pos 1) stale
      0 (omega arith)

flush_stream-Settles_example :
    Settles Ready (flush_stream ascii first (codes "t") two (1 ∷ 2 ∷ []) (pos 1) (stale, 0))
flush_stream-Settles_example =
    flush_stream-Settles ascii first (codes "t") two (λ su n. (tt, (tt, tt))) (1 ∷ 2 ∷ []) (pos 1)
      stale 0 (omega arith)

abbrev made : Session
made = record {
  id = codes "s";
  schema = record {
    table_name = codes "t";
    is_virtual_view = false;
    columns = [];
    partition_columns = [];
  };
  schema_version = pos 0;
  quota_name = [];
  selector = record {
    index = 0;
    arr =
        record { id = codes "1"; ip = codes "10.0.0.1"; port = pos 80 }
        ∷ record { id = codes "2"; ip = codes "10.0.0.2"; port = pos 80 }
        ∷ [];
  };
  slots_stale = false;
}

creates : create_session ascii first (codes "t") (pos 0) (loaded (answer two_slots)) ≡ ok tt made
unfolding create_session text_eq parse_int print_int
creates = refl

create_session-Created_example : Created ascii (codes "t") (loaded (answer two_slots)) made
create_session-Created_example =
    create_session-Created ascii first (codes "t") (pos 0) (loaded (answer two_slots)) made creates

-- A reload is answered with the ids of the slots as texts.
abbrev names : Service ℕ
names = record {
  reload =
      λ su n. (loaded (answer ((text (codes "1") ∷ text (codes "10.0.0.1:80") ∷ []) ∷ [])), n + 1);
  put = λ su current bytes count n.
      (response 200 (codes "r") (pos (length bytes)) (codes "2") [], n + 1);
}

abbrev slot_7 : Slot
slot_7 = record { id = codes "7"; ip = codes "10.0.0.7"; port = pos 80 }

after_put-panic_example :
    (fault : Fault) × (after_put ascii first
        (codes "t")
        names
        slot_7
        (response 200 (codes "r") (pos 2) (codes "2") [])
        (stale, 0)
      ≡ panic fault)
unfolding parse_int text_eq slot_num
after_put-panic_example =
    after_put-panic ascii first (codes "t") names stale 0 1 slot_7 200 (codes "r") (codes "2") []
      (pos 2) (pos 2) (answer ((text (codes "1") ∷ text (codes "10.0.0.1:80") ∷ []) ∷ []))
      (text (codes "1") ∷ text (codes "10.0.0.1:80") ∷ []) [] refl refl refl refl refl refl (λ x. x)

-- A call that fails until it has been made three times.
abbrev third_time : ℕ → Outcome ℕ Text (Unit {0})
third_time n = if n == 2 then ok tt (n + 1) else err (codes "busy") (n + 1)

third_time_settles :
    (s : ℕ)
    → ((s' : ℕ) × (third_time s ≡ ok tt s')) ⊎ ((e : Text) × (s' : ℕ) × (third_time s ≡ err e s'))
third_time_settles s = go (s == 2)
  where
    go :
        (b : Bool)
        → let r : Outcome ℕ Text (Unit {0}) =
            if b then ok tt (s + 1) else err (codes "busy") (s + 1) in
          ((s' : ℕ) × (r ≡ ok tt s')) ⊎ ((e : Text) × (s' : ℕ) × (r ≡ err e s'))
    go true = inl (s + 1, refl)
    go false = inr (codes "busy", s + 1, refl)

retry-Tried_example : Tried third_time 0 (retry third_time 0)
retry-Tried_example = retry-Tried third_time third_time_settles 0
