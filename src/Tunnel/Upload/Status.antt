-- ===== src/Tunnel/Upload/Status.antt =====
-- `UploadStatus` of odps/tunnel/upload_session.go.
use aliyun_odps_go_sdk.Prelude.{List, [], ◌∷◌, map, if◌then◌else◌}
use aliyun_odps_go_sdk.Text.{Text, codes, text_eq}
use aliyun_odps_go_sdk.Text.Unicode.{Unicode, to_upper}

pub data UploadStatus : Type 0 where
  zero_status unknown normal closing closed canceled expired critical committing : UploadStatus

-- The cases of the switch of `UploadStatusFromStr`, in their order.
abbrev pub statuses : List (Text × UploadStatus)
statuses =
    (codes "NORMAL", normal)
    ∷ (codes "CLOSING", closing)
    ∷ (codes "CLOSED", closed)
    ∷ (codes "CANCELED", canceled)
    ∷ (codes "EXPIRED", expired)
    ∷ (codes "CRITICAL", critical)
    ∷ (codes "COMMITTING", committing)
    ∷ []

unfoldable pub find_status : Text → List (Text × UploadStatus) → UploadStatus
unfolding text_eq
find_status s [] = unknown
find_status s ((t, status) ∷ cases) = if text_eq s t then status else find_status s cases

unfoldable pub upload_status_from_str : Unicode → Text → UploadStatus
unfolding find_status to_upper
upload_status_from_str u s = find_status (map (to_upper u) s) statuses

-- `UploadStatus.String`
unfoldable pub status_string : UploadStatus → Text
status_string zero_status = codes "UNKNOWN"
status_string unknown = codes "UNKNOWN"
status_string normal = codes "NORMAL"
status_string closing = codes "CLOSING"
status_string closed = codes "CLOSED"
status_string canceled = codes "CANCELED"
status_string expired = codes "EXPIRED"
status_string critical = codes "CRITICAL"
status_string committing = codes "COMMITTING"
