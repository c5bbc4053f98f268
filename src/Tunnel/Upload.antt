-- ===== src/Tunnel/Upload.antt =====
-- odps/tunnel/upload_session.go: an upload session, the blocks that were uploaded and their commit.
pub mod Blocks
pub mod Status
pub mod Committed
use aliyun_odps_go_sdk.Prelude.{
  ℕ, Bool, true, false, not, ◌&&◌, ◌||◌, Option, none, some, List, [], ◌∷◌, length, ◌==◌,
  if◌then◌else◌,
}
use aliyun_odps_go_sdk.Prelude.Int.{ℤ, eqb_ℤ}
use aliyun_odps_go_sdk.Text.{Text, codes, text_eq}
use aliyun_odps_go_sdk.Text.Unicode.{Unicode, is_empty}
use aliyun_odps_go_sdk.Outcome
use aliyun_odps_go_sdk.Outcome.{Outcome, ok, err, panic, out_of_fuel}
use aliyun_odps_go_sdk.Datatype.Parser.{TypeError}
use aliyun_odps_go_sdk.Tunnel.Schema.{SchemaModel, TableSchema, Parsed, to_table_schema}
use aliyun_odps_go_sdk.Tunnel.Retry.{Waiting, retry}
use Status.{UploadStatus, upload_status_from_str}

-- `UploadSession`, less the settings that no call changes and the Arrow schema, which is made of the
-- schema.
pub record UploadSession : Type 0 where
  pub id : Text
  pub quota_name : Text
  pub partition_key : Text
  pub should_transform_date : Bool
  pub field_max_size : ℤ
  pub schema : TableSchema
  pub status : UploadStatus
  pub block_ids : List ℤ

-- `ResModel` of `loadInformation`, less what is not used.
pub record UploadModel : Type 0 where
  pub max_field_size : ℤ
  pub schema : SchemaModel
  pub status : Text
  pub upload_id : Text
  pub quota_name : Text
  pub uploaded_blocks : List ℤ

-- `E` is what a request fails with.
pub data UploadError (E : Type 0) : Type 0 where
  request_error : E → UploadError E
  schema_error : TypeError → UploadError E
  blocks_differ : List ℤ → List ℤ → UploadError E

-- The answer to a load: none, or one whose body cannot be read, or a whole one; with the header for the
-- transformation of dates.
pub data UploadReply (E : Type 0) : Type 0 where
  no_answer : E → UploadReply E
  not_decoded : Text → E → UploadReply E
  answered : Text → UploadModel → UploadReply E

-- `SetPartitionKey`: `strings.ReplaceAll` of both quotes by nothing.
unfoldable pub remove : ℕ → Text → Text
remove q [] = []
remove q (c ∷ cs) = let rest = remove q cs in if c == q then rest else c ∷ rest

unfoldable pub set_partition_key : Text → UploadSession → UploadSession
unfolding remove
set_partition_key key session = record session { partition_key = remove b'"' (remove 39 key) }

-- The loops of `Commit`.
unfoldable pub is_found : ℤ → List ℤ → Bool
is_found wanted [] = false
is_found wanted (real ∷ reals) = if eqb_ℤ wanted real then true else is_found wanted reals

unfoldable pub all_found : List ℤ → List ℤ → Bool
unfolding is_found
all_found [] reals = true
all_found (wanted ∷ rest) reals =
    if not (is_found wanted reals) then false else all_found rest reals

unfoldable pub blocks_agree : List ℤ → List ℤ → Bool
unfolding all_found
blocks_agree wanted reals =
    if not (length reals == length wanted) then false else all_found wanted reals

module _ {E : Type 0} where
  unfoldable pub with_upload_schema :
      UploadModel
      → UploadSession
      → Unicode
      → Parsed TableSchema
      → Outcome UploadSession (UploadError E) (Unit {0})
  unfolding upload_status_from_str
  with_upload_schema model session u (ok schema _) = ok tt (record session {
    id = model.upload_id;
    field_max_size = model.max_field_size;
    quota_name = if is_empty model.quota_name then session.quota_name else model.quota_name;
    status = upload_status_from_str u model.status;
    schema = schema;
    block_ids = model.uploaded_blocks;
  })
  with_upload_schema model session u (err e _) = err (schema_error e) session
  with_upload_schema model session u (panic fault) = panic fault
  with_upload_schema model session u out_of_fuel = out_of_fuel

  -- `loadInformation`, of a table of that name
  unfoldable pub load_upload :
      Unicode
      → Text
      → UploadReply E
      → UploadSession
      → Outcome UploadSession (UploadError E) (Unit {0})
  unfolding with_upload_schema
  load_upload u table (no_answer e) session = err (request_error e) session
  load_upload u table (not_decoded header e) session =
      err (request_error e)
        (record session { should_transform_date = text_eq header (codes "true") })
  load_upload u table (answered header model) session =
      with_upload_schema model
        (record session { should_transform_date = text_eq header (codes "true") }) u
        (to_table_schema u table model.schema)

-- The tunnel service behind the requests of an upload session, in states of type `S`: the answer to a
-- load, whether the request for a commit can be made, and one try of it.
pub record UploadService (S E : Type 0) : Type 0 where
  pub load : UploadSession → S → UploadReply E × S
  pub commit_request : UploadSession → Option E
  pub commit : UploadSession → S → Outcome S E (Unit {0})

module _ {S E : Type 0} where
  abbrev pub with_service :
      S
      → Outcome UploadSession (UploadError E) (Unit {0})
      → Outcome (UploadSession × S) (UploadError E) (Unit {0})
  with_service s (ok _ session) = ok tt (session, s)
  with_service s (err e session) = err e (session, s)
  with_service s (panic fault) = panic fault
  with_service s out_of_fuel = out_of_fuel

  unfoldable pub after_retry :
      UploadSession
      → Outcome (Waiting S) E (Unit {0})
      → Outcome (UploadSession × S) (UploadError E) (Unit {0})
  after_retry session (ok _ t) = ok tt (session, t.state)
  after_retry session (err e t) = err (request_error e) (session, t.state)
  after_retry session (panic fault) = panic fault
  after_retry session out_of_fuel = out_of_fuel

  -- The request for a commit, if it can be made.
  unfoldable pub request_commit :
      UploadService S E
      → UploadSession
      → S
      → Option E
      → Outcome (UploadSession × S) (UploadError E) (Unit {0})
  unfolding after_retry retry
  request_commit service session s none = after_retry session (retry (service.commit session) s)
  request_commit service session s (some e) = err (request_error e) (session, s)

  module _ (u : Unicode) (table : Text) (service : UploadService S E) where
    -- `Load`
    unfoldable pub load : UploadSession × S → Outcome (UploadSession × S) (UploadError E) (Unit {0})
    unfolding load_upload
    load (session, s) =
        let (reply, s') = service.load session s in
        with_service s' (load_upload u table reply session)

    unfoldable pub commit_loaded :
        List ℤ → UploadSession × S → Outcome (UploadSession × S) (UploadError E) (Unit {0})
    unfolding blocks_agree request_commit
    commit_loaded wanted (session, s) =
        if blocks_agree wanted session.block_ids
        then request_commit service session s (service.commit_request session)
        else err (blocks_differ session.block_ids wanted) (session, s)

    -- `Commit`
    unfoldable pub commit :
        List ℤ → UploadSession × S → Outcome (UploadSession × S) (UploadError E) (Unit {0})
    unfolding load commit_loaded
    commit wanted st = Outcome.bind (load st) λ _. commit_loaded wanted
