-- ===== src/Tunnel/Tests/Uploads.antt =====
-- What the theorems on upload sessions say with a service that has two blocks.
use mathlib.Core.List.{Mem, Perm, Nodup, Pairwise, Nodup-cons, mem-cons, not-mem-nil}
use mathlib.Core.Logic.Or
use mathlib.Core.List.Perm
use aliyun_odps_go_sdk.Prelude.{
  ℕ, ◌+◌, ◌≡◌, ◌≢◌, ◌↔◌, refl, true, false, none, List, [], ◌∷◌, length, replicate, inl, ◌==◌,
  if◌then◌else◌,
}
use aliyun_odps_go_sdk.Prelude.Int.{ℤ, pos}
use aliyun_odps_go_sdk.Text.{Text, codes}
use aliyun_odps_go_sdk.Text.Unicode.{Unicode}
use aliyun_odps_go_sdk.Outcome.{Outcome, ok, err}
use aliyun_odps_go_sdk.Tunnel.Schema.{to_table_schema}
use aliyun_odps_go_sdk.Tunnel.Upload.{
  UploadSession, UploadModel, UploadError, UploadService, answered, blocks_differ, blocks_agree,
  load, commit,
}
use aliyun_odps_go_sdk.Tunnel.Upload.Status.{zero_status}
use aliyun_odps_go_sdk.Tunnel.Upload.Blocks.{blocks_agree-Perm, blocks_agree-replicate}
use aliyun_odps_go_sdk.Tunnel.Upload.Committed.{commit-ok, commit-differ}

abbrev ascii : Unicode
ascii = record { space = λ c. false; letter = λ c. false; digit = λ c. false; upper = λ c. c }

abbrev blocks : List ℤ
blocks = pos 1 ∷ pos 0 ∷ []

abbrev wanted : List ℤ
wanted = pos 0 ∷ pos 1 ∷ []

zero-ne-one : pos 0 ≢ pos 1
zero-ne-one h = cc

one-ne-zero : pos 1 ≢ pos 0
one-ne-zero h = cc

not-Mem-singleton : (a b : ℤ) → a ≢ b → ¬ Mem a (b ∷ [])
not-Mem-singleton a b ne m = Or.elim (λ x y. absurd x) (mem-cons.0 m) ne not-mem-nil

singleton-Nodup : (a : ℤ) → Nodup (a ∷ [])
singleton-Nodup a = Nodup-cons.1 (not-mem-nil, Pairwise.nil)

wanted-Nodup : Nodup wanted
wanted-Nodup = Nodup-cons.1 (not-Mem-singleton (pos 0) (pos 1) zero-ne-one, singleton-Nodup (pos 1))

blocks_agree-Perm_example : (blocks_agree wanted blocks ≡ true) ↔ Perm wanted blocks
blocks_agree-Perm_example = blocks_agree-Perm wanted blocks wanted-Nodup

blocks_agree-replicate_example :
    (blocks_agree (replicate (length blocks) (pos 1)) blocks ≡ true)
    × (¬ Mem (pos 0) (replicate (length blocks) (pos 1)))
blocks_agree-replicate_example =
    blocks_agree-replicate (pos 1) (pos 0) blocks one-ne-zero (mem-cons.1 ∣ inl refl ∣₁)

abbrev model : UploadModel
model = record {
  max_field_size = pos 100;
  schema = record { is_virtual_view = false; columns = []; partition_keys = [] };
  status = codes "normal";
  upload_id = codes "u";
  quota_name = [];
  uploaded_blocks = blocks;
}

-- The state counts the requests; the first commit fails.
abbrev service : UploadService ℕ Text
service = record {
  load = λ session n. (answered (codes "true") model, n + 1);
  commit_request = λ session. none;
  commit = λ session n. if n == 1 then err (codes "busy") (n + 1) else ok tt (n + 1);
}

abbrev fresh : UploadSession
fresh = record {
  id = [];
  quota_name = [];
  partition_key = [];
  should_transform_date = false;
  field_max_size = pos 0;
  schema = record {
    table_name = [];
    is_virtual_view = false;
    columns = [];
    partition_columns = [];
  };
  status = zero_status;
  block_ids = [];
}

abbrev session_of : Outcome (UploadSession × ℕ) (UploadError Text) (Unit {0}) → UploadSession × ℕ
session_of (ok a st) = st
session_of _ = (fresh, 0)

abbrev current : UploadSession
unfolding load
current = (session_of (load ascii (codes "t") service (fresh, 0))).0

commits : commit ascii (codes "t") service wanted (fresh, 0) ≡ ok tt (current, 3)
unfolding commit current to_table_schema
commits = refl

loads : load ascii (codes "t") service (fresh, 0) ≡ ok tt (current, 1)
unfolding load current to_table_schema
loads = refl

commit-ok_example :
    (s s' : ℕ) × (load ascii (codes "t") service (fresh, 0) ≡ ok tt (current, s))
    × Perm wanted current.block_ids
    × (service.commit current s' ≡ ok tt 3)
commit-ok_example =
    commit-ok ascii (codes "t") service wanted wanted-Nodup (fresh, 0) (current, 3) commits

not-Perm : ¬ Perm (pos 5 ∷ []) blocks
not-Perm p =
    Or.elim (λ x y. absurd x) (mem-cons.0 (Perm.subset p (pos 5) (mem-cons.1 ∣ inl refl ∣₁)))
      (λ e. cc) (not-Mem-singleton (pos 5) (pos 0) λ e. cc)

commit-differ_example :
    commit ascii (codes "t") service (pos 5 ∷ []) (fresh, 0)
    ≡ err (blocks_differ blocks (pos 5 ∷ [])) (current, 1)
unfolding current to_table_schema
commit-differ_example =
    commit-differ ascii (codes "t") service (pos 5 ∷ []) (singleton-Nodup (pos 5)) (fresh, 0)
      current 1 loads not-Perm
