-- ===== src/Tunnel/Upload/Committed.antt =====
-- The commits of an upload session.
use mathlib.Core.List.{Perm, Nodup}
use aliyun_odps_go_sdk.Prelude.{
  ◌≡◌, refl, sym, ap, ◌∙◌, Bool, true, false, Option, none, some, List, Bool-cases, inl, inr,
  if◌then◌else◌,
}
use aliyun_odps_go_sdk.Prelude.Int.{ℤ}
use aliyun_odps_go_sdk.Text.{Text}
use aliyun_odps_go_sdk.Text.Unicode.{Unicode}
use aliyun_odps_go_sdk.Outcome.{Outcome, ok, err, panic, out_of_fuel, bind-eq-ok}
use aliyun_odps_go_sdk.Tunnel.Retry.{Waiting, retry}
use aliyun_odps_go_sdk.Tunnel.Retry.Tries.{retry-ok}
use aliyun_odps_go_sdk.Tunnel.Upload.{
  UploadSession, UploadService, blocks_differ, blocks_agree, after_retry, request_commit, load,
  commit_loaded, commit,
}
use aliyun_odps_go_sdk.Tunnel.Upload.Blocks.{blocks_agree-Perm}

module _ {S E : Type 0} where
  after_retry-ok :
      (session : UploadSession) (o : Outcome (Waiting S) E (Unit {0})) {st : UploadSession × S}
      → after_retry session o ≡ ok tt st
      → (t : Waiting S) × (o ≡ ok tt t) × ((session, t.state) ≡ st)
  unfolding after_retry
  after_retry-ok session (ok _ t) h = (t, refl, cc)
  after_retry-ok session (err e t) h = cc
  after_retry-ok session (panic fault) h = cc
  after_retry-ok session out_of_fuel h = cc

  request_commit-ok :
      (service : UploadService S E) (session : UploadSession) (s : S) (o : Option E)
      {st : UploadSession × S}
      → request_commit service session s o ≡ ok tt st
      → (session ≡ st.0) × (s' : S) × (service.commit session s' ≡ ok tt st.1)
  unfolding request_commit
  request_commit-ok service session s none h =
      let (t, tried, same) = after_retry-ok session (retry (service.commit session) s) h in
      let (s', fine) = retry-ok (service.commit session) s t tried in
      (ap (λ p. p.0) same, s', fine ∙ ap (λ p. ok tt (p.1)) same)
  request_commit-ok service session s (some e) h = cc

  module _ (u : Unicode) (table : Text) (service : UploadService S E) (wanted : List ℤ)
      (once : Nodup wanted) where
    commit_loaded-ok :
        (st : UploadSession × S) {st' : UploadSession × S}
        → commit_loaded u table service wanted st ≡ ok tt st'
        → (st.0 ≡ st'.0)
          × Perm wanted st.0.block_ids
          × (s : S) × (service.commit st.0 s ≡ ok tt st'.1)
    unfolding commit_loaded
    commit_loaded-ok (session, s) {st'} h = go (blocks_agree wanted session.block_ids) refl h
      where
        go :
            (b : Bool)
            → blocks_agree wanted session.block_ids ≡ b
            → (if b
                then request_commit service session s (service.commit_request session)
                else err (blocks_differ session.block_ids wanted) (session, s))
              ≡ ok tt st'
            → (session ≡ st'.0)
              × Perm wanted session.block_ids
              × (s' : S) × (service.commit session s' ≡ ok tt st'.1)
        go true e h =
            let (same, s', fine) =
              request_commit-ok service session s (service.commit_request session) h in
            (same, (blocks_agree-Perm wanted session.block_ids once).0 e, s', fine)
        go false e h = cc

    -- For a list that names no block twice, and with any service: a `Commit` that returns no error has
    -- loaded the session with no error, the list is a permutation of the blocks that the service
    -- had then, and a request to commit the session as loaded was answered with no error; the
    -- session stays as loaded.
    pub commit-ok :
        (st st' : UploadSession × S)
        → commit u table service wanted st ≡ ok tt st'
        → (s s' : S) × (load u table service st ≡ ok tt (st'.0, s))
          × Perm wanted st'.0.block_ids
          × (service.commit st'.0 s' ≡ ok tt st'.1)
    unfolding commit
    commit-ok st st' h =
        let (_, loaded, e, h') =
          bind-eq-ok (load u table service st) (λ _. commit_loaded u table service wanted) h in
        let (same, p, s', fine) = commit_loaded-ok loaded h' in
        rw (sym same) (loaded.1, s', e, p, fine)

    -- For a list that names no block twice and is no permutation of the blocks that the service has
    -- when the session is loaded, `Commit` returns the error of blocks that differ, and sends no
    -- request behind the load.
    pub commit-differ :
        (st : UploadSession × S) (session : UploadSession) (s : S)
        → load u table service st ≡ ok tt (session, s)
        → ¬ Perm wanted session.block_ids
        → commit u table service wanted st
          ≡ err (blocks_differ session.block_ids wanted) (session, s)
    unfolding commit commit_loaded
    commit-differ st session s e other = elim (Bool-cases (blocks_agree wanted session.block_ids)) [
      | inl agree ↦ absurd (other ((blocks_agree-Perm wanted session.block_ids once).0 agree))
      | inr differ ↦ rw (e, differ)
    ]
