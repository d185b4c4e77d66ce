-- ===== src/Evidences/Downloads.antt =====
-- The download links of src/modules/evidences/evidences.service.ts and evidences-storage.service.ts.
use mediavault_backend.Prelude.{
  ℕ, ◌+◌, ◌*◌, ◌≤◌, ◌<◌, String, false, ◌&&◌, Option, none, some, ◌==◌, ◌≡◌, arith, ok, err, not,
  forbidden, Option-cases, Bool-cases, inl, inr, ap,
}
use mediavault_backend.Platform.Repository.Laws.{find_one-key}
use mediavault_backend.Redis as Redis
use mediavault_backend.Redis.{RedisService, connected}
use mediavault_backend.Evidences.Records.{Evidence, EvidenceResponse, Download}
use mediavault_backend.Evidences.Storage.{
  download_key, absolute_path, generate_download_token, resolve_download_token,
  invalidate_download_token,
}
use mediavault_backend.Evidences.State.{EvidenceEnv, Evidences}
use mediavault_backend.Evidences.Service.{
  find_evidence, is_uploader, uploader, find_one, prepare_download,
}

module _ (env : EvidenceEnv) where
  open env use {runtime, redis}

  -- Redis takes the token of an evidence and answers for it later on.
  pub record Served (now later : ℕ) (token id uid : String) (s : Evidences env) : Type 0 where
    pub server : redis.Server
    pub server' : redis.Server
    pub answer : Option String
    pub connects : connected redis s.redis ≡ some server
    pub takes :
        redis.set now (download_key token) (runtime.stringify id uid) 900 server ≡ some server'
    pub answers : redis.get later (download_key token) server' ≡ some answer

  resolve_download_token-generate :
      (now later : ℕ) (token id uid : String) (s : Evidences env)
      → Served now later token id uid s
      → now ≤ later
      → later < now + 1000 * 900
      → resolve_download_token redis runtime later token
          (generate_download_token redis runtime now token id uid s.redis)
        ≡ some (id, uid)
  unfolding resolve_download_token generate_download_token Redis.set Redis.get
  resolve_download_token-generate now later token id uid s h from until =
      let kept =
        redis.get-set_live now later 900 (download_key token) (runtime.stringify id uid) h.server
          h.server' h.answer h.takes from until h.answers in
      ground (
        arith,
        h.connects,
        h.takes,
        h.answers,
        kept,
        runtime.parse-stringify id uid,
        runtime.stringify_nonempty id uid,
      )

  resolve_download_token-invalidate :
      (later : ℕ) (token : String) (r : RedisService redis) (server server' : redis.Server)
      (answer : Option String)
      → connected redis r ≡ some server
      → redis.del (download_key token) server ≡ some server'
      → redis.get later (download_key token) server' ≡ some answer
      → resolve_download_token redis runtime later token
          (invalidate_download_token redis runtime token r)
        ≡ none
  unfolding resolve_download_token invalidate_download_token Redis.get Redis.del
  resolve_download_token-invalidate later token r server server' answer up deleted asked =
      let gone = redis.get-del later (download_key token) server server' answer deleted asked in
      elim (Bool-cases r.available) [ inl on ↦ ground (arith, gone) | inr off ↦ ground arith ]

  -- If Redis serves, the link that a successful view of a stored evidence gives leads to its file,
  -- with its digest, at any time within a quarter of an hour.
  pub prepare_download-find_one :
      (now later : ℕ) (token id uid role : String) (ip : Option String) (s t : Evidences env)
      (e : Evidence) (answer : EvidenceResponse)
      → find_evidence env id s ≡ some e
      → Served now later token id uid s
      → now ≤ later
      → later < now + 1000 * 900
      → find_one env now token id uid role s ≡ (t, ok answer)
      → (answer.download_url ≡ some token)
        × ((prepare_download env later token ip t).1
            ≡ ok (record {
              absolute_path = absolute_path runtime env.root e.storage_path;
              hash_sha256 = e.hash_sha256;
              storage_path = e.storage_path;
              evidence_id = id;
            }))
  unfolding find_one prepare_download
  prepare_download-find_one now later token id uid role ip s t e answer found h from until done =
      let resolved = resolve_download_token-generate now later token id uid s h from until in
      elim (Bool-cases (role == "viewer" && not (is_uploader env uid (uploader env e s)))) [
        | inl foreign ↦ ground arith
        | inr allowed ↦ (ground arith, ground (arith, resolved))
      ]

  -- A link works once: after a download whose token Redis deleted, and while Redis answers, the
  -- same token is forbidden, and the attempt changes nothing.
  pub prepare_download_once :
      (now later : ℕ) (token : String) (ip : Option String) (s t : Evidences env) (d : Download)
      (server server' : redis.Server) (answer : Option String)
      → connected redis s.redis ≡ some server
      → redis.del (download_key token) server ≡ some server'
      → redis.get later (download_key token) server' ≡ some answer
      → prepare_download env now token ip s ≡ (t, ok d)
      → prepare_download env later token ip t ≡ (t, err forbidden)
  unfolding prepare_download
  prepare_download_once now later token ip s t d server server' answer up deleted asked done =
      let refused =
        resolve_download_token-invalidate later token s.redis server server' answer up deleted
          asked in
      elim (Option-cases (resolve_download_token redis runtime now token s.redis)) [
        | inl none' ↦ ground arith
        | inr ((id, uid), resolved) ↦ elim (Option-cases (find_evidence env id s)) [
          | inl absent ↦ ground arith
          | inr (e, found) ↦ let left = ap (λ x. x.0.redis) done in ground (arith, refused)
        ]
      ]

  -- A viewer who did not upload a stored evidence gets no link to it, and nothing changes.
  find_one-foreign :
      (now : ℕ) (token id uid : String) (s : Evidences env) (e : Evidence)
      → find_evidence env id s ≡ some e
      → (e.uploaded_by == uid) ≡ false
      → find_one env now token id uid "viewer" s ≡ (s, err forbidden)
  unfolding find_one
  find_one-foreign now token id uid s e found other = elim (Option-cases (uploader env e s)) [
    | inl absent ↦ ground arith
    | inr (u, named) ↦
        let same = find_one-key env.users s.users e.uploaded_by u named in ground (arith, same)
  ]
