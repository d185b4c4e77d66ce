-- ===== src/Streams/Playback.antt =====
-- `getPlaybackUrl` of src/modules/streams/streams.service.ts over the secure tokens of
-- src/modules/wowza, with the server that src/modules/wowza/wowza.service.ts asks.
use mediavault_backend.Prelude.{
  ℕ, ◌+◌, ◌*◌, ◌/◌, ◌≤◌, ◌<◌, ◌≡◌, arith, ok, true, String, Option, none, some, List, [], ◌∷◌,
  Action, ◌>>=◌, ◌>>◌, pure, state, modify, or_throw, not_found,
}
use mediavault_backend.Platform.Repository.{Repository, by_key}
use mediavault_backend.Platform.RedisClient.{RedisClient}
use mediavault_backend.Platform.Runtime.{Runtime}
use mediavault_backend.Redis.{RedisService}
use mediavault_backend.Redis.Laws.{Serves}
use mediavault_backend.Audit.{AuditLog, text, log_action}
use mediavault_backend.Streams.Stream.{Stream, stream_key, protocol_text}
use mediavault_backend.Wowza.{ServerConfig, build_playback_urls}
use mediavault_backend.Wowza.Tokens.{
  SecureTokenParams, SecureToken, generate_secure_token, token_key, kept_text, is_token_valid,
  is_token_valid-generate,
}

module _ (repo : Repository Stream stream_key) (c : RedisClient) (rt : Runtime) where
  pub record Playback : Type 0 where
    pub streams : repo.Table
    pub redis : RedisService c
    pub audit : List AuditLog

  abbrev pub params_of : Stream → String → SecureTokenParams
  params_of v ip = record {
    stream_name = v.wowza_stream_name;
    app_name = v.wowza_app_name;
    client_ip = some ip;
    ttl_seconds = some 1800;
  }

  -- `server` is the one that `getActiveServer` answers.
  unfoldable pub get_playback_url :
      ℕ → Option String → ServerConfig → String → String → String → Action Playback SecureToken
  unfolding build_playback_urls
  get_playback_url now secret server id session_id ip = do
    s ← state
    v ← or_throw (repo.find_one (by_key stream_key id) s.streams) not_found
    let urls = build_playback_urls server v.wowza_app_name v.wowza_stream_name
    let made =
        generate_secure_token c rt now secret urls (params_of v ip) session_id (some id) s.redis
    modify (λ s. record s { redis = made.0 })
    modify (λ s. record s {
      audit =
          log_action "PLAYBACK_URL_REQUESTED" "Stream" (some id) none none
            (some (("streamId", text id) ∷ ("protocol", text (protocol_text v.protocol)) ∷ []))
            s.audit;
    })
    pure made.1

  -- The link of a stream is registered under the stream and the session for half an hour and a minute,
  -- and a revocation of that pair ends it, if Redis serves.
  get_playback_url-valid :
      (now later : ℕ) (secret : Option String) (server : ServerConfig) (id session_id ip : String)
      (s t : Playback) (v : Stream) (token : SecureToken)
      → repo.find_one (by_key stream_key id) s.streams ≡ some v
      → Serves c now later
          (token_key id session_id)
          (kept_text rt now secret (params_of v ip))
          1860
          s.redis
      → now ≤ later
      → later < now / 1000 * 1000 + 1860000
      → get_playback_url now secret server id session_id ip s ≡ (t, ok token)
      → (is_token_valid c rt later id session_id t.redis ≡ true) × (token.stream_id ≡ id)
  unfolding get_playback_url generate_secure_token
  get_playback_url-valid now later secret server id session_id ip s t v token found h from until
        done =
      let urls = build_playback_urls server v.wowza_app_name v.wowza_stream_name in
      let made =
        generate_secure_token c rt now secret urls (params_of v ip) session_id (some id) s.redis in
      let valid =
        is_token_valid-generate c rt now later secret urls (params_of v ip) session_id (some id)
          s.redis h from (ground arith) in
      (ground (arith, valid), ground arith)
