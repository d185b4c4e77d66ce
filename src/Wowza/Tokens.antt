-- ===== src/Wowza/Tokens.antt =====
-- src/modules/wowza/wowza-secure-token.service.ts. The time is in milliseconds; the addresses that
-- `buildPlaybackUrls` gives are an argument.
use Prim.Native.String
use Prim.Native.Char.{code}
use mediavault_backend.Prelude.{
  ℕ, ◌+◌, ◌*◌, ◌/◌, ◌≤◌, ◌<◌, String, Bool, true, false, Option, some, [], ◌∷◌, ◌||◌, ◌≡◌, arith,
  if◌then◌else◌, eqb, get_or, decimal, inl, inr, Bool-cases, Option-cases,
}
use mediavault_backend.Platform.RedisClient.{RedisClient}
use mediavault_backend.Platform.Runtime.{Runtime}
use mediavault_backend.Redis as Redis
use mediavault_backend.Redis.{RedisService, connected}
use mediavault_backend.Redis.Laws.{Serves, exists-set}
use mediavault_backend.Wowza.{PlaybackUrls}

infixr 5 ◌<>◌
abbrev ◌<>◌ : String → String → String
s <> t = String.◌++◌ s t

pub record SecureTokenParams : Type 0 where
  pub stream_name : String
  pub app_name : String
  pub client_ip : Option String
  pub ttl_seconds : Option ℕ

pub record SecureToken : Type 0 where
  pub stream_id : String
  pub app_name : String
  pub stream_name : String
  pub playback_urls : PlaybackUrls
  pub expires_at : String
  pub token_hash : String

abbrev pub token_key : String → String → String
token_key stream_id session_id = "wowza_token:" <> stream_id <> ":" <> session_id

-- `url.includes('?')`.
unfoldable pub has_query : String → Bool
has_query String.[] = false
has_query (String.◌∷◌ c s) = eqb (code c) 63 || has_query s

unfoldable pub append_qs : String → String → String
append_qs qs url = if has_query url then url <> "&" <> qs else url <> "?" <> qs

abbrev pub with_token : String → PlaybackUrls → PlaybackUrls
with_token qs u = record {
  hls = append_qs qs u.hls;
  ll_hls = append_qs qs u.ll_hls;
  dash = append_qs qs u.dash;
  webrtc = append_qs qs u.webrtc;
  rtmp = append_qs qs u.rtmp;
}

abbrev pub ttl_of : SecureTokenParams → ℕ
ttl_of p = get_or p.ttl_seconds 1800

-- `endTime`.
abbrev pub end_time : ℕ → SecureTokenParams → ℕ
end_time now p = now / 1000 + ttl_of p

module _ (rt : Runtime) where
  -- What is signed for a stream, given the secret of the configuration.
  unfoldable pub token_hash_of : ℕ → Option String → SecureTokenParams → String
  token_hash_of now secret p = rt.sha256 (
      rt.utf8 (
        p.stream_name
        <> "-"
        <> decimal (now / 1000)
        <> "-"
        <> decimal (end_time now p)
        <> "-"
        <> get_or p.client_ip ""
        <> "-"
        <> get_or secret ""))

  abbrev pub query_of : ℕ → Option String → SecureTokenParams → String
  query_of now secret p =
      "wowzaTokenStartTime="
      <> decimal (now / 1000)
      <> "&wowzaTokenEndTime="
      <> decimal (end_time now p)
      <> "&wowzaTokenHash="
      <> token_hash_of now secret p

  abbrev pub kept_text : ℕ → Option String → SecureTokenParams → String
  kept_text now secret p = rt.stringify_texts (
      ("tokenHash", token_hash_of now secret p)
      ∷ ("expiresAt", rt.to_iso_string (end_time now p * 1000))
      ∷ ("streamName", p.stream_name)
      ∷ ("appName", p.app_name)
      ∷ [])

module _ (c : RedisClient) (rt : Runtime) where
  unfoldable pub generate_secure_token :
      ℕ
      → Option String
      → PlaybackUrls
      → SecureTokenParams
      → String
      → Option String
      → RedisService c
      → RedisService c × SecureToken
  generate_secure_token now secret urls p session_id stream_id r =
      let id = get_or stream_id p.stream_name in
      (
        Redis.set c now (token_key id session_id) (kept_text rt now secret p) (ttl_of p + 60) r,
        record {
          stream_id = id;
          app_name = p.app_name;
          stream_name = p.stream_name;
          playback_urls = with_token (query_of rt now secret p) urls;
          expires_at = rt.to_iso_string (end_time now p * 1000);
          token_hash = token_hash_of rt now secret p;
        },
      )

  unfoldable pub revoke_token : String → String → RedisService c → RedisService c
  revoke_token stream_id session_id r = Redis.del c (token_key stream_id session_id) r

  unfoldable pub is_token_valid : ℕ → String → String → RedisService c → Bool
  is_token_valid now stream_id session_id r = Redis.exists c now (token_key stream_id session_id) r

  -- A token counts as valid for its lifetime and a minute more, so up to a minute after the time at
  -- which its addresses expire.
  pub is_token_valid-generate :
      (now later : ℕ) (secret : Option String) (urls : PlaybackUrls) (p : SecureTokenParams)
      (session_id : String) (stream_id : Option String) (r : RedisService c)
      → let id = get_or stream_id p.stream_name in
        Serves c now later (token_key id session_id) (kept_text rt now secret p) (ttl_of p + 60) r
        → now ≤ later
        → later < end_time now p * 1000 + 60000
        → let (r', token) = generate_secure_token now secret urls p session_id stream_id r in
          is_token_valid later token.stream_id session_id r' ≡ true
  unfolding generate_secure_token is_token_valid
  is_token_valid-generate now later secret urls p session_id stream_id r h from until =
      let id = get_or stream_id p.stream_name in
      exists-set c now later (ttl_of p + 60) (token_key id session_id) (kept_text rt now secret p) r
        h from (ground arith)

  -- A revocation that Redis takes makes a token invalid at once, for its session and stream.
  is_token_valid-revoke :
      (now : ℕ) (stream_id session_id : String) (r : RedisService c) (server server' : c.Server)
      → connected c r ≡ some server
      → c.del (token_key stream_id session_id) server ≡ some server'
      → is_token_valid now stream_id session_id (revoke_token stream_id session_id r) ≡ false
  unfolding is_token_valid revoke_token Redis.del Redis.exists
  is_token_valid-revoke now stream_id session_id r server server' up taken =
      elim (Bool-cases r.available) [
        | inr off ↦ absurd (ground (arith, up))
        | inl on ↦ elim (Option-cases (c.exists now (token_key stream_id session_id) server')) [
          | inl failed ↦ ground (arith, up, taken)
          | inr (n, answered) ↦ ground (
            arith,
            up,
            taken,
            c.exists-del now (token_key stream_id session_id) server server' n taken answered,
          )
        ]
      ]
