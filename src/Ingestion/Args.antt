-- ===== src/Ingestion/Args.antt =====
-- The FFmpeg command line of src/modules/ingestion/ingestion.service.ts: its arguments, the check
-- of the extra ones, and the masking of the camera's credentials.
pub mod Masking
use Prim.Native.Char.{code}
use Prim.Native.String
use text.Mathlib.Text.{starts_with}
use mediavault_backend.Prelude.{
  ℕ, String, Bool, true, false, ◌||◌, ◌&&◌, not, Option, none, some, List, [], ◌∷◌, ◌++◌, ◌==◌,
  if◌then◌else◌, eqb, leb, get_or, any, ◌+◌,
}
use mediavault_backend.Ingestion.Config.{
  StreamTransportProtocol, tcp, udp, VideoCodecStrategy, AudioCodecStrategy, RtspCameraConfig,
}

-- What `ConfigService.get` returns for `wowza.host` and `wowza.streamPort`, the port as it is
-- interpolated.
pub record WowzaSettings : Type 0 where
  pub host : Option String
  pub stream_port : Option String

abbrev pub transport_arg : StreamTransportProtocol → String
transport_arg tcp = "tcp"
transport_arg udp = "udp"

abbrev pub video_arg : VideoCodecStrategy → String
video_arg VideoCodecStrategy.copy = "copy"
video_arg VideoCodecStrategy.h264 = "libx264"
video_arg VideoCodecStrategy.h265 = "libx265"

-- `audioCodec === 'none'` selects `-an`.
abbrev pub audio_args : AudioCodecStrategy → List String
audio_args AudioCodecStrategy.none = "-an" ∷ []
audio_args AudioCodecStrategy.copy = "-c:a" ∷ "copy" ∷ []
audio_args AudioCodecStrategy.aac = "-c:a" ∷ "aac" ∷ []

-- `o || d` on texts: the empty text is falsy.
abbrev pub text_or : Option String → String → String
text_or none d = d
text_or (some s) d = if s == "" then d else s

infixr 65 ◌<>◌
abbrev pub ◌<>◌ : String → String → String
s <> t = String.◌++◌ s t

unfoldable pub rtmp_dest : WowzaSettings → RtspCameraConfig → String
rtmp_dest w c =
    "rtmp://"
    <> text_or w.host "localhost"
    <> ":"
    <> text_or w.stream_port "1935"
    <> "/"
    <> c.wowza_app_name
    <> "/"
    <> c.stream_name

unfoldable pub build_ffmpeg_args : WowzaSettings → RtspCameraConfig → List String
unfolding rtmp_dest
build_ffmpeg_args w c =
    ("-rtsp_transport"
      ∷ transport_arg c.transport
      ∷ "-i"
      ∷ c.rtsp_url
      ∷ "-c:v"
      ∷ video_arg c.video_codec
      ∷ [])
    ++ (audio_args c.audio_codec
        ++ ("-f" ∷ "flv" ∷ [])
        ++ get_or c.ffmpeg_extra_args []
        ++ rtmp_dest w c ∷ [])

-- One character of `[a-z]`, folded as the flag `i` does for ASCII.
fold_case : ℕ → ℕ
fold_case c = if leb b'A' c && leb c b'Z' then c + 32 else c

-- `s` begins with the lower-case `word`, whatever its case.
begins_word : String → String → Bool
unfolding fold_case
begins_word String.[] s = true
begins_word (String.◌∷◌ c w) String.[] = false
begins_word (String.◌∷◌ c w) (String.◌∷◌ d s) = eqb (fold_case (code d)) (code c) && begins_word w s

-- `/shell|exec|system/i.test(s)`.
unfoldable pub dangerous : String → Bool
unfolding begins_word
dangerous String.[] = false
dangerous (String.◌∷◌ c s) =
    let here =
      begins_word "shell" (String.◌∷◌ c s)
      || begins_word "exec" (String.◌∷◌ c s)
      || begins_word "system" (String.◌∷◌ c s) in
    here || dangerous s

-- `validateExtraArgs`: true when no argument is refused.
unfoldable pub validate_extra_args : List String → Bool
unfolding dangerous
validate_extra_args args =
    not (any (λ arg. starts_with arg "-filter_complex" && dangerous arg) args)
