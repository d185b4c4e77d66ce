-- ===== src/Ingestion/Shown.antt =====
-- The command line that the state of a stream in src/modules/ingestion/ingestion.service.ts shows.
use Prim.Native.Char.{Char, code}
use Prim.Native.String.append
use mediavault_backend.Prelude.{
  ℕ, String, Bool, true, false, ◌&&◌, Option, some, List, [], ◌∷◌, ◌++◌, ◌==◌, ◌≡◌, map, any, refl,
  arith, eqb, eq_iff, eq_refl, ok, get_or, if◌then◌else◌, ap, ◌∙◌, Bool-cases, inl, inr,
}
use mediavault_backend.Paging.Pages.{map-append}
use mediavault_backend.Ingestion.Config.{
  StreamTransportProtocol, tcp, udp, VideoCodecStrategy, AudioCodecStrategy, RtspCameraConfig,
}
use mediavault_backend.Ingestion.Args.{
  WowzaSettings, ◌<>◌, audio_args, video_arg, transport_arg, rtmp_dest, build_ffmpeg_args,
}
use mediavault_backend.Ingestion.Args.Masking.{
  sanitize_rtsp_url, text_all, user_char, password_char, rtsp_url, with_credentials,
  sanitize_rtsp_url-masks,
}
use mediavault_backend.Ingestion.Service.{
  IngestionService, join_with, shown_command, register, spawn_ffmpeg, start_ingestion,
}

-- The text begins as the address of a camera does.
begins_rtsp : String → Bool
begins_rtsp String.[] = false
begins_rtsp (String.◌∷◌ c String.[]) = false
begins_rtsp (String.◌∷◌ c (String.◌∷◌ d String.[])) = false
begins_rtsp (String.◌∷◌ c (String.◌∷◌ d (String.◌∷◌ e s))) =
    eqb (code c) b'r' && eqb (code d) b't' && eqb (code e) b's'

begins_rtsp-apart : (a u : String) → begins_rtsp a ≡ false → begins_rtsp u ≡ true → (a == u) ≡ false
begins_rtsp-apart a u h k = elim (Bool-cases (a == u)) [
  | inr n ↦ n
  | inl y ↦ absurd (ground (arith, ap begins_rtsp ((eq_iff a u).0 y)))
]

begins_rtsp-url : (t : String) → begins_rtsp (rtsp_url t) ≡ true
unfolding begins_rtsp
begins_rtsp-url t = refl

begins_rtsp-dest : (s : String) → begins_rtsp ("rtmp://" <> s) ≡ false
unfolding begins_rtsp
begins_rtsp-dest s =
    rw (append.cons "r" "tmp://" s, append.cons "t" "mp://" s, append.cons "m" "p://" s) refl

begins_rtsp-transport : (t : StreamTransportProtocol) → begins_rtsp (transport_arg t) ≡ false
unfolding begins_rtsp
begins_rtsp-transport tcp = refl
begins_rtsp-transport udp = refl

begins_rtsp-video : (v : VideoCodecStrategy) → begins_rtsp (video_arg v) ≡ false
unfolding begins_rtsp
begins_rtsp-video VideoCodecStrategy.copy = refl
begins_rtsp-video VideoCodecStrategy.h264 = refl
begins_rtsp-video VideoCodecStrategy.h265 = refl

begins_rtsp-audio : (k : AudioCodecStrategy) → any begins_rtsp (audio_args k) ≡ false
unfolding begins_rtsp
begins_rtsp-audio AudioCodecStrategy.none = refl
begins_rtsp-audio AudioCodecStrategy.copy = refl
begins_rtsp-audio AudioCodecStrategy.aac = refl

-- The masking of one argument, for the address `u`.
abbrev mask : String → String → String
mask u a = if a == u then sanitize_rtsp_url u else a

mask-apart : (u a : String) → begins_rtsp u ≡ true → begins_rtsp a ≡ false → mask u a ≡ a
mask-apart u a h k = rw (begins_rtsp-apart a u k h) refl

mask_self : (u : String) → mask u u ≡ sanitize_rtsp_url u
mask_self u = rw (eq_refl u) refl

map-mask-none :
    (u : String) (xs : List String) → any (λ a. a == u) xs ≡ false → map (mask u) xs ≡ xs
map-mask-none u [] h = refl
map-mask-none u (x ∷ xs) h = ground (arith, map-mask-none u xs)

map-mask-apart :
    (u : String) (xs : List String)
    → begins_rtsp u ≡ true
    → any begins_rtsp xs ≡ false
    → map (mask u) xs ≡ xs
map-mask-apart u [] h k = refl
map-mask-apart u (x ∷ xs) h k = ground (arith, map-mask-apart u xs h, begins_rtsp-apart x u)

map-mask-append :
    (u : String) (xs ys : List String)
    → map (mask u) xs ≡ xs
    → map (mask u) ys ≡ ys
    → map (mask u) (xs ++ ys) ≡ xs ++ ys
map-mask-append u xs ys h k =
    map-append (mask u) xs ys ∙ ap (λ l. l ++ map (mask u) ys) h ∙ ap (λ l. xs ++ l) k

-- The arguments after the codec of the video.
abbrev rest_args : WowzaSettings → RtspCameraConfig → List String
rest_args w c =
    audio_args c.audio_codec
    ++ ("-f" ∷ "flv" ∷ [])
    ++ get_or c.ffmpeg_extra_args []
    ++ rtmp_dest w c ∷ []

map-mask-rest :
    (w : WowzaSettings) (c : RtspCameraConfig)
    → begins_rtsp c.rtsp_url ≡ true
    → any (λ a. a == c.rtsp_url) (get_or c.ffmpeg_extra_args []) ≡ false
    → map (mask c.rtsp_url) (rest_args w c) ≡ rest_args w c
unfolding rtmp_dest begins_rtsp
map-mask-rest w c h k =
    let u = c.rtsp_url in
    let dest = map-mask-apart u (rtmp_dest w c ∷ []) h (rw (begins_rtsp-dest _) refl) in
    let format = map-mask-apart u ("-f" ∷ "flv" ∷ []) h refl in
    let extra = map-mask-none u (get_or c.ffmpeg_extra_args []) k in
    let audio = map-mask-apart u (audio_args c.audio_codec) h (begins_rtsp-audio c.audio_codec) in
    map-mask-append u _ (rtmp_dest w c ∷ [])
      (map-mask-append u _ (get_or c.ffmpeg_extra_args [])
        (map-mask-append u (audio_args c.audio_codec) ("-f" ∷ "flv" ∷ []) audio format) extra)
      dest

-- A masked command line is that of the masked address.
map-mask-args :
    (w : WowzaSettings) (c : RtspCameraConfig)
    → begins_rtsp c.rtsp_url ≡ true
    → any (λ a. a == c.rtsp_url) (get_or c.ffmpeg_extra_args []) ≡ false
    → map (mask c.rtsp_url) (build_ffmpeg_args w c)
      ≡ build_ffmpeg_args w (record c { rtsp_url = sanitize_rtsp_url c.rtsp_url })
unfolding build_ffmpeg_args begins_rtsp
map-mask-args w c h k =
    let u = c.rtsp_url in
    rw
      (
        mask-apart u "-rtsp_transport" h refl,
        mask-apart u (transport_arg c.transport) h (begins_rtsp-transport c.transport),
        mask-apart u "-i" h refl,
        mask_self u,
        mask-apart u "-c:v" h refl,
        mask-apart u (video_arg c.video_codec) h (begins_rtsp-video c.video_codec),
        map-mask-rest w c h k,
      )
      refl

start_ingestion-shown :
    (w : WowzaSettings) (now : ℕ) (pid : Option ℕ) (c : RtspCameraConfig) (r : ℕ)
    (s : IngestionService)
    → (start_ingestion w now pid c s).1 ≡ ok r
    → ((start_ingestion w now pid c s).0.objects r).ffmpeg_command ≡ some (shown_command w c)
unfolding start_ingestion register spawn_ffmpeg
start_ingestion-shown w now pid c r s e = ground arith

-- After a successful start for an address with a non-empty user free of `:` and `@` and a non-empty
-- password free of `@`, which is not an extra argument as well, the command that the state shows is
-- the command line for the address with `***:***` in place of the user and the password.
pub shown_command-masks :
    (w : WowzaSettings) (now : ℕ) (pid : Option ℕ) (c : RtspCameraConfig) (u p : Char)
    (user pw rest : String) (r : ℕ) (s : IngestionService)
    → text_all user_char (String.◌∷◌ u user) ≡ true
    → text_all password_char (String.◌∷◌ p pw) ≡ true
    → c.rtsp_url ≡ rtsp_url (with_credentials (String.◌∷◌ u user) (String.◌∷◌ p pw) rest)
    → any (λ a. a == c.rtsp_url) (get_or c.ffmpeg_extra_args []) ≡ false
    → (start_ingestion w now pid c s).1 ≡ ok r
    → ((start_ingestion w now pid c s).0.objects r).ffmpeg_command
      ≡ some (
          join_with " "
            ("ffmpeg" ∷ build_ffmpeg_args w (record c { rtsp_url = "rtsp://***:***@" <> rest })))
unfolding shown_command
shown_command-masks w now pid c u p user pw rest r s hu hp e k started =
    let rtsp : begins_rtsp c.rtsp_url ≡ true = ap begins_rtsp e ∙ begins_rtsp-url _ in
    let masked : sanitize_rtsp_url c.rtsp_url ≡ "rtsp://***:***@" <> rest =
      ap sanitize_rtsp_url e ∙ sanitize_rtsp_url-masks u p user pw rest hu hp in
    start_ingestion-shown w now pid c r s started
    ∙ ap (λ l. some (join_with " " ("ffmpeg" ∷ l))) (map-mask-args w c rtsp k)
    ∙ ap
        (λ (a : String).
          some (join_with " " ("ffmpeg" ∷ build_ffmpeg_args w (record c { rtsp_url = a }))))
        masked
