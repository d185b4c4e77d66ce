-- ===== src/Ingestion/Args/Masking.antt =====
-- `sanitizeRtspUrl` of src/modules/ingestion/ingestion.service.ts: the first match of
-- `/rtsp:\/\/([^:@]+):([^@]+)@/` is replaced by `rtsp://***:***@`. A user's run holds no `:`, so it
-- ends at the first one, and a password's run at the first `@`: the match needs no backtracking.
use Prim.Native.Char.{Char, code}
use Prim.Native.String
use Prim.Native.String.append
use mediavault_backend.Prelude.{
  String, Bool, true, false, ◌&&◌, ◌||◌, not, Option, none, some, ◌≡◌, refl, inl, inr, Option-cases,
  if◌then◌else◌, eqb, arith,
}

is_at : Char → Bool
is_at c = eqb (code c) b'@'

is_colon : Char → Bool
is_colon c = eqb (code c) b':'

-- What follows `prefix`, if the text begins with it.
after_prefix : String → String → Option String
after_prefix String.[] s = some s
after_prefix (String.◌∷◌ c w) String.[] = none
after_prefix (String.◌∷◌ c w) (String.◌∷◌ d s) =
    if eqb (code c) (code d) then after_prefix w s else none

-- `([^@]+)@`; `seen` says that the run is not empty.
after_password : Bool → String → Option String
unfolding is_at
after_password seen String.[] = none
after_password seen (String.◌∷◌ c s) =
    let rest = after_password true s in if is_at c then (if seen then some s else none) else rest

-- `([^:@]+):([^@]+)@`.
after_user : Bool → String → Option String
unfolding is_colon is_at
after_user seen String.[] = none
after_user seen (String.◌∷◌ c s) =
    let rest = after_user true s in
    if is_colon c
    then (if seen then after_password false s else none)
    else (if is_at c then none else rest)

after_credentials : String → Option String
unfolding after_prefix after_user after_password
after_credentials s = elim (after_prefix "rtsp://" s) [ none ↦ none | some t ↦ after_user false t ]

unfoldable pub sanitize_rtsp_url : String → String
unfolding after_credentials
sanitize_rtsp_url String.[] = String.[]
sanitize_rtsp_url (String.◌∷◌ c s) =
    let rest = sanitize_rtsp_url s in
    elim (after_credentials (String.◌∷◌ c s)) [
      | none ↦ String.◌∷◌ c rest
      | some t ↦ String.◌++◌ "rtsp://***:***@" t
    ]

-- Every character passes the test.
abbrev pub text_all : (Char → Bool) → String → Bool
text_all p String.[] = true
text_all p (String.◌∷◌ c s) = p c && text_all p s

-- What may stand in a user and in a password.
abbrev pub user_char : Char → Bool
user_char c = not (eqb (code c) b':' || eqb (code c) b'@')

abbrev pub password_char : Char → Bool
password_char c = not (eqb (code c) b'@')

after_password-run :
    (pw rest : String)
    → text_all password_char pw ≡ true
    → after_password true (String.◌++◌ pw (String.◌∷◌ "@" rest)) ≡ some rest
unfolding after_password
after_password-run String.[] rest h = rw append.nil (ground arith)
after_password-run (String.◌∷◌ c pw) rest h =
    rw append.cons (ground (arith, after_password-run pw rest))

after_user-run :
    (user rest tail : String)
    → text_all user_char user ≡ true
    → after_password false rest ≡ some tail
    → after_user true (String.◌++◌ user (String.◌∷◌ ":" rest)) ≡ some tail
unfolding after_user
after_user-run String.[] rest tail h e = rw append.nil (ground arith)
after_user-run (String.◌∷◌ c user) rest tail h e =
    rw append.cons (ground (arith, after_user-run user rest tail))

after_password_cons :
    (p : Char) (pw rest : String)
    → text_all password_char (String.◌∷◌ p pw) ≡ true
    → after_password false (String.◌∷◌ p (String.◌++◌ pw (String.◌∷◌ "@" rest))) ≡ some rest
unfolding after_password
after_password_cons p pw rest h = ground (arith, after_password-run pw rest)

-- `rtsp://` followed by `t`, character by character.
abbrev pub rtsp_url : String → String
rtsp_url t = String.◌∷◌ "r" (
    String.◌∷◌ "t"
      (String.◌∷◌ "s" (String.◌∷◌ "p" (String.◌∷◌ ":" (String.◌∷◌ "/" (String.◌∷◌ "/" t))))))

-- `user:password@rest`.
abbrev pub with_credentials : String → String → String → String
with_credentials user pw rest =
    String.◌++◌ user (String.◌∷◌ ":" (String.◌++◌ pw (String.◌∷◌ "@" rest)))

-- A URL with a non-empty user free of `:` and `@` and a non-empty password free of `@` is masked: what
-- follows the `@` is left.
pub sanitize_rtsp_url-masks :
    (u p : Char) (user pw rest : String)
    → text_all user_char (String.◌∷◌ u user) ≡ true
    → text_all password_char (String.◌∷◌ p pw) ≡ true
    → sanitize_rtsp_url (rtsp_url (with_credentials (String.◌∷◌ u user) (String.◌∷◌ p pw) rest))
      ≡ String.◌++◌ "rtsp://***:***@" rest
unfolding sanitize_rtsp_url after_credentials after_prefix after_user
sanitize_rtsp_url-masks u p user pw rest hu hp =
    rw (append.cons u user, append.cons p pw)
      (ground (
        arith,
        after_password_cons p pw rest,
        after_user-run user (String.◌∷◌ p (String.◌++◌ pw (String.◌∷◌ "@" rest))) rest,
      ))

after_password-none :
    (seen : Bool) (s : String) → text_all password_char s ≡ true → after_password seen s ≡ none
unfolding after_password
after_password-none seen String.[] h = refl
after_password-none seen (String.◌∷◌ c s) h = ground (arith, after_password-none true s)

after_user-none :
    (seen : Bool) (s : String) → text_all password_char s ≡ true → after_user seen s ≡ none
unfolding after_user
after_user-none seen String.[] h = refl
after_user-none seen (String.◌∷◌ c s) h =
    ground (arith, after_user-none true s, after_password-none false s)

after_prefix-free :
    (w s t : String)
    → text_all password_char s ≡ true
    → after_prefix w s ≡ some t
    → text_all password_char t ≡ true
unfolding after_prefix
after_prefix-free String.[] s t h e = ground arith
after_prefix-free (String.◌∷◌ c w) String.[] t h e = cc
after_prefix-free (String.◌∷◌ c w) (String.◌∷◌ d s) t h e = ground (arith, after_prefix-free w s t)

-- A URL without `@` carries no credentials and is unchanged.
sanitize_rtsp_url-plain : (s : String) → text_all password_char s ≡ true → sanitize_rtsp_url s ≡ s
unfolding sanitize_rtsp_url after_credentials
sanitize_rtsp_url-plain String.[] h = refl
sanitize_rtsp_url-plain (String.◌∷◌ c s) h =
    elim (Option-cases (after_prefix "rtsp://" (String.◌∷◌ c s))) [
      | inl e ↦ ground (arith, sanitize_rtsp_url-plain s)
      | inr (t, e) ↦ ground (
        arith,
        after_prefix-free "rtsp://" (String.◌∷◌ c s) t,
        after_user-none false t,
        sanitize_rtsp_url-plain s,
      )
    ]
