-- ===== src/Evidences/Storage.antt =====
-- src/modules/evidences/evidences-storage.service.ts and evidences-integrity.service.ts. The random
-- part of a token is an argument.
use Prim.Native.String
use mediavault_backend.Prelude.{
  ℕ, String, Bool, true, false, ◌&&◌, Option, none, some, [], ◌∷◌, ◌==◌, if◌then◌else◌, get_or, eqb,
  length,
}
use mediavault_backend.Platform.RedisClient.{RedisClient}
use mediavault_backend.Platform.Runtime.{Runtime, Bytes}
use mediavault_backend.Redis as Redis
use mediavault_backend.Redis.{RedisService}
use mediavault_backend.Evidences.Records.{EvidenceType, type_word, UploadedFile, IntegrityResult}

-- `path`, and `sizeBytes` is the length of the buffer.
pub record SavedFile : Type 0 where
  pub path : String
  pub size_bytes : ℕ

abbrev pub download_key : String → String
download_key token = String.◌++◌ "download:" token

abbrev pub size : Bytes → ℕ
size b = length b

-- `crypto.timingSafeEqual` on buffers of one length.
abbrev pub same_bytes : Bytes → Bytes → Bool
same_bytes [] [] = true
same_bytes [] (b ∷ bs) = false
same_bytes (a ∷ rest) [] = false
same_bytes (a ∷ rest) (b ∷ bs) = eqb a b && same_bytes rest bs

module _ (rt : Runtime) (root : String) where
  abbrev pub absolute_path : String → String
  absolute_path p = rt.join (root ∷ p ∷ [])

  abbrev pub relative_path : ℕ → String → EvidenceType → UploadedFile → String
  relative_path now id t file =
      let (year, month, day) = rt.date_folders now in
      rt.join (
        "evidences"
        ∷ year
        ∷ month
        ∷ day
        ∷ type_word t
        ∷ String.◌++◌ id (String.◌++◌ "." (get_or (rt.extension file.mimetype) "bin"))
        ∷ [])

  -- The files and the answer; a write that rejects leaves them.
  unfoldable pub save_file :
      ℕ → UploadedFile → String → EvidenceType → rt.Files → Option (rt.Files × SavedFile)
  save_file now file id t f =
      let path = relative_path now id t file in
      elim (rt.write_file (absolute_path path) file.buffer f) [
        | none ↦ none
        | some f' ↦ some (f', record { path = path; size_bytes = size file.buffer })
      ]

-- `verifyIntegrity`, given the bytes that are read.
unfoldable pub verify_integrity : (rt : Runtime) → ℕ → Bytes → String → IntegrityResult
verify_integrity rt now b expected =
    let computed = rt.from_hex (rt.sha256 b) in
    let wanted = rt.from_hex expected in
    record {
      is_valid = if eqb (size computed) (size wanted) then same_bytes computed wanted else false;
      computed_hash = rt.sha256 b;
      expected_hash = expected;
      verified_at = now;
    }

module _ (c : RedisClient) (rt : Runtime) where
  unfoldable pub generate_download_token :
      ℕ → String → String → String → RedisService c → RedisService c
  generate_download_token now token id uid r =
      Redis.set c now (download_key token) (rt.stringify id uid) 900 r

  -- `if (!value)` is the case of a missing and of an empty value.
  unfoldable pub resolve_download_token : ℕ → String → RedisService c → Option (String × String)
  resolve_download_token now token r = elim (Redis.get c now (download_key token) r) [
    | none ↦ none
    | some v ↦ if v == "" then none else rt.parse v
  ]

  unfoldable pub invalidate_download_token : String → RedisService c → RedisService c
  invalidate_download_token token r = Redis.del c (download_key token) r
