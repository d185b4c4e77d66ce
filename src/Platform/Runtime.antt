-- ===== src/Platform/Runtime.antt =====
-- What the evidences take from Node and its packages: files, paths, dates, MIME types, digests,
-- encodings and JSON. A command on a file answers `none` when its promise rejects.
use mediavault_backend.Prelude.{ℕ, String, Option, Bool, true, false, some, List, Map, ◌≡◌, ◌==◌}

abbrev pub Bytes : Type 0
Bytes = List ℕ

pub record Runtime : Type 1 where
  pub Files : Type 0
  pub write_file : String → Bytes → Files → Option Files
  pub read_file : String → Files → Option Bytes
  pub read_file-write_file :
      (path : String) (b : Bytes) (f f' : Files)
      → write_file path b f ≡ some f'
      → read_file path f' ≡ some b
  -- `fs.existsSync`.
  pub exists : String → Files → Bool
  pub exists-read_file :
      (path : String) (f : Files) (b : Bytes) → read_file path f ≡ some b → exists path f ≡ true
  -- `path.join`.
  pub join : List String → String
  -- The year, and the month and the day with two digits, of a time.
  pub date_folders : ℕ → String × String × String
  -- `new Date(text).getTime()`.
  pub date_ms : String → ℕ
  -- `mime.extension`, unless it answers false.
  pub extension : String → Option String
  -- The SHA-256 digest in hexadecimal digits.
  pub sha256 : Bytes → String
  pub utf8 : String → Bytes
  pub from_base64 : String → Bytes
  pub from_hex : String → Bytes
  -- `JSON.stringify({ evidenceId, userId })`; `JSON.parse` throws at `none`.
  pub stringify : String → String → String
  pub parse : String → Option (String × String)
  pub parse-stringify :
      (evidence_id user_id : String)
      → parse (stringify evidence_id user_id) ≡ some (evidence_id, user_id)
  -- The text of an object has its braces.
  pub stringify_nonempty :
      (evidence_id user_id : String) → (stringify evidence_id user_id == "") ≡ false
  -- `JSON.stringify` of an object of texts, and `new Date(ms).toISOString()`.
  pub stringify_texts : Map String → String
  pub to_iso_string : ℕ → String
