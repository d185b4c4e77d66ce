-- ===== src/Audit/Reading.antt =====
-- The export of src/modules/audit/audit.service.ts, read back: an independent reader of
-- comma-separated values, whose last field is quoted, and the round trip.
use Prim.Native.Char.{Char, code}
use Prim.Native.String.append
use mediavault_backend.Prelude.{
  ℕ, zero, suc, String, Bool, true, false, not, ◌&&◌, ◌||◌, Option, none, some, List, [], ◌∷◌, map,
  ◌≡◌, refl, arith, if◌then◌else◌, eqb, ltb, length, get_or, ok, err, bad_request, ap, sym, ◌∙◌,
  Bool-cases, inl, inr,
}
use mediavault_backend.Audit.Csv.{
  AuditRow, is_quote, double_quotes, join, header, plain_fields, metadata_field, before, line_of,
  csv_max_rows, export_to_csv, ◌<>◌,
}

abbrev pub in_front : Char → Option (String × String) → Option (String × String)
in_front c none = none
in_front c (some (s, rest)) = some (String.◌∷◌ c s, rest)

-- A comma, a quote, a line feed or a carriage return.
abbrev pub is_special : Char → Bool
is_special c = eqb (code c) 44 || eqb (code c) 34 || eqb (code c) 10 || eqb (code c) 13

abbrev pub quoted_last : Option (String × String) → Option (List String × String × String)
quoted_last none = none
quoted_last (some (m, rest)) = some ([], m, rest)

-- The text up to a comma, and what follows the comma.
unfoldable pub read_plain : String → Option (String × String)
read_plain String.[] = none
read_plain (String.◌∷◌ c s) =
    let rest = in_front c (read_plain s) in
    if eqb (code c) 44 then some ("", s) else if is_special c then none else rest

-- The rest of a quoted field, and what follows it; `true` is after a quote.
unfoldable pub read_quoted : Bool → String → Option (String × String)
read_quoted false String.[] = none
read_quoted true String.[] = some ("", "")
read_quoted false (String.◌∷◌ c s) =
    let ended = read_quoted true s in
    let more = in_front c (read_quoted false s) in if is_quote c then ended else more
read_quoted true (String.◌∷◌ c s) =
    let more = in_front c (read_quoted false s) in
    if is_quote c then more else some ("", String.◌∷◌ c s)

abbrev pub plain_text : String → Bool
plain_text String.[] = true
plain_text (String.◌∷◌ c s) = not (is_special c) && plain_text s

abbrev pub begins_quote : String → Bool
begins_quote String.[] = false
begins_quote (String.◌∷◌ c s) = is_quote c

front : (c : Char) (s : String) → String.◌∷◌ c "" <> s ≡ String.◌∷◌ c s
front c s = append.cons c "" s ∙ ap (λ t. String.◌∷◌ c t) (append.nil s)

-- A plain field is read up to the comma behind it.
read_plain_lem :
    (f rest : String) → plain_text f ≡ true → read_plain (f <> "," <> rest) ≡ some (f, rest)
unfolding read_plain
read_plain_lem String.[] rest h = ap read_plain (append.nil ("," <> rest) ∙ front "," rest)
read_plain_lem (String.◌∷◌ c f) rest h =
    ap read_plain (append.cons c f ("," <> rest))
    ∙ ground (arith, read_plain_lem f rest (ground arith))

double-quote :
    (c : Char) (s t : String)
    → is_quote c ≡ true
    → double_quotes (String.◌∷◌ c s) <> t ≡ String.◌∷◌ c (String.◌∷◌ c (double_quotes s <> t))
unfolding double_quotes
double-quote c s t q =
    ap (λ u. u <> t) (ground arith)
    ∙ append.cons c (String.◌∷◌ c (double_quotes s)) t
    ∙ ap (λ u. String.◌∷◌ c u) (append.cons c (double_quotes s) t)

double-other :
    (c : Char) (s t : String)
    → is_quote c ≡ false
    → double_quotes (String.◌∷◌ c s) <> t ≡ String.◌∷◌ c (double_quotes s <> t)
unfolding double_quotes
double-other c s t q = ap (λ u. u <> t) (ground arith) ∙ append.cons c (double_quotes s) t

double-nil : (t : String) → double_quotes "" <> t ≡ t
unfolding double_quotes
double-nil t = append.nil t

read-end : (rest : String) → begins_quote rest ≡ false → read_quoted true rest ≡ some ("", rest)
unfolding read_quoted
read-end String.[] h = refl
read-end (String.◌∷◌ c s) h = ground arith

-- A quoted text is read back, whatever its quotes are.
read_quoted-double_quotes :
    (s rest : String)
    → begins_quote rest ≡ false
    → read_quoted false (double_quotes s <> "\"" <> rest) ≡ some (s, rest)
unfolding read_quoted
read_quoted-double_quotes String.[] rest h =
    ap (read_quoted false) (double-nil ("\"" <> rest) ∙ front "\"" rest) ∙ read-end rest h
read_quoted-double_quotes (String.◌∷◌ c s) rest h = elim (Bool-cases (is_quote c)) [
  | inl q ↦
      ap (read_quoted false) (double-quote c s ("\"" <> rest) q)
      ∙ ground (arith, read_quoted-double_quotes s rest h)
  | inr p ↦
      ap (read_quoted false) (double-other c s ("\"" <> rest) p)
      ∙ ground (arith, read_quoted-double_quotes s rest h)
]

append_assoc : (s t u : String) → (s <> t) <> u ≡ s <> t <> u
append_assoc String.[] t u = ap (λ x. x <> u) (append.nil t) ∙ sym (append.nil (t <> u))
append_assoc (String.◌∷◌ c s) t u =
    ap (λ x. x <> u) (append.cons c s t)
    ∙ append.cons c (s <> t) u
    ∙ ap (λ x. String.◌∷◌ c x) (append_assoc s t u)
    ∙ sym (append.cons c s (t <> u))

abbrev pub with_field :
    String → Option (List String × String × String) → Option (List String × String × String)
with_field f none = none
with_field f (some (fs, m, rest)) = some (f ∷ fs, m, rest)

-- A record of so many plain fields and a quoted one: its fields, and what follows it.
unfoldable pub read_record : ℕ → String → Option (List String × String × String)
read_record zero String.[] = none
read_record zero (String.◌∷◌ c s) = if is_quote c then quoted_last (read_quoted false s) else none
read_record (suc n) s = elim (read_plain s) [
  | none ↦ none
  | some (f, rest) ↦ with_field f (read_record n rest)
]

abbrev pub all_plain : List String → Bool
all_plain [] = true
all_plain (f ∷ fs) = plain_text f && all_plain fs

before-append : (fs : List String) (s t : String) → before fs s <> t ≡ before fs (s <> t)
before-append [] s t = refl
before-append (f ∷ fs) s t =
    append_assoc f ("," <> before fs s) t
    ∙ ap (λ x. f <> x)
        (append_assoc "," (before fs s) t ∙ ap (λ x. "," <> x) (before-append fs s t))

read_record-before :
    (fs : List String) (m rest : String)
    → all_plain fs ≡ true
    → begins_quote rest ≡ false
    → read_record (length fs) (before fs ("\"" <> double_quotes m <> "\"" <> rest))
      ≡ some (fs, m, rest)
unfolding read_record
read_record-before [] m rest h k =
    ap (read_record 0) (front "\"" (double_quotes m <> "\"" <> rest))
    ∙ ap quoted_last (read_quoted-double_quotes m rest k)
read_record-before (f ∷ fs) m rest h k = ground (
  arith,
  read_plain_lem f (before fs ("\"" <> double_quotes m <> "\"" <> rest)) (ground arith),
  read_record-before fs m rest (ground arith) k,
)

-- The line of a row, before any text that does not begin with a quote, is read back as the row's
-- fields and its metadata, whatever characters these hold, if no other field holds a comma, a quote or
-- a line break.
read_record-line_of :
    (r : AuditRow) (rest : String)
    → all_plain (plain_fields r) ≡ true
    → begins_quote rest ≡ false
    → read_record 7 (line_of r <> rest) ≡ some (plain_fields r, get_or r.metadata "", rest)
unfolding line_of
read_record-line_of r rest h k =
    ap (read_record 7) (
      before-append (plain_fields r) (metadata_field r) rest
      ∙ ap (before (plain_fields r)) (
          append_assoc "\"" (double_quotes (get_or r.metadata "") <> "\"") rest
          ∙ ap (λ x. "\"" <> x) (append_assoc (double_quotes (get_or r.metadata "")) "\"" rest)))
    ∙ read_record-before (plain_fields r) (get_or r.metadata "") rest h k

abbrev pub in_list {ℓ} : {A : Type ℓ} → A → Option (List A) → Option (List A)
in_list a none = none
in_list a (some rest) = some (a ∷ rest)

-- The records of so many lines, each behind a line feed.
unfoldable pub read_records : ℕ → String → Option (List (List String × String))
read_records zero String.[] = some []
read_records zero (String.◌∷◌ c s) = none
read_records (suc n) String.[] = none
read_records (suc n) (String.◌∷◌ c s) =
    if eqb (code c) 10
    then elim (read_record 7 s) [
      | none ↦ none
      | some (fs, m, rest) ↦ in_list (fs, m) (read_records n rest)
    ]
    else none

abbrev pub fields_of : AuditRow → List String × String
fields_of r = (plain_fields r, get_or r.metadata "")

abbrev pub all_rows_plain : List AuditRow → Bool
all_rows_plain [] = true
all_rows_plain (r ∷ rs) = all_plain (plain_fields r) && all_rows_plain rs

-- The lines of the rows, each behind a line feed.
abbrev lines : List AuditRow → String
lines [] = ""
lines (r ∷ rs) = "\n" <> line_of r <> lines rs

lines-begins_quote : (rs : List AuditRow) → begins_quote (lines rs) ≡ false
lines-begins_quote [] = refl
lines-begins_quote (r ∷ rs) = ap begins_quote (front "\n" (line_of r <> lines rs))

append_empty : (s : String) → s <> "" ≡ s
append_empty String.[] = append.nil ""
append_empty (String.◌∷◌ c s) = append.cons c s "" ∙ ap (λ t. String.◌∷◌ c t) (append_empty s)

join-lines : (l : String) (rs : List AuditRow) → join "\n" (l ∷ map line_of rs) ≡ l <> lines rs
unfolding join
join-lines l [] = sym (append_empty l)
join-lines l (r ∷ rs) = ap (λ x. l <> "\n" <> x) (join-lines (line_of r) rs)

read_records-lines :
    (rs : List AuditRow)
    → all_rows_plain rs ≡ true
    → read_records (length rs) (lines rs) ≡ some (map fields_of rs)
unfolding read_records
read_records-lines [] h = refl
read_records-lines (r ∷ rs) h =
    ap (read_records (suc (length rs))) (front "\n" (line_of r <> lines rs))
    ∙ ground (
      arith,
      read_record-line_of r (lines rs) (ground arith) (lines-begins_quote rs),
      read_records-lines rs (ground arith),
    )

-- An export of at most ten thousand rows is the header and a text from which the reader has all rows
-- back, in their order, if no field but the metadata holds a comma, a quote or a line break; a longer
-- one is a bad request.
pub export_to_csv-read :
    (rs : List AuditRow)
    → all_rows_plain rs ≡ true
    → (body : String) × (export_to_csv rs
        ≡ (if ltb csv_max_rows (length rs) then err bad_request else ok (header <> body)))
      × (read_records (length rs) body ≡ some (map fields_of rs))
unfolding export_to_csv
export_to_csv-read rs h = (lines rs, ground (arith, join-lines header rs), read_records-lines rs h)
