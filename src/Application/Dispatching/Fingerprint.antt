-- ===== src/Application/Dispatching/Fingerprint.antt =====
-- src/app/application/idempotency/fingerprint.py: the digest of a request and of a key, over any
-- SHA-256 and UTF-8. A number is given by what Python writes of it.
pub mod Sorting
pub mod Order
use andruha_user_profile_ser.Prelude.{
  ℕ, zero, suc, ◌+◌, ◌≡◌, ◌/◌, Bool, true, false, not, ◌&&◌, ◌||◌, Option, none, some, List, [],
  ◌∷◌, ◌++◌, any, ◌==◌, text_eq, leb, ltb, length, Text, codes, if◌then◌else◌, Result, ok, err,
  ◌>>=◌, map, nat_eq, ◌-◌,
}
use andruha_user_profile_ser.Prelude.Decimal.{decimal, text_le}
use andruha_user_profile_ser.Exceptions.{Exception, value_error, type_error}
use andruha_user_profile_ser.Application.Dispatching.Fingerprint.Sorting.{sort_pairs}

-- The external functions: `hashlib.sha256` and `str.encode("utf-8")`.
pub record Hash : Type 0 where
  pub sha256 : List ℕ → List ℕ
  pub encode_utf8 : Text → List ℕ
  pub sha256_length : (bytes : List ℕ) → length (sha256 bytes) ≡ 32

-- The Python values that reach the function, by the classes that it tells apart. A Decimal is given by
-- `format(value, "f")`, a float by its `repr`, an aware datetime by `isoformat` of its instant in UTC;
-- `none` is a Decimal or float that is not finite, and a datetime without an offset. A model is the
-- mapping that `model_dump` gives. A key that is no string is `none`.
mutual
  pub data Payload : Type 0 where
    null : Payload
    boolean : Bool → Payload
    -- the sign, and the absolute value
    integer : Bool → ℕ → Payload
    string uuid calendar_date : Text → Payload
    decimal_number float_number instant : Option Text → Payload
    enumeration : Payload → Payload
    mapping : Entries → Payload
    sequence set_of : Payloads → Payload
    -- `bytes` and all other classes
    unsupported : Payload

  pub data Payloads : Type 0 where
    nil : Payloads
    cons : Payload → Payloads → Payloads

  pub data Entries : Type 0 where
    end : Entries
    entry : Option Text → Payload → Entries → Entries

-- The canonical value, which `json.dumps` writes; a number is its text.
mutual
  pub data Json : Type 0 where
    null : Json
    boolean : Bool → Json
    number text : Text → Json
    array : Jsons → Json
    object : Members → Json

  pub data Jsons : Type 0 where
    nil : Jsons
    cons : Json → Jsons → Jsons

  pub data Members : Type 0 where
    end : Members
    member : Text → Json → Members → Members

-- A character in a JSON string, with `ensure_ascii=False`: 34 is the quote and 92 the backslash.
abbrev hex_digit : ℕ → ℕ
hex_digit n = if ltb n 10 then b'0' + n else 87 + n

pub escape : ℕ → Text
escape c =
    if c == 34
    then 92 ∷ 34 ∷ []
    else if c == 92
    then 92 ∷ 92 ∷ []
    else if c == 10
    then 92 ∷ b'n' ∷ []
    else if c == 13
    then 92 ∷ b'r' ∷ []
    else if c == 9
    then 92 ∷ b't' ∷ []
    else if c == 12
    then 92 ∷ b'f' ∷ []
    else if c == 8
    then 92 ∷ b'b' ∷ []
    else if ltb c 32
    then 92 ∷ codes "u00" ++ (b'0' + c / 16) ∷ hex_digit (if ltb c 16 then c else c - 16) ∷ []
    else c ∷ []

abbrev pub escape_all : Text → Text
escape_all [] = []
escape_all (c ∷ t) = escape c ++ escape_all t

abbrev pub quoted : Text → Text
quoted t = 34 ∷ escape_all t ++ (34 ∷ [])

abbrev pub join : List Text → Text
join [] = []
join (t ∷ []) = t
join (t ∷ ts) = t ++ b',' ∷ join ts

abbrev pub render_array : List Text → Text
render_array items = b'[' ∷ join items ++ b']' ∷ []

abbrev pub render_object : List (Text × Text) → Text
render_object members =
    b'{' ∷ join (map (λ (m : Text × Text). quoted m.0 ++ b':' ∷ m.1) members) ++ b'}' ∷ []

abbrev pub render_bool : Bool → Text
render_bool true = codes "true"
render_bool false = codes "false"

-- `json.dumps(value, ensure_ascii=False, separators=(",", ":"), sort_keys=True)`
unfoldable mutual
  pub dumps : Json → Text
  dumps null = codes "null"
  dumps (boolean b) = render_bool b
  dumps (number t) = t
  dumps (text t) = quoted t
  dumps (array xs) = render_array (dumps_items xs)
  dumps (object ms) = render_object (sort_pairs (dumps_members ms))

  pub dumps_items : Jsons → List Text
  dumps_items nil = []
  dumps_items (cons x xs) = dumps x ∷ dumps_items xs

  pub dumps_members : Members → List (Text × Text)
  dumps_members end = []
  dumps_members (member k x ms) = (k, dumps x) ∷ dumps_members ms

-- `sorted(items, key=json.dumps)`
pub insert_item : Json → Jsons → Jsons
insert_item x nil = cons x nil
insert_item x (cons y ys) =
    if text_le (dumps x) (dumps y) then cons x (cons y ys) else cons y (insert_item x ys)

pub sort_items : Jsons → Jsons
sort_items nil = nil
sort_items (cons x xs) = insert_item x (sort_items xs)

abbrev pub has_nonzero_digit : Text → Bool
has_nonzero_digit = any λ c. leb b'1' c && leb c b'9'

-- `str.rstrip` of one character
abbrev pub rstrip_char : ℕ → Text → Text
rstrip_char c [] = []
rstrip_char c (d ∷ t) = elim (rstrip_char c t) [
  | [] ↦ if d == c then [] else d ∷ []
  | e ∷ u ↦ d ∷ e ∷ u
]

unfoldable pub canonical_decimal : Text → Text
canonical_decimal t =
    if not (has_nonzero_digit t)
    then codes "0"
    else if any (λ c. c == b'.') t
    then rstrip_char b'.' (rstrip_char b'0' t)
    else t

unfoldable pub canonical_float : Text → Text
canonical_float t = if has_nonzero_digit t then t else codes "0.0"

abbrev pub JsonPath : Type 0
JsonPath = List Text

abbrev pub or_value_error : (Text → Json) → Option Text → Result Exception Json
or_value_error make none = err value_error
or_value_error make (some t) = ok (make t)

abbrev pub render_integer : Bool → ℕ → Text
render_integer true n = if n == 0 then decimal n else b'-' ∷ decimal n
render_integer false n = decimal n

abbrev pub is_string_keyed : Entries → Bool
is_string_keyed end = true
is_string_keyed (entry none v rest) = false
is_string_keyed (entry (some k) v rest) = is_string_keyed rest

-- The items of a mapping in the order of their keys; the first exception counts.
abbrev pub gather : List (Text × Result Exception Json) → Result Exception Members
gather [] = ok end
gather ((k, r) ∷ rest) = r >>= λ j. gather rest >>= λ ms. ok (member k j ms)

abbrev pub object_of : Bool → List (Text × Result Exception Json) → Result Exception Json
object_of true pending = gather (sort_pairs pending) >>= λ ms. ok (object ms)
object_of false pending = err type_error

abbrev pub array_of : Bool → Result Exception Jsons → Result Exception Json
array_of sorted r = r >>= λ js. ok (array (if sorted then sort_items js else js))

-- `_canonicalize`
module _ (unordered_paths : JsonPath → Bool) where
  unfoldable mutual
    pub canonicalize : JsonPath → Payload → Result Exception Json
    canonicalize path null = ok null
    canonicalize path (boolean b) = ok (boolean b)
    canonicalize path (integer negative n) = ok (number (render_integer negative n))
    canonicalize path (string t) = ok (text t)
    canonicalize path (uuid t) = ok (text t)
    canonicalize path (calendar_date t) = ok (text t)
    canonicalize path (decimal_number d) = or_value_error (λ t. text (canonical_decimal t)) d
    canonicalize path (float_number x) = or_value_error (λ t. number (canonical_float t)) x
    canonicalize path (instant i) = or_value_error text i
    canonicalize path (enumeration v) = canonicalize path v
    canonicalize path (mapping es) = object_of (is_string_keyed es) (canonicalize_entries path es)
    canonicalize path (sequence xs) =
        array_of (unordered_paths path) (canonicalize_items (path ++ codes "[]" ∷ []) xs)
    canonicalize path (set_of xs) = array_of true (canonicalize_items (path ++ codes "{}" ∷ []) xs)
    canonicalize path unsupported = err type_error

    pub canonicalize_items : JsonPath → Payloads → Result Exception Jsons
    canonicalize_items path nil = ok nil
    canonicalize_items path (cons x xs) =
        canonicalize path x >>= λ j. canonicalize_items path xs >>= λ js. ok (cons j js)

    pub canonicalize_entries : JsonPath → Entries → List (Text × Result Exception Json)
    canonicalize_entries path end = []
    canonicalize_entries path (entry none v rest) = canonicalize_entries path rest
    canonicalize_entries path (entry (some k) v rest) =
        (k, canonicalize (path ++ k ∷ []) v) ∷ canonicalize_entries path rest

  unfoldable pub compute_request_fingerprint : Hash → Payload → Result Exception (List ℕ)
  compute_request_fingerprint hash payload =
      canonicalize [] payload >>= λ j. ok (hash.sha256 (hash.encode_utf8 (dumps j)))

unfoldable pub compute_key_digest : Hash → Text → Result Exception (List ℕ)
compute_key_digest hash [] = err value_error
compute_key_digest hash (c ∷ t) = ok (hash.sha256 (hash.encode_utf8 (c ∷ t)))
