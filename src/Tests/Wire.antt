-- ===== src/Tests/Wire.antt =====
-- A concrete writer and reader of JSON objects and a concrete platform, for the examples.
use andruha_user_profile_ser.Prelude.{
  ℕ, zero, suc, ◌≡◌, refl, true, Option, none, some, List, [], ◌∷◌, Text, length,
}
use andruha_user_profile_ser.Domain.Platform.{Platform}
use andruha_user_profile_ser.Idempotency.Redis.Completed.{
  Json, WireDict, WireValue, null_value, number_value, text_value, other_value, object_value,
}
use andruha_user_profile_ser.Idempotency.Redis.Adapter.{Wire}

abbrev pub Reader : Type 0 → Type 0
Reader A = Text → Option (A × Text)

-- A writer puts a value before a text, and its reader takes it off again.
pub record Codec (A : Type 0) : Type 0 where
  pub write : A → Text → Text
  pub take : Reader A
  pub take-write : (a : A) (rest : Text) → take (write a rest) ≡ some (a, rest)

abbrev map_reader : {A B : Type 0} → (A → B) → Option (A × Text) → Option (B × Text)
map_reader f none = none
map_reader f (some (a, rest)) = some (f a, rest)

abbrev then_reader : {A B : Type 0} → Option (A × Text) → (A → Reader B) → Option (B × Text)
then_reader none f = none
then_reader (some (a, rest)) f = f a rest

abbrev take_number : Reader ℕ
take_number [] = none
take_number (n ∷ rest) = some (n, rest)

abbrev pub number : Codec ℕ
number = record { write = λ n rest. n ∷ rest; take = take_number; take-write = λ n rest. refl }

module _ {A B : Type 0} (c : Codec A) (d : Codec B) where
  abbrev pub pair : Codec (A × B)
  pair = record {
    write = λ x rest. c.write x.0 (d.write x.1 rest);
    take = λ t. then_reader (c.take t) (λ a rest. map_reader (λ b. (a, b)) (d.take rest));
    take-write = λ x rest. rw (c.take-write x.0 (d.write x.1 rest), d.take-write x.1 rest) refl;
  }

module _ {A : Type 0} (c : Codec A) where
  abbrev write_option : Option A → Text → Text
  write_option none rest = 0 ∷ rest
  write_option (some a) rest = 1 ∷ c.write a rest

  abbrev take_option : Reader (Option A)
  take_option [] = none
  take_option (zero ∷ rest) = some (none, rest)
  take_option (suc n ∷ rest) = map_reader some (c.take rest)

  pub take-write_option :
      (o : Option A) (rest : Text) → take_option (write_option o rest) ≡ some (o, rest)
  take-write_option none rest = refl
  take-write_option (some a) rest = rw (c.take-write a rest) refl

  abbrev pub option : Codec (Option A)
  option = record { write = write_option; take = take_option; take-write = take-write_option }

  abbrev write_items : List A → Text → Text
  write_items [] rest = rest
  write_items (a ∷ xs) rest = c.write a (write_items xs rest)

  abbrev take_items : ℕ → Reader (List A)
  take_items zero t = some ([], t)
  take_items (suc n) t =
      then_reader (c.take t) (λ a rest. map_reader (λ xs. a ∷ xs) (take_items n rest))

  pub take-write_items :
      (xs : List A) (rest : Text) → take_items (length xs) (write_items xs rest) ≡ some (xs, rest)
  take-write_items [] rest = refl
  take-write_items (a ∷ xs) rest =
      rw (c.take-write a (write_items xs rest), take-write_items xs rest) refl

  abbrev take_list : Reader (List A)
  take_list [] = none
  take_list (n ∷ rest) = take_items n rest

  abbrev pub list : Codec (List A)
  list = record {
    write = λ xs rest. length xs ∷ write_items xs rest;
    take = take_list;
    take-write = take-write_items;
  }

abbrev text : Codec Text
text = list number

-- A value of the object by its kind, its number, its text and its entries.
abbrev Row : Type 0
Row = ℕ × (ℕ × (Text × List (Text × Text)))

abbrev row_of : WireValue → Row
row_of null_value = (0, (0, ([], [])))
row_of (number_value n) = (1, (n, ([], [])))
row_of (text_value t) = (2, (0, (t, [])))
row_of (other_value t) = (3, (0, (t, [])))
row_of (object_value o) = (4, (0, ([], o)))

abbrev of_row : Row → WireValue
of_row (zero, _) = null_value
of_row (suc zero, (n, _)) = number_value n
of_row (suc (suc zero), (_, (t, _))) = text_value t
of_row (suc (suc (suc zero)), (_, (t, _))) = other_value t
of_row (suc (suc (suc (suc _))), (_, (_, o))) = object_value o

abbrev row : Codec Row
row = pair number (pair number (pair text (list (pair text text))))

abbrev rows_of : WireDict → List (Text × Row)
rows_of [] = []
rows_of ((k, v) ∷ d) = (k, row_of v) ∷ rows_of d

abbrev of_rows : List (Text × Row) → WireDict
of_rows [] = []
of_rows ((k, r) ∷ rs) = (k, of_row r) ∷ of_rows rs

of_row-row_of : (v : WireValue) → of_row (row_of v) ≡ v
of_row-row_of null_value = refl
of_row-row_of (number_value n) = refl
of_row-row_of (text_value t) = refl
of_row-row_of (other_value t) = refl
of_row-row_of (object_value o) = refl

of_rows-rows_of : (d : WireDict) → of_rows (rows_of d) ≡ d
of_rows-rows_of [] = refl
of_rows-rows_of ((k, v) ∷ d) = rw (of_row-row_of v, of_rows-rows_of d) refl

abbrev rows : Codec (List (Text × Row))
rows = list (pair text row)

abbrev decode_rows : Option (List (Text × Row) × Text) → Option WireDict
decode_rows none = none
decode_rows (some (rs, rest)) = some (of_rows rs)

abbrev take_datetime : WireValue → Option ℕ
take_datetime (text_value (n ∷ [])) = some n
take_datetime _ = none

abbrev take_int : WireValue → Option ℕ
take_int (number_value n) = some n
take_int _ = none

pub validate_json-dumps_rows :
    (d : WireDict) → decode_rows (rows.take (rows.write (rows_of d) [])) ≡ some d
validate_json-dumps_rows d = rw (rows.take-write (rows_of d) [], of_rows-rows_of d) refl

-- A time is a text of one code point.
abbrev json : Json
json = record {
  dumps = λ d. rows.write (rows_of d) [];
  validate_json = λ t. decode_rows (rows.take t);
  validate_json-dumps = λ d h. validate_json-dumps_rows d;
  isoformat = λ n. n ∷ [];
  read_datetime = take_datetime;
  read_datetime-isoformat = λ n. refl;
  read_int = take_int;
  read_int-number = λ n. refl;
}

pub single-injective : (a b : ℕ) → ◌≡◌ {A = Text} (a ∷ []) (b ∷ []) → a ≡ b
single-injective a b h = cc

-- A digest that is its text stands for the SHA-256.
abbrev pub wire : Wire
wire = record {
  uuid_text = λ n. n ∷ [];
  uuid_text-injective = single-injective;
  utf8 = λ t. t;
  sha256 = λ bytes. bytes;
  json = json;
}

-- Texts are in lower case already, and every zone is known.
abbrev pub platform : Platform
platform = record { lower = λ t. t; lower_plain = λ t h. refl; zone_known = λ t. true }
