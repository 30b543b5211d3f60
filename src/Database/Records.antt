-- ===== src/Database/Records.antt =====
-- The table `idempotency_records`, and the row that `try_add_completed` of
-- src/app/infrastructure/idempotency/postgres/durable_store.py writes.
use andruha_user_profile_ser.Prelude.{
  le→leb, ℕ, ◌≡◌, ◌≤◌, refl, Bool, true, not, ◌&&◌, ◌||◌, Option, none, some, List, length, leb,
  ltb, nat_beq, Text, codes, text_eq, ◌==◌, ok, arith, Bool-cases, inl, inr,
}
use andruha_user_profile_ser.Idempotency.Models.{
  IdempotencyKey, StoredResult, CompletedResult, validate_key, validate_completed, is_some,
  positive_if_some, is_replayable, is_completion_only,
}
use andruha_user_profile_ser.Idempotency.Durable.{Records, try_add_completed}
use andruha_user_profile_ser.Database.{fits_column}

-- The columns of the table but `id`, which the database does not compare with the others.
pub record RecordRow : Type 0 where
  pub subject_id : Text
  pub operation : Text
  pub key_digest : List ℕ
  pub request_fingerprint : List ℕ
  pub fingerprint_version : ℕ
  pub result_type : Text
  pub result_payload : Option (List (Text × Text))
  pub result_version : ℕ
  pub resource_type : Option Text
  pub resource_id : Option Text
  pub resource_version : Option ℕ
  pub created_at : ℕ
  pub completed_at : ℕ
  pub expires_at : ℕ

abbrev pub is_absent : {A : Type 0} → Option A → Bool
is_absent r = not (is_some r)

pub check_replayable_result : RecordRow → Bool
check_replayable_result r =
    (r.result_type == codes "completion"
      && is_absent r.result_payload
      && is_absent r.resource_type
      && is_absent r.resource_id
      && is_absent r.resource_version)
    || (not (r.result_type == codes "completion")
        && (is_some r.result_payload || (is_some r.resource_type && is_some r.resource_id)))

pub check_resource_pair : RecordRow → Bool
check_resource_pair r =
    (is_absent r.resource_type && is_absent r.resource_id)
    || (is_some r.resource_type && is_some r.resource_id)

abbrev pub is_positive : Option ℕ → Bool
is_positive none = true
is_positive (some n) = ltb 0 n

pub check_resource_version : RecordRow → Bool
check_resource_version r =
    is_absent r.resource_version
    || (is_some r.resource_type && is_some r.resource_id && is_positive r.resource_version)

-- The largest value of an `Integer` column.
abbrev pub max_integer : ℕ
max_integer = 2147483647

abbrev pub fits_integer : Option ℕ → Bool
fits_integer none = true
fits_integer (some n) = leb n max_integer

-- The widths of the columns, then the constraints in the order of the table.
pub accepts_record : RecordRow → Bool
accepts_record r =
    leb (length r.subject_id) 255
    && leb (length r.operation) 100
    && leb (length r.result_type) 100
    && leb r.result_version max_integer
    && fits_column 100 r.resource_type
    && fits_column 255 r.resource_id
    && fits_integer r.resource_version
    && check_replayable_result r
    && check_resource_pair r
    && leb r.created_at r.completed_at
    && ltb r.completed_at r.expires_at
    && ltb 0 r.fingerprint_version
    && nat_beq (length r.key_digest) 32
    && nat_beq (length r.request_fingerprint) 32
    && check_resource_version r
    && ltb 0 r.result_version

-- The values of the statement of `try_add_completed`, at the time `now`.
abbrev pub record_row : ℕ → IdempotencyKey → CompletedResult → RecordRow
record_row now k c = record {
  subject_id = k.subject_id;
  operation = k.operation;
  key_digest = k.key_digest;
  request_fingerprint = c.request_fingerprint;
  fingerprint_version = 1;
  result_type = c.stored.result_type;
  result_payload = c.stored.result_payload;
  result_version = c.stored.result_version;
  resource_type = c.stored.resource_type;
  resource_id = c.stored.resource_id;
  resource_version = c.stored.resource_version;
  created_at = now;
  completed_at = now;
  expires_at = c.expires_at;
}

-- What a model does not bound, and its column does.
abbrev pub FitsColumns : StoredResult → Type 0
FitsColumns r =
    (r.result_version ≤ max_integer)
    × (fits_column 255 r.resource_id ≡ true)
    × (fits_integer r.resource_version ≡ true)

key_accepted :
    (k l : IdempotencyKey)
    → validate_key k ≡ ok l
    → (leb (length k.subject_id) 255 ≡ true)
      × (leb (length k.operation) 100 ≡ true)
      × (nat_beq (length k.key_digest) 32 ≡ true)
unfolding validate_key
key_accepted k l h = ground arith

stored_accepted :
    (now : ℕ) (k : IdempotencyKey) (c d : CompletedResult)
    → validate_completed c ≡ ok d
    → (leb (length c.stored.result_type) 100 ≡ true)
      × (fits_column 100 c.stored.resource_type ≡ true)
      × (ltb 0 c.stored.result_version ≡ true)
      × (nat_beq (length c.request_fingerprint) 32 ≡ true)
      × (is_replayable c.stored ≡ true)
      × (positive_if_some c.stored.resource_version ≡ true)
unfolding validate_completed
stored_accepted now k c d h = ground arith

replayable_accepted :
    (now : ℕ) (k : IdempotencyKey) (c : CompletedResult)
    → is_replayable c.stored ≡ true
    → positive_if_some c.stored.resource_version ≡ true
    → (check_replayable_result (record_row now k c) ≡ true)
      × (check_resource_pair (record_row now k c) ≡ true)
      × (check_resource_version (record_row now k c) ≡ true)
unfolding check_replayable_result check_resource_pair check_resource_version is_completion_only
replayable_accepted now k c h p = elim (Bool-cases (c.stored.result_type == codes "completion")) [
  | inl e ↦ ground arith
  | inr e ↦ ground arith
]

times_accepted :
    (now : ℕ) (k : IdempotencyKey) (c : CompletedResult) (before after : Records) (added : Bool)
    → try_add_completed now k c before ≡ (ok added, after)
    → (leb now now ≡ true) × (ltb now c.expires_at ≡ true)
unfolding try_add_completed
times_accepted now k c before after added h = ground arith

-- The row of a validated identity and result, which the store writes or finds taken, satisfies the
-- widths and constraints of the table, where the numbers and the resource's id that no model bounds
-- are in the range of their columns.
pub accepts_record-record_row :
    (now : ℕ) (k l : IdempotencyKey) (c d : CompletedResult) (before after : Records) (added : Bool)
    → validate_key k ≡ ok l
    → validate_completed c ≡ ok d
    → FitsColumns c.stored
    → try_add_completed now k c before ≡ (ok added, after)
    → accepts_record (record_row now k c) ≡ true
unfolding accepts_record
accepts_record-record_row now k l c d before after added hk hc (version_fits, id_fits, number_fits)
      h =
    let (subject, operation, digest) = key_accepted k l hk in
    let (typed, type_fits, positive, print, replayable, versioned) = stored_accepted now k c d hc in
    let (result, pair, resource) = replayable_accepted now k c replayable versioned in
    let (now_now, later) = times_accepted now k c before after added h in
    rw
      (
        subject,
        operation,
        typed,
        le→leb c.stored.result_version max_integer version_fits,
        type_fits,
        id_fits,
        number_fits,
        result,
        pair,
        now_now,
        later,
        digest,
        print,
        resource,
        positive,
      )
      refl
