-- ===== src/Http/Identity/Scopes.antt =====
-- The identities under which commands are kept apart (src/app/entrypoints/http/dependencies.py,
-- src/app/entrypoints/http/routers/internal.py, src/app/application/idempotency/middleware.py).
use Prim.Native.Nat.{◌%◌}
use andruha_user_profile_ser.Prelude.{
  ℕ, zero, suc, ◌/◌, ◌+◌, ◌-◌, ◌*◌, ◌^◌, ◌≡◌, ◌≢◌, ◌≤◌, ◌<◌, refl, some, [], ◌∷◌, ◌++◌, ◌==◌,
  nat_eq, ltb, length, Text, codes, if◌then◌else◌, Result, ok, arith, ap, sym, ◌∙◌, >>=-eq-ok,
  subst,
}
use andruha_user_profile_ser.Exceptions.{
  Exception, idempotency, idempotency_key_required_error, idempotency_scope_required_error,
}
use andruha_user_profile_ser.Idempotency.Models.{IdempotencyKey, validate_key}
use andruha_user_profile_ser.Application.Dispatching.Fingerprint.{Hash, compute_key_digest}
use andruha_user_profile_ser.Application.Dispatching.Execution.{
  CommandContext, build_identity, validate_context, non_empty,
}
use andruha_user_profile_ser.Http.Identity.{
  hex_digit, hex, uuid_text, command_context, provisioning_context,
}

length-hex : (k n : ℕ) (out : Text) → length (hex k n out) ≡ k + length out
unfolding hex
length-hex zero n out = omega arith
length-hex (suc k) n out = omega (arith, length-hex k (n / 16) (hex_digit (n % 16) ∷ out))

length-uuid_text : (n : ℕ) → length (uuid_text n) ≡ 36
unfolding uuid_text
length-uuid_text n = omega (arith, length-hex)

abbrev pow16 : ℕ → ℕ
pow16 zero = 1
pow16 (suc k) = 16 * pow16 k

abbrev digit_value : ℕ → ℕ
digit_value c = if ltb c 58 then c - 48 else c - 87

-- The number that the hexadecimal digits of a text stand for; dashes are passed over.
read_uuid : ℕ → Text → ℕ
read_uuid acc [] = acc
read_uuid acc (c ∷ t) = read_uuid (if c == b'-' then acc else acc * 16 + digit_value c) t

read_uuid-hex_digit :
    (acc d : ℕ) (t : Text) → d < 16 → read_uuid acc (hex_digit d ∷ t) ≡ read_uuid (acc * 16 + d) t
unfolding read_uuid
read_uuid-hex_digit acc d t h =
    let e : (if hex_digit d == b'-' then acc else acc * 16 + digit_value (hex_digit d))
        ≡ acc * 16 + d =
      ground arith in
    ap (λ (m : ℕ). read_uuid m t) e

read_uuid-hex :
    (k n acc : ℕ) (out : Text)
    → n < pow16 k
    → read_uuid acc (hex k n out) ≡ read_uuid (acc * pow16 k + n) out
unfolding hex
read_uuid-hex zero n acc out h = ap (λ (m : ℕ). read_uuid m out) (omega arith)
read_uuid-hex (suc k) n acc out h =
    read_uuid-hex k (n / 16) acc (hex_digit (n % 16) ∷ out) (omega arith)
    ∙ read_uuid-hex_digit (acc * pow16 k + n / 16) (n % 16) out (omega arith)
    ∙ ap (λ (m : ℕ). read_uuid m out) (grind arith)

read_uuid-uuid_text : (n : ℕ) → n < 2 ^ 128 → read_uuid 0 (uuid_text n) ≡ n
unfolding uuid_text read_uuid
read_uuid-uuid_text n h =
    read_uuid-hex 8 (n / 2 ^ 96) 0 _ (omega arith)
    ∙ read_uuid-hex 4 (n / 2 ^ 80 % 2 ^ 16) _ _ (omega arith)
    ∙ read_uuid-hex 4 (n / 2 ^ 64 % 2 ^ 16) _ _ (omega arith)
    ∙ read_uuid-hex 4 (n / 2 ^ 48 % 2 ^ 16) _ _ (omega arith)
    ∙ read_uuid-hex 12 (n % 2 ^ 48) _ [] (omega arith)
    ∙ omega arith

abbrev pub identity_of : Hash → CommandContext → Text → Result Exception IdempotencyKey
identity_of hash c operation_name =
    build_identity hash c.idempotency_key c.idempotency_scope operation_name

abbrev key_required : Exception
key_required = idempotency idempotency_key_required_error

abbrev scope_required : Exception
scope_required = idempotency idempotency_scope_required_error

non_empty-eq : (e : Exception) (t s : Text) → non_empty e (some t) ≡ ok s → s ≡ t
non_empty-eq e [] s h = cc
non_empty-eq e (c ∷ t) s h = cc

validate_key-eq : (k k' : IdempotencyKey) → validate_key k ≡ ok k' → k' ≡ k
unfolding validate_key
validate_key-eq k k' h = ground arith

build_identity-subject :
    (hash : Hash) (c : CommandContext) (operation_name scope : Text) (k : IdempotencyKey)
    → c.idempotency_scope ≡ some scope
    → identity_of hash c operation_name ≡ ok k
    → k.subject_id ≡ scope
unfolding build_identity
build_identity-subject hash c operation_name scope k e h =
    let (key, p, rest) = >>=-eq-ok (non_empty key_required c.idempotency_key) _ h in
    let (given, q, rest') = >>=-eq-ok (non_empty scope_required c.idempotency_scope) _ rest in
    let (digest, d, made) = >>=-eq-ok (compute_key_digest hash key) _ rest' in
    ap (λ (i : IdempotencyKey). i.subject_id) (validate_key-eq _ k made)
    ∙ non_empty-eq scope_required scope given
        (subst (λ o. non_empty scope_required o ≡ ok given) e q)

user-injective : (s t : Text) → codes "user:" ++ s ≡ codes "user:" ++ t → s ≡ t
user-injective s t e = ground arith

user-ne-identity : (s : Text) → codes "user:" ++ s ≢ codes "identity:profile-provisioning"
user-ne-identity s e = ground arith

-- Two users' requests never share an idempotency identity, whatever their keys and operations, and
-- neither shares one with a provisioning request, of whomever, their own included.
pub users_have_own_identities :
    (hash : Hash) (u v w : ℕ) (key key' operation_name operation_name' operation_name'' : Text)
    (k k' k'' : IdempotencyKey)
    → u < 2 ^ 128
    → v < 2 ^ 128
    → u ≢ v
    → identity_of hash (command_context u key) operation_name ≡ ok k
    → identity_of hash (command_context v key') operation_name' ≡ ok k'
    → identity_of hash (provisioning_context w) operation_name'' ≡ ok k''
    → (k.subject_id ≢ k'.subject_id)
      × (k.subject_id ≢ k''.subject_id)
      × (k'.subject_id ≢ k''.subject_id)
unfolding command_context provisioning_context
users_have_own_identities hash u v w key key' operation_name operation_name' operation_name'' k k'
      k'' small small' ne h h' h'' =
    let s = build_identity-subject hash (command_context u key) operation_name _ k refl h in
    let s' = build_identity-subject hash (command_context v key') operation_name' _ k' refl h' in
    let s'' =
      build_identity-subject hash (provisioning_context w) operation_name'' _ k'' refl h'' in
    (
      λ e. ne (
          sym (read_uuid-uuid_text u small)
          ∙ ap (λ (t : Text). read_uuid 0 t)
              (user-injective (uuid_text u) (uuid_text v) (sym s ∙ e ∙ s'))
          ∙ read_uuid-uuid_text v small'),
      λ e. user-ne-identity (uuid_text u) (sym s ∙ e ∙ s''),
      λ e. user-ne-identity (uuid_text v) (sym s' ∙ e ∙ s''),
    )

-- A request of a user with a key of 1 to 255 characters, for an operation of 1 to 100, has a context
-- that is accepted and an identity, with the user as its subject and the key's digest.
pub user_request_has_identity :
    (hash : Hash) (u : ℕ) (key operation_name : Text)
    → 1 ≤ length key
    → length key ≤ 255
    → 1 ≤ length operation_name
    → length operation_name ≤ 100
    → (validate_context (command_context u key) ≡ ok (command_context u key))
      × (identity_of hash (command_context u key) operation_name
          ≡ ok (record {
            subject_id = codes "user:" ++ uuid_text u;
            operation = operation_name;
            key_digest = hash.sha256 (hash.encode_utf8 key);
          }))
unfolding command_context build_identity compute_key_digest validate_key validate_context
user_request_has_identity hash u [] operation_name some' few some'' few' = absurd (omega arith)
user_request_has_identity hash u (c ∷ t) operation_name some' few some'' few' =
    ground (arith, length-uuid_text u, hash.sha256_length (hash.encode_utf8 (c ∷ t)))
