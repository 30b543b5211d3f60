-- ===== src/Application/Dispatching/Codec/Laws.antt =====
-- What is stored of a result, and what is read back (src/app/application/idempotency/codec.py).
use andruha_user_profile_ser.Prelude.{
  ◌≡◌, ◌⊎◌, inl, inr, refl, true, false, Option, none, some, List, [], ◌∷◌, text_eq, nat_beq, Text,
  codes, ok, err, arith, Bool-cases, Result-cases, >>=-eq-ok, ◌==◌, list_beq_iff, nat_beq_iff,
}
use andruha_user_profile_ser.Exceptions.{Exception, value_error}
use andruha_user_profile_ser.Idempotency.Models.{
  StoredResult, is_completion_only, validate_stored-IsReplayable,
}
use andruha_user_profile_ser.Application.Dispatching.Codec.{
  ResultCodec, is_schema_mismatch, result_not_stored, replay_unavailable, validate, encode, decode,
  read_snapshot, snapshot_value,
}

snapshot_value-cases :
    (o : Option (List (Text × Text)))
    → ((json : Text) × (snapshot_value o ≡ ok json) × (o ≡ some ((codes "value", json) ∷ [])))
      ⊎ (snapshot_value o ≡ err value_error)
snapshot_value-cases none = inr refl
snapshot_value-cases (some []) = inr refl
snapshot_value-cases (some (first ∷ second ∷ rest)) = inr refl
snapshot_value-cases (some ((key, json) ∷ [])) = elim (Bool-cases (key == codes "value")) [
  | inl e ↦ inl (json, rw e refl, rw ((list_beq_iff key (codes "value")).0 e) refl)
  | inr e ↦ inr (rw e refl)
]

module _ {Value : Type 0} where
  -- What `encode` returns, for a codec that could be built.
  pub snapshot : ResultCodec Value → Text → StoredResult
  snapshot codec json = record {
    result_type = codes "snapshot";
    result_payload = some ((codes "value", json) ∷ []);
    result_version = codec.schema_version;
    resource_type = none;
    resource_id = none;
    resource_version = none;
  }

  pub encode-cases :
      (codec : ResultCodec Value) (v : Value) (s : StoredResult)
      → encode codec v ≡ ok s
      → (w : Value) × (json : Text) × (validate codec v ≡ ok w)
        × (codec.adapter.dump w ≡ ok json)
        × (s ≡ snapshot codec json)
  unfolding encode snapshot
  encode-cases codec v s h =
      let (w, valid, rest) = >>=-eq-ok (validate codec v) _ h in
      let (json, dumped, made) = >>=-eq-ok (codec.adapter.dump w) _ rest in
      (w, json, valid, dumped, (validate_stored-IsReplayable (snapshot codec json) s made).0)

  decode-snapshot :
      (codec : ResultCodec Value) (json : Text) (w : Value)
      → codec.adapter.validate_json json ≡ ok w
      → decode codec (snapshot codec json) ≡ ok w
  unfolding decode read_snapshot snapshot is_completion_only
  decode-snapshot codec json w h =
      ground (arith, nat_beq_iff codec.schema_version codec.schema_version)

  -- A result that the adapter reads back from the JSON that it dumps survives the store: what
  -- `encode` accepts, `decode` returns as it was validated, and what is stored is a full result.
  pub decode-encode :
      (codec : ResultCodec Value) (v : Value) (s : StoredResult)
      → ((w : Value) (json : Text)
          → codec.adapter.dump w ≡ ok json
          → codec.adapter.validate_json json ≡ ok w)
      → encode codec v ≡ ok s
      → (decode codec s ≡ validate codec v) × (is_completion_only s ≡ false)
  unfolding snapshot is_completion_only
  decode-encode codec v s reads h =
      let (w, json, valid, dumped, e) = encode-cases codec v s h in
      rw e (rw valid (decode-snapshot codec json w (reads w json dumped)), refl)

  read_snapshot-cases :
      (codec : ResultCodec Value) (s : StoredResult)
      → ((json : Text) (e : Exception)
          → codec.adapter.validate_json json ≡ err e
          → is_schema_mismatch e ≡ true)
      → ((json : Text) × (v : Value) × (s.result_version ≡ codec.schema_version)
          × (s.result_payload ≡ some ((codes "value", json) ∷ []))
          × (codec.adapter.validate_json json ≡ ok v)
          × (read_snapshot codec s ≡ ok v))
        ⊎ ((e : Exception) × (read_snapshot codec s ≡ err e) × (is_schema_mismatch e ≡ true))
  unfolding read_snapshot
  read_snapshot-cases codec s only =
      elim (Bool-cases (nat_beq s.result_version codec.schema_version)) [
        | inr other ↦ inr (value_error, rw other refl, refl)
        | inl same ↦ elim (snapshot_value-cases s.result_payload) [
          | inr bad ↦ inr (value_error, rw (same, bad) refl, refl)
          | inl (json, read, payload) ↦ elim (Result-cases (codec.adapter.validate_json json)) [
            | inl (v, e) ↦ inl (
              json,
              v,
              (nat_beq_iff s.result_version codec.schema_version).0 same,
              payload,
              e,
              rw (same, read) e,
            )
            | inr (e, p) ↦ inr (e, rw (same, read) p, only json e p)
          ]
        ]
      ]

  -- What `decode` gives for any stored result, with an adapter that raises nothing but validation
  -- errors on JSON. The bare completion mark is refused as not stored. Of another result, either the
  -- version is the codec's, the payload is one "value" and the adapter's reading of it is returned;
  -- or a replay is reported as unavailable.
  pub decode_outcome :
      (codec : ResultCodec Value) (s : StoredResult)
      → ((json : Text) (e : Exception)
          → codec.adapter.validate_json json ≡ err e
          → is_schema_mismatch e ≡ true)
      → ((is_completion_only s ≡ true) × (decode codec s ≡ err result_not_stored))
        ⊎ ((is_completion_only s ≡ false)
            × (((json : Text) × (v : Value) × (s.result_version ≡ codec.schema_version)
                  × (s.result_payload ≡ some ((codes "value", json) ∷ []))
                  × (codec.adapter.validate_json json ≡ ok v)
                  × (decode codec s ≡ ok v))
                ⊎ (decode codec s ≡ err replay_unavailable)))
  unfolding decode
  decode_outcome codec s only = elim (Bool-cases (is_completion_only s)) [
    | inl bare ↦ inl (bare, rw bare refl)
    | inr full ↦ elim (read_snapshot-cases codec s only) [
      | inl (json, v, same, payload, reads, e) ↦
          inr (full, inl (json, v, same, payload, reads, rw (full, e) refl))
      | inr (e, p, caught) ↦ inr (full, inr (rw (full, p, caught) refl))
    ]
  ]
