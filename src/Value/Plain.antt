-- ===== src/Value/Plain.antt =====
-- Values without tuples, which come back from JSON as they went.
use cognitive_execution_engi.Prelude.{◌≡◌, refl, Bool, true, false, ◌&&◌, arith}
use cognitive_execution_engi.Value
use cognitive_execution_engi.Value.{Value, Values, Entries}
use cognitive_execution_engi.Value.Json.{as_json, each_as_json, entries_as_json}

both_left : (a b : Bool) → a && b ≡ true → a ≡ true
both_left a b h = ground arith

both_right : (a b : Bool) → a && b ≡ true → b ≡ true
both_right a b h = ground arith

module _ {F : Type 0} where
  -- no tuple is in it, at any depth
  unfoldable mutual
    pub is_plain : Value F → Bool
    is_plain (Value.list vs) = all_plain vs
    is_plain (Value.tuple vs) = false
    is_plain (Value.dict d) = entries_plain d
    is_plain v = true

    pub all_plain : Values F → Bool
    all_plain Value.nil = true
    all_plain (Value.cons v vs) = is_plain v && all_plain vs

    pub entries_plain : Entries F → Bool
    entries_plain Value.end = true
    entries_plain (Value.entry k v d) = is_plain v && entries_plain d

  mutual
    unfolding as_json each_as_json entries_as_json is_plain all_plain entries_plain

    as_json-is_plain : (v : Value F) → is_plain (as_json v) ≡ true
    as_json-is_plain (Value.list vs) = each_as_json-all_plain vs
    as_json-is_plain (Value.tuple vs) = each_as_json-all_plain vs
    as_json-is_plain (Value.dict d) = entries_as_json-entries_plain d
    as_json-is_plain _ = refl

    each_as_json-all_plain : (vs : Values F) → all_plain (each_as_json vs) ≡ true
    each_as_json-all_plain Value.nil = refl
    each_as_json-all_plain (Value.cons v vs) =
        rw (as_json-is_plain v, each_as_json-all_plain vs) refl

    pub entries_as_json-entries_plain : (d : Entries F) → entries_plain (entries_as_json d) ≡ true
    entries_as_json-entries_plain Value.end = refl
    entries_as_json-entries_plain (Value.entry k v d) =
        rw (as_json-is_plain v, entries_as_json-entries_plain d) refl

  mutual
    unfolding as_json each_as_json entries_as_json is_plain all_plain entries_plain

    as_json_plain : (v : Value F) → is_plain v ≡ true → as_json v ≡ v
    as_json_plain (Value.list vs) h = rw (each_as_json_plain vs h) refl
    as_json_plain (Value.tuple vs) h = absurd (cc)
    as_json_plain (Value.dict d) h = rw (entries_as_json_plain d h) refl
    as_json_plain _ h = refl

    each_as_json_plain : (vs : Values F) → all_plain vs ≡ true → each_as_json vs ≡ vs
    each_as_json_plain Value.nil h = refl
    each_as_json_plain (Value.cons v vs) h =
        rw
          (
            as_json_plain v (both_left (is_plain v) (all_plain vs) h),
            each_as_json_plain vs (both_right (is_plain v) (all_plain vs) h),
          )
          refl

    pub entries_as_json_plain : (d : Entries F) → entries_plain d ≡ true → entries_as_json d ≡ d
    entries_as_json_plain Value.end h = refl
    entries_as_json_plain (Value.entry k v d) h =
        rw
          (
            as_json_plain v (both_left (is_plain v) (entries_plain d) h),
            entries_as_json_plain d (both_right (is_plain v) (entries_plain d) h),
          )
          refl
