-- ===== src/Memory/Payload.antt =====
-- src/cee_core/memory_types.py: a memory as a payload.
use cognitive_execution_engi.Prelude.{String, ◌≡◌, refl, List, Option, none, some}
use cognitive_execution_engi.Value.{Value}
use cognitive_execution_engi.Outcome.{ok}
use cognitive_execution_engi.Serial.{
  dict_of, required, optional, as_text, as_float, as_dict, as_text_or_null, write_each,
  read_each_all, as_texts-texts,
}
use cognitive_execution_engi.Memory.{
  PrecedentMemory, text_or_null, vector_or_null, as_vector, to_dict, from_dict,
}

text_or_null_back :
    (F : Type 0) (s : Option String) → as_text_or_null (text_or_null {F = F} s) ≡ ok s
unfolding as_text_or_null
text_or_null_back F none = refl
text_or_null_back F (some s) = refl

module _ {F : Type 0} where
  vector_or_null_back : (v : Option (List F)) → as_vector (vector_or_null v) ≡ ok v
  unfolding as_vector vector_or_null as_float write_each
  vector_or_null_back none = refl
  vector_or_null_back (some xs) =
      rw (read_each_all (λ (x : F). Value.float x) as_float xs (λ x. refl)) refl

  -- A memory that is written as a payload is read back, whatever id and time are drawn.
  pub memory_back :
      (drawn_id : String) (now : F) (m : PrecedentMemory F)
      → from_dict drawn_id now (to_dict m) ≡ ok m
  unfolding from_dict to_dict required optional dict_of as_text as_dict as_float
  memory_back drawn_id now m =
      rw
        (
          as_texts-texts F m.evidence_refs,
          text_or_null_back F m.failure_mode,
          text_or_null_back F m.approval_result,
          vector_or_null_back m.semantic_vector,
        )
        refl
