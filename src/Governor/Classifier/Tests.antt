-- ===== src/Governor/Classifier/Tests.antt =====
-- Classified events, and the theorems at concrete inputs.
use Prim.Native.Char.{code}
use repomap_core.Prelude.{
  ℕ, ◌≡◌, ◌≢◌, ◌⊎◌, inl, inr, refl, arith, String, Bool, true, false, none, some, ltb, ◌==◌,
  if◌then◌else◌,
}
use repomap_core.Prelude.Number.{micros}
use repomap_core.Prelude.Json.{Fields, str, num, obj, end, field}
use repomap_core.Governor.Types.{Punch}
use repomap_core.Governor.Classifier.{RawEvent, Runtime}
use repomap_core.Governor.Classifier.Commands.{gate_of}
use repomap_core.Governor.Classifier.Names.{to_snake_case, canonical_mcp_punch_key}
use repomap_core.Governor.Classifier.Hashes.{IsKeyOrder, swap}
use repomap_core.Governor.Classifier.Dedupe.{classify_event-same_hash}
use repomap_core.Governor.Classifier.Verdicts.{IsGateRun, classify_event-gates}
use repomap_core.Governor.Classifier.Events.{classify_event, record_in}

-- the order of the dictionary, by the numbers of the characters
lex_le : String → String → Bool
lex_le String.[] t = true
lex_le (String.◌∷◌ c s) String.[] = false
lex_le (String.◌∷◌ c s) (String.◌∷◌ d t) =
    let rest = lex_le s t in
    if ltb (code c) (code d) then true else if code c == code d then rest else false

lex_total : (a b : String) → (lex_le a b ≡ true) ⊎ (lex_le b a ≡ true)
unfolding lex_le
lex_total String.[] b = inl refl
lex_total (String.◌∷◌ c s) String.[] = inr refl
lex_total (String.◌∷◌ c s) (String.◌∷◌ d t) = ground (arith, lex_total s t)

lex_trans : (a b c : String) → lex_le a b ≡ true → lex_le b c ≡ true → lex_le a c ≡ true
unfolding lex_le
lex_trans String.[] b c h k = refl
lex_trans (String.◌∷◌ x s) String.[] c h k = cc
lex_trans (String.◌∷◌ x s) (String.◌∷◌ y t) String.[] h k = cc
lex_trans (String.◌∷◌ x s) (String.◌∷◌ y t) (String.◌∷◌ z u) h k = ground (arith, lex_trans s t u)

lex-IsKeyOrder : IsKeyOrder lex_le
lex-IsKeyOrder = record { total = lex_total; trans = lex_trans }

abbrev runtime : Runtime micros
runtime = record {
  locale_le = lex_le;
  stringify = λ j. "json";
  sha256 = λ s. s;
  to_text = λ j. "value";
  is_falsy = λ n. n == 0;
}

abbrev bash_part : Fields ℕ
bash_part = field "type" (str "tool") (
    field "tool" (str "bash") (
      field "state" (obj (field "status" (str "error") end))
        (field "input" (obj (field "command" (str "cd x && pytest -q") end)) end)))

abbrev event : RawEvent micros
event = record {
  kind = "message.part.updated";
  properties = field "part" (obj bash_part) (field "at" (num 1) end);
}

abbrev turned : RawEvent micros
turned = record {
  kind = "message.part.updated";
  properties = field "at" (num 1) (field "part" (obj bash_part) end);
}

abbrev punch : ℕ → Punch micros
punch now = record {
  task_id = "unknown";
  punch_type = "gate_fail";
  punch_key = "pytest";
  observed_at = now;
  source_hash = "json";
  content_hash = none;
  cost = none;
  tokens_input = none;
  tokens_output = none;
  tokens_reasoning = none;
}

gate_failed : classify_event micros runtime event 5 ≡ some (punch 5)
unfolding classify_event
gate_failed = refl

gate_failed_again : classify_event micros runtime turned 7 ≡ some (punch 7)
unfolding classify_event
gate_failed_again = refl

formats : gate_of "uv run ruff  src --check" ≡ some "ruff-format"
unfolding gate_of
formats = refl

not_word : gate_of "mypyc x" ≡ none
unfolding gate_of
not_word = refl

snake : to_snake_case "getHTTPResponse2Code" ≡ "get_http_response2_code"
unfolding to_snake_case
snake = refl

mcp_key : canonical_mcp_punch_key "context7_get-library-docs" ≡ "get_library_docs"
unfolding canonical_mcp_punch_key
mcp_key = refl

part_after_at : lex_le "part" "at" ≢ lex_le "at" "part"
unfolding lex_le
part_after_at = cc

classify_event-same_hash_example : (punch 5).source_hash ≡ (punch 7).source_hash
classify_event-same_hash_example =
    classify_event-same_hash micros runtime event turned 5 7 (punch 5) (punch 7) lex-IsKeyOrder refl
      (swap part_after_at) gate_failed gate_failed_again

classify_event-gates_example :
    (event.kind ≡ "message.part.updated")
    × IsGateRun micros (record_in micros event.properties "part") "gate_fail" "pytest"
classify_event-gates_example =
    classify_event-gates micros runtime event 5 (punch 5) gate_failed (inr refl)
