-- ===== src/Governor/Diagnosis/Patterns.antt =====
-- The tool patterns of daemon/src/governor/diagnosis-engine.ts and the errors at the end.
use repomap_core.Prelude.{
  ℕ, ◌+◌, add_new, if-either, subst, sym, Distinct-add_new, ◌≡◌, ◌≢◌, refl, arith, String, Bool,
  true, false, ◌&&◌, List, [], ◌∷◌, some, none, length, keep, Distinct, if◌then◌else◌, str_eq,
  eq_iff, Option,
}
use repomap_core.Governor.Diagnosis.{
  PartInfo, ToolPattern, is_type, is_text, is_error, count_in, count_named, count_part, count_parts,
  build_tool_patterns,
}

-- the parts that are calls of the tool
abbrev pub is_call : String → PartInfo → Bool
is_call tool p = is_type "tool" p && is_text p.tool tool

-- what the patterns say of a tool
abbrev pub calls_of : String → List ToolPattern → ℕ
calls_of tool [] = 0
calls_of tool (p ∷ ps) = let rest = calls_of tool ps in if str_eq p.tool tool then p.count else rest

abbrev pub errors_of : String → List ToolPattern → ℕ
errors_of tool [] = 0
errors_of tool (p ∷ ps) =
    let rest = errors_of tool ps in if str_eq p.tool tool then p.error_count else rest

abbrev pub names : List ToolPattern → List String
names [] = []
names (p ∷ ps) = p.tool ∷ names ps

abbrev one_if : Bool → ℕ
one_if true = 1
one_if false = 0

module _ (t : String) where
  calls_of-count_in :
      (tool : String) (part : PartInfo) (ps : List ToolPattern)
      → calls_of t (count_in tool part ps) ≡ one_if (str_eq tool t) + calls_of t ps
  unfolding count_in
  calls_of-count_in tool part [] = ground arith
  calls_of-count_in tool part (p ∷ ps) =
      ground
        (arith, eq_iff p.tool tool, eq_iff p.tool t, eq_iff tool t, calls_of-count_in tool part ps)

  errors_of-count_in :
      (tool : String) (part : PartInfo) (ps : List ToolPattern)
      → errors_of t (count_in tool part ps)
        ≡ one_if (str_eq tool t && is_error part) + errors_of t ps
  unfolding count_in
  errors_of-count_in tool part [] = ground arith
  errors_of-count_in tool part (p ∷ ps) =
      ground
        (arith, eq_iff p.tool tool, eq_iff p.tool t, eq_iff tool t, errors_of-count_in tool part ps)

names-count_in :
    (tool : String) (part : PartInfo) (ps : List ToolPattern)
    → names (count_in tool part ps) ≡ add_new (names ps) tool
unfolding count_in
names-count_in tool part [] = refl
names-count_in tool part (p ∷ ps) = ground (arith, names-count_in tool part ps)

-- a call of the tool, with an error
abbrev pub is_failed_call : String → PartInfo → Bool
is_failed_call tool p = is_call tool p && is_error p

module _ (t : String) (named : t ≢ "") where
  calls_of-count_named :
      (o : Option String) (part : PartInfo) (ps : List ToolPattern)
      → calls_of t (count_named o part ps) ≡ one_if (is_text o t) + calls_of t ps
  unfolding count_named
  calls_of-count_named none part ps = omega arith
  calls_of-count_named (some tool) part ps =
      ground (arith, eq_iff tool "", eq_iff tool t, calls_of-count_in t tool part ps, named)

  errors_of-count_named :
      (o : Option String) (part : PartInfo) (ps : List ToolPattern)
      → errors_of t (count_named o part ps) ≡ one_if (is_text o t && is_error part) + errors_of t ps
  unfolding count_named
  errors_of-count_named none part ps = omega arith
  errors_of-count_named (some tool) part ps =
      ground (arith, eq_iff tool "", eq_iff tool t, errors_of-count_in t tool part ps, named)

  calls_of-count_part :
      (part : PartInfo) (ps : List ToolPattern)
      → calls_of t (count_part part ps) ≡ one_if (is_call t part) + calls_of t ps
  unfolding count_part
  calls_of-count_part part ps = ground (arith, calls_of-count_named part.tool part ps)

  errors_of-count_part :
      (part : PartInfo) (ps : List ToolPattern)
      → errors_of t (count_part part ps) ≡ one_if (is_failed_call t part) + errors_of t ps
  unfolding count_part
  errors_of-count_part part ps = ground (arith, errors_of-count_named part.tool part ps)

  calls_of-count_parts :
      (parts : List PartInfo) (ps : List ToolPattern)
      → calls_of t (count_parts parts ps) ≡ length (keep (is_call t) parts) + calls_of t ps
  unfolding count_parts
  calls_of-count_parts [] ps = omega arith
  calls_of-count_parts (part ∷ parts) ps =
      rw (calls_of-count_parts parts (count_part part ps), calls_of-count_part part ps)
        (ground arith)

  errors_of-count_parts :
      (parts : List PartInfo) (ps : List ToolPattern)
      → errors_of t (count_parts parts ps) ≡ length (keep (is_failed_call t) parts) + errors_of t ps
  unfolding count_parts
  errors_of-count_parts [] ps = omega arith
  errors_of-count_parts (part ∷ parts) ps =
      rw (errors_of-count_parts parts (count_part part ps), errors_of-count_part part ps)
        (ground arith)

count_named-Distinct :
    (o : Option String) (part : PartInfo) (ps : List ToolPattern)
    → Distinct (names ps)
    → Distinct (names (count_named o part ps))
unfolding count_named
count_named-Distinct none part ps d = d
count_named-Distinct (some tool) part ps d =
    if-either (λ qs. Distinct (names qs)) (str_eq tool "") ps (count_in tool part ps) d
      (subst Distinct (sym (names-count_in tool part ps)) (Distinct-add_new (names ps) tool d))

count_parts-Distinct :
    (parts : List PartInfo) (ps : List ToolPattern)
    → Distinct (names ps)
    → Distinct (names (count_parts parts ps))
unfolding count_parts count_part
count_parts-Distinct [] ps d = d
count_parts-Distinct (part ∷ parts) ps d = count_parts-Distinct parts (count_part part ps) (
    if-either (λ qs. Distinct (names qs)) (is_type "tool" part) _ ps
      (count_named-Distinct part.tool part ps d) d)

-- The patterns name each tool once, and say of every tool, none of them being named by the empty
-- text, how many parts are calls of it and how many of these have the status error.
pub build_tool_patterns-counts :
    (parts : List PartInfo) (tool : String)
    → tool ≢ ""
    → Distinct (names (build_tool_patterns parts))
      × (calls_of tool (build_tool_patterns parts) ≡ length (keep (is_call tool) parts))
      × (errors_of tool (build_tool_patterns parts) ≡ length (keep (is_failed_call tool) parts))
unfolding build_tool_patterns
build_tool_patterns-counts parts tool named = (
  count_parts-Distinct parts [] tt,
  omega (arith, calls_of-count_parts tool named parts []),
  omega (arith, errors_of-count_parts tool named parts []),
)
