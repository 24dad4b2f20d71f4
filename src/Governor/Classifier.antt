-- ===== src/Governor/Classifier.antt =====
-- daemon/src/classifier/index.ts: which punch an event of the stream gives. A number of the JSON is one of
-- the record `Number`. What the runtime gives (`localeCompare`, `JSON.stringify`, the hash, the text of a
-- value in a template) is the record `Runtime`; `sortKeysDeep` of daemon/src/infra/utils.ts is the child
-- SortKeys. Of the characters that `toLowerCase` lowers, `lower` has A to Z.
pub mod SortKeys
pub mod Commands
pub mod Names
pub mod Events
mod Hashes
mod Dedupe
mod Verdicts
mod Tests
use repomap_core.Prelude.{
  ℕ, String, Bool, true, false, List, [], ◌∷◌, Option, none, some, str_eq, if◌then◌else◌,
  first_some, or_else,
}
use repomap_core.Prelude.Number.{Number}
use repomap_core.Prelude.Json.{Json, Fields, str, num, get, as_record, as_text}

module _ (N : Number) where
  pub record RawEvent : Type 0 where
    pub kind : String
    pub properties : Fields N.Carrier

  -- `localeCompare` at most 0; the text of a JSON value; a hash; the text of a value in a template;
  -- 0 and NaN
  pub record Runtime : Type 0 where
    pub locale_le : String → String → Bool
    pub stringify : Json N.Carrier → String
    pub sha256 : String → String
    pub to_text : Json N.Carrier → String
    pub is_falsy : N.Carrier → Bool
