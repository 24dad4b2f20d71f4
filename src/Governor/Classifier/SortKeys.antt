-- ===== src/Governor/Classifier/SortKeys.antt =====
-- `sortKeysDeep` of daemon/src/infra/utils.ts. An insertion sort gives what the stable sort of the runtime
-- gives; keys that look like array indices come first in any object that a program builds, which is
-- left to what turns the object into text.
use repomap_core.Prelude.{String, Bool, if◌then◌else◌}
use repomap_core.Prelude.Json.{
  Json, Items, Fields, null, bool, num, str, arr, obj, nil, cons, end, field,
}

module _ {Num : Type 0} (le : String → String → Bool) where
  unfoldable pub insert_key : String → Json Num → Fields Num → Fields Num
  insert_key key v end = field key v end
  insert_key key v (field k w fs) =
      let rest = insert_key key v fs in
      if le key k then field key v (field k w fs) else field k w rest

  unfoldable mutual
    unfolding insert_key

    pub sort_keys_deep : Json Num → Json Num
    sort_keys_deep null = null
    sort_keys_deep (bool b) = bool b
    sort_keys_deep (num x) = num x
    sort_keys_deep (str s) = str s
    sort_keys_deep (arr xs) = arr (sort_items xs)
    sort_keys_deep (obj fs) = obj (sort_fields fs)

    pub sort_items : Items Num → Items Num
    sort_items nil = nil
    sort_items (cons x xs) = cons (sort_keys_deep x) (sort_items xs)

    pub sort_fields : Fields Num → Fields Num
    sort_fields end = end
    sort_fields (field k v fs) = insert_key k (sort_keys_deep v) (sort_fields fs)
