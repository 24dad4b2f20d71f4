-- ===== src/Governor/Classifier/Hashes.antt =====
-- That the hash of an event does not depend on the order of the keys of its objects.
use repomap_core.Prelude.{◌≡◌, ◌≢◌, refl, ap, ap₂, ◌∙◌, ◌⊎◌, arith, String, Bool, true}
use repomap_core.Prelude.Json.{Json, Items, Fields, arr, obj, nil, cons, end, field}
use repomap_core.Governor.Classifier.SortKeys.{insert_key, sort_keys_deep, sort_items, sort_fields}

-- Two values with the same content: neighbouring fields may change places, at any depth, where the
-- comparison of their keys puts one of them before the other.
mutual
  pub data SameJson (Num : Type 0) (le : String → String → Bool)
      : Json Num → Json Num → Type 0 where
    same : {v : Json Num} → SameJson Num le v v
    same_arr : {xs ys : Items Num} → SameItems Num le xs ys → SameJson Num le (arr xs) (arr ys)
    same_obj : {fs gs : Fields Num} → SameFields Num le fs gs → SameJson Num le (obj fs) (obj gs)

  pub data SameItems (Num : Type 0) (le : String → String → Bool)
      : Items Num → Items Num → Type 0 where
    same_nil : SameItems Num le nil nil
    same_cons :
        {v w : Json Num} {xs ys : Items Num}
        → SameJson Num le v w
        → SameItems Num le xs ys
        → SameItems Num le (cons v xs) (cons w ys)

  pub data SameFields (Num : Type 0) (le : String → String → Bool)
      : Fields Num → Fields Num → Type 0 where
    same_end : SameFields Num le end end
    same_field :
        {k : String} {v w : Json Num} {fs gs : Fields Num}
        → SameJson Num le v w
        → SameFields Num le fs gs
        → SameFields Num le (field k v fs) (field k w gs)
    swap :
        {k l : String} {v w : Json Num} {fs : Fields Num}
        → le k l ≢ le l k
        → SameFields Num le (field k v (field l w fs)) (field l w (field k v fs))
    then_same :
        {fs gs hs : Fields Num}
        → SameFields Num le fs gs
        → SameFields Num le gs hs
        → SameFields Num le fs hs

-- a total preorder on the keys: different keys may be equal in it
pub record IsKeyOrder (le : String → String → Bool) : Type 0 where
  pub total : (a b : String) → (le a b ≡ true) ⊎ (le b a ≡ true)
  pub trans : (a b c : String) → le a b ≡ true → le b c ≡ true → le a c ≡ true

module _ {Num : Type 0} (le : String → String → Bool) (order : IsKeyOrder le) where
  insert_key_comm :
      (k l : String) (v w : Json Num) (fs : Fields Num)
      → le k l ≢ le l k
      → insert_key le k v (insert_key le l w fs) ≡ insert_key le l w (insert_key le k v fs)
  unfolding insert_key
  insert_key_comm k l v w end ne = ground (arith, order.total k l, ne)
  insert_key_comm k l v w (field m u fs) ne = ground (
    arith,
    order.total k l,
    ne,
    order.total k m,
    order.total l m,
    order.trans k l m,
    order.trans l k m,
    order.trans k m l,
    order.trans l m k,
    insert_key_comm k l v w fs ne,
  )

  mutual
    unfolding sort_keys_deep

    pub sort_keys_deep-SameJson :
        {v w : Json Num} → SameJson Num le v w → sort_keys_deep le v ≡ sort_keys_deep le w
    sort_keys_deep-SameJson same = refl
    sort_keys_deep-SameJson (same_arr h) = ap arr (sort_items-SameItems h)
    sort_keys_deep-SameJson (same_obj h) = ap obj (sort_fields-SameFields h)

    sort_items-SameItems :
        {xs ys : Items Num} → SameItems Num le xs ys → sort_items le xs ≡ sort_items le ys
    sort_items-SameItems same_nil = refl
    sort_items-SameItems (same_cons h hs) =
        ap₂ cons (sort_keys_deep-SameJson h) (sort_items-SameItems hs)

    sort_fields-SameFields :
        {fs gs : Fields Num} → SameFields Num le fs gs → sort_fields le fs ≡ sort_fields le gs
    sort_fields-SameFields same_end = refl
    sort_fields-SameFields (same_field {k} h hs) =
        ap₂ (insert_key le k) (sort_keys_deep-SameJson h) (sort_fields-SameFields hs)
    sort_fields-SameFields (swap {k} {l} {v} {w} {fs} ne) =
        insert_key_comm k l (sort_keys_deep le v) (sort_keys_deep le w) (sort_fields le fs) ne
    sort_fields-SameFields (then_same h1 h2) = sort_fields-SameFields h1 ∙ sort_fields-SameFields h2
