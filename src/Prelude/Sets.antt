-- ===== src/Prelude/Sets.antt =====
-- Sets of strings as lists of their members: `contains`, `add_new` and counting.
use Prim.Native.Nat.{ℕ, suc, ◌≤◌}
use Prim.Native.String.{String}
use mathlib.Core.Path.{◌≡◌, refl}
use mathlib.Core.Bool.{true, false, ◌||◌}
use mathlib.Core.List.{List, [], ◌∷◌, ◌++◌}
use native.Mathlib.Omega.{arith}
use text.Mathlib.Text.{◌==◌}
use text.Mathlib.TextEquality.{eq_iff}
use repomap_core.Prelude.Tests.{if◌then◌else◌}
use repomap_core.Prelude.Lists.{add_all, length, contains, add_new}

pub contains-append :
    (xs ys : List String) (a : String) → contains (xs ++ ys) a ≡ (contains xs a || contains ys a)
contains-append [] ys a = refl
contains-append (x ∷ xs) ys a = ground (arith, contains-append xs ys a)

pub contains-add_new :
    (xs : List String) (c a : String) → contains (add_new xs c) a ≡ (contains xs a || c == a)
contains-add_new xs c a = ground (arith, contains-append xs (c ∷ []) a, eq_iff c a)

pub contains-add_all :
    (acc xs : List String) (a : String)
    → contains (add_all acc xs) a ≡ (contains acc a || contains xs a)
contains-add_all acc [] a = ground arith
contains-add_all acc (x ∷ xs) a =
    ground (arith, contains-add_all (add_new acc x) xs a, contains-add_new acc x a)

pub contains-head : (x : String) (xs : List String) → contains (x ∷ xs) x ≡ true
contains-head x xs = ground (arith, eq_iff x x)

pub contains-tail :
    (x : String) (xs : List String) (a : String) → contains xs a ≡ true → contains (x ∷ xs) a ≡ true
contains-tail x xs a h = ground arith

pub contains-one : (x a : String) → contains (x ∷ []) a ≡ true → x ≡ a
contains-one x a h = ground (arith, eq_iff x a)

-- no member twice
abbrev pub Distinct : List String → Type 0
Distinct [] = Unit
Distinct (x ∷ xs) = (contains xs x ≡ false) × Distinct xs

Distinct-snoc :
    (xs : List String) (a : String) → contains xs a ≡ false → Distinct xs → Distinct (xs ++ a ∷ [])
Distinct-snoc [] a h d = (refl, tt)
Distinct-snoc (x ∷ xs) a h d = (
  ground (arith, contains-append xs (a ∷ []) x, eq_iff a x, eq_iff x a),
  Distinct-snoc xs a (ground arith) d.1,
)

pub Distinct-add_new : (xs : List String) (a : String) → Distinct xs → Distinct (add_new xs a)
Distinct-add_new xs a d = ground (arith, Distinct-snoc xs a)

-- the entries of `universe` outside `set`
abbrev pub outside : List String → List String → ℕ
outside [] set = 0
outside (u ∷ universe) set =
    let rest = outside universe set in if contains set u then rest else suc rest

outside_mono :
    (universe set : List String) (a : String)
    → outside universe (set ++ a ∷ []) ≤ outside universe set
outside_mono [] set a = omega arith
outside_mono (u ∷ universe) set a =
    ground (arith, contains-append set (a ∷ []) u, outside_mono universe set a)

pub outside_add :
    (universe set : List String) (a : String)
    → contains universe a ≡ true
    → contains set a ≡ false
    → suc (outside universe (set ++ a ∷ [])) ≤ outside universe set
outside_add [] set a h k = cc
outside_add (u ∷ universe) set a h k = ground (
  arith,
  contains-append set (a ∷ []) u,
  eq_iff u a,
  eq_iff a u,
  outside_mono universe set a,
  outside_add universe set a,
)

pub outside-le : (universe set : List String) → outside universe set ≤ length universe
outside-le [] set = omega arith
outside-le (u ∷ universe) set = ground (arith, outside-le universe set)
