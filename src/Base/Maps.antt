-- ===== src/Base/Maps.antt =====
-- A Go map keyed by strings, as an association list. A write replaces the entry of its key, or
-- adds one at the end.
use mathlib.Core.Logic.{◌≢◌}
use sdim.Base.Tests.{str_eq-false}
use Prim.Native.String.{String}
use mathlib.Core.Path.{◌≡◌, refl, ◌∙◌}
use mathlib.Core.List.{List, [], ◌∷◌}
use mathlib.Core.Option.{Option, none, some}
use native.Mathlib.Omega.{arith}
use text.Mathlib.Text.{◌==◌ as str_eq}
use text.Mathlib.TextEquality.{eq_iff}
use sdim.Base.Tests.{if◌then◌else◌}

module _ {ℓ} {V : Type ℓ} where
  unfoldable pub lookup : String → List (String × V) → Option V
  lookup key [] = none
  lookup key ((k, found) ∷ rest) = if str_eq k key then some found else lookup key rest

  unfoldable pub insert : String → V → List (String × V) → List (String × V)
  insert key val [] = (key, val) ∷ []
  insert key val ((k, old) ∷ rest) =
      if str_eq k key then (key, val) ∷ rest else (k, old) ∷ insert key val rest

  unfoldable pub delete : String → List (String × V) → List (String × V)
  delete k [] = []
  delete k ((j, w) ∷ m) = let rest = delete k m in if str_eq j k then rest else (j, w) ∷ rest

  pub lookup-insert :
      (key other : String) (val : V) (m : List (String × V))
      → lookup other (insert key val m) ≡ (if str_eq key other then some val else lookup other m)
  unfolding lookup insert
  lookup-insert key other val [] = refl
  lookup-insert key other val ((k, old) ∷ rest) =
      ground
        (arith, lookup-insert key other val rest, eq_iff k key, eq_iff k other, eq_iff key other)

  pub lookup-insert_self :
      (k : String) (v : V) (m : List (String × V)) → lookup k (insert k v m) ≡ some v
  lookup-insert_self k v m = lookup-insert k k v m ∙ rw ((eq_iff k k).1 refl) refl

  pub lookup-insert_ne :
      (k j : String) (v : V) (m : List (String × V)) → k ≢ j → lookup j (insert k v m) ≡ lookup j m
  lookup-insert_ne k j v m n = lookup-insert k j v m ∙ rw (str_eq-false k j n) refl

  pub lookup-delete :
      (k j : String) (m : List (String × V))
      → lookup j (delete k m) ≡ (if str_eq k j then none else lookup j m)
  unfolding lookup delete
  lookup-delete k j [] = ground arith
  lookup-delete k j ((i, w) ∷ m) =
      ground (arith, eq_iff k j, eq_iff i k, eq_iff i j, lookup-delete k j m)

-- A concurrent map of a package that is not in the repository (haxmap): its operations, and that
-- they read and write one key.
pub record MapOf (V M : Type 0) : Type 0 where
  pub get : String → M → Option V
  pub put : String → V → M → M
  pub del : String → M → M
  pub get-put :
      (k j : String) (v : V) (m : M) → get j (put k v m) ≡ (if str_eq k j then some v else get j m)
  pub get-del : (k j : String) (m : M) → get j (del k m) ≡ (if str_eq k j then none else get j m)

-- Association lists are such maps.
abbrev pub assoc_map : {V : Type 0} → MapOf V (List (String × V))
assoc_map = record {
  get = lookup;
  put = insert;
  del = delete;
  get-put = lookup-insert;
  get-del = lookup-delete;
}

module _ {V M : Type 0} (maps : MapOf V M) (k : String) (m : M) where
  pub get-put_self : (v : V) → maps.get k (maps.put k v m) ≡ some v
  get-put_self v = rw (maps.get-put k k v m, (eq_iff k k).1 refl) refl

  pub get-put_ne : (j : String) (v : V) → k ≢ j → maps.get j (maps.put k v m) ≡ maps.get j m
  get-put_ne j v n = rw (maps.get-put k j v m, str_eq-false k j n) refl

  pub get-del_self : maps.get k (maps.del k m) ≡ none
  get-del_self = rw (maps.get-del k k m, (eq_iff k k).1 refl) refl

  pub get-del_ne : (j : String) → k ≢ j → maps.get j (maps.del k m) ≡ maps.get j m
  get-del_ne j n = rw (maps.get-del k j m, str_eq-false k j n) refl
