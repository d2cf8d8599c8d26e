-- ===== src/Base/Slices.antt =====
-- The helpers on slices of gmicro_pkg/pkg/utils/usli, which is not in the repository: parameters,
-- with what their names and their callers say of them.
use mathlib.Core.Path.{◌≡◌, refl}
use mathlib.Core.Bool.{Bool}
use mathlib.Core.List.{List, [], ◌∷◌}
use Prim.Native.Nat.{ℕ, zero, suc}
use sdim.Base.Tests.{if◌then◌else◌}

pub record Usli (A : Type 0) : Type 0 where
  pub remove_first_if : List A → (A → Bool) → List A
  pub remove : List A → ℕ → List A
  pub remove_first_if-nil : (p : A → Bool) → remove_first_if [] p ≡ []
  pub remove_first_if-cons :
      (x : A) (xs : List A) (p : A → Bool)
      → remove_first_if (x ∷ xs) p ≡ (if p x then xs else x ∷ remove_first_if xs p)
  pub remove-zero : (x : A) (xs : List A) → remove (x ∷ xs) 0 ≡ xs

unfoldable pub drop_first : {A : Type 0} → List A → (A → Bool) → List A
drop_first [] p = []
drop_first (x ∷ xs) p = if p x then xs else x ∷ drop_first xs p

unfoldable pub drop_at : {A : Type 0} → List A → ℕ → List A
drop_at [] i = []
drop_at (x ∷ xs) zero = xs
drop_at (x ∷ xs) (suc i) = x ∷ drop_at xs i

pub drop_first-nil : {A : Type 0} (p : A → Bool) → drop_first [] p ≡ []
unfolding drop_first
drop_first-nil p = refl

pub drop_first-cons :
    {A : Type 0} (x : A) (xs : List A) (p : A → Bool)
    → drop_first (x ∷ xs) p ≡ (if p x then xs else x ∷ drop_first xs p)
unfolding drop_first
drop_first-cons x xs p = refl

pub drop_at-zero : {A : Type 0} (x : A) (xs : List A) → drop_at (x ∷ xs) 0 ≡ xs
unfolding drop_at
drop_at-zero x xs = refl

-- Functions that behave so.
abbrev pub usli : {A : Type 0} → Usli A
usli = record {
  remove_first_if = drop_first;
  remove = drop_at;
  remove_first_if-nil = drop_first-nil;
  remove_first_if-cons = drop_first-cons;
  remove-zero = drop_at-zero;
}
