-- ===== src/Topic/Ids.antt =====
-- generateP2pConvId.
use sdim.Topic.Merge.{generate_p2p_conv_id}
use sdim.Base.{◌≡◌, ap₂, ap, refl, ◌∙◌, sym}
use Prim.Native.Nat.compare as compare_ℕ
use Prim.Native.Nat.{ℕ, zero, suc, Ordering, compare as compare_ℕ}
use Prim.Native.String.compare
use Prim.Native.String.{String, [], ◌∷◌, compare, then}
use text.Mathlib.TextEquality.{path_by_compare}
use Prim.Native.Char.{code}

swap : Ordering → Ordering
swap Ordering.lt = Ordering.gt
swap Ordering.eq = Ordering.eq
swap Ordering.gt = Ordering.lt

compare_nat-swap : (m n : ℕ) → compare_ℕ n m ≡ swap (compare_ℕ m n)
unfolding swap
compare_nat-swap zero zero = refl
compare_nat-swap zero (suc n) = compare_ℕ.suc-zero n ∙ ap swap (sym (compare_ℕ.zero-suc n))
compare_nat-swap (suc m) zero = compare_ℕ.zero-suc m ∙ ap swap (sym (compare_ℕ.suc-zero m))
compare_nat-swap (suc m) (suc n) =
    compare_ℕ.suc-suc n m ∙ compare_nat-swap m n ∙ ap swap (sym (compare_ℕ.suc-suc m n))

then-swap : (o p : Ordering) → then (swap o) (swap p) ≡ swap (then o p)
unfolding swap
then-swap Ordering.lt p = refl
then-swap Ordering.eq p = refl
then-swap Ordering.gt p = refl

compare-swap : (s t : String) → compare t s ≡ swap (compare s t)
unfolding swap
compare-swap [] [] = refl
compare-swap [] (d ∷ t) = compare.cons-nil d t ∙ ap swap (sym (compare.nil-cons d t))
compare-swap (c ∷ s) [] = compare.nil-cons c s ∙ ap swap (sym (compare.cons-nil c s))
compare-swap (c ∷ s) (d ∷ t) =
    compare.cons-cons d c t s
    ∙ ap₂ then (compare_nat-swap (code c) (code d)) (compare-swap s t)
    ∙ then-swap (compare_ℕ (code c) (code d)) (compare s t)
    ∙ ap swap (sym (compare.cons-cons c d s t))

-- The id of a direct conversation does not depend on who writes first.
pub generate_p2p_conv_id_comm : (a b : String) → generate_p2p_conv_id a b ≡ generate_p2p_conv_id b a
unfolding generate_p2p_conv_id swap
generate_p2p_conv_id_comm a b = go (compare a b) refl
  where
    go : (o : Ordering) → compare a b ≡ o → generate_p2p_conv_id a b ≡ generate_p2p_conv_id b a
    go Ordering.lt e = rw (generate_p2p_conv_id, e, compare-swap a b, e) refl
    go Ordering.gt e = rw (generate_p2p_conv_id, e, compare-swap a b, e) refl
    go Ordering.eq e =
        ap (λ s. generate_p2p_conv_id s b) (path_by_compare a b e)
        ∙ ap (generate_p2p_conv_id b) (sym (path_by_compare a b e))
