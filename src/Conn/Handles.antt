-- ===== src/Conn/Handles.antt =====
-- Lists of handles: distinct identifiers, and what taking one out leaves.
use sdim.Conn.Wraps.{without}
use sdim.Conn.Types.{Handle}
use sdim.Base.Slices.{Usli}
use sdim.Base.{
  List, String, All, ◌∷◌, length, ◌++◌, ◌≢◌, [], Bool-cases, ◌≡◌, ◌≤◌, sym, str_eq, str_eq-false,
  arith, ap, inl, eq_iff, inr, str_ne, ◌+◌,
}

module _ {A : Type 0} (P : A → Type 0) where
  pub All-append : (xs ys : List A) → All P xs → All P ys → All P (xs ++ ys)
  All-append [] ys hx hy = hy
  All-append (x ∷ xs) ys hx hy = (hx.0, All-append xs ys hx.1 hy)

  pub All-mono : {Q : A → Type 0} → ((x : A) → P x → Q x) → (xs : List A) → All P xs → All Q xs
  All-mono f [] h = tt
  All-mono f (x ∷ xs) h = (f x h.0, All-mono f xs h.1)

abbrev pub Absent : String → List Handle → Type 0
Absent id = All (λ h. h.conn_id ≢ id)

abbrev pub Distinct : List Handle → Type 0
Distinct [] = Unit {0}
Distinct (h ∷ hs) = Absent h.conn_id hs × Distinct hs

Absent-append_one :
    (id : String) (hs : List Handle) (h : Handle)
    → Absent id hs
    → h.conn_id ≢ id
    → Absent id (hs ++ h ∷ [])
Absent-append_one id hs h a n = All-append (λ h. h.conn_id ≢ id) hs (h ∷ []) a (n, tt)

pub Distinct-append_one :
    (hs : List Handle) (h : Handle) → Distinct hs → Absent h.conn_id hs → Distinct (hs ++ h ∷ [])
Distinct-append_one [] h d a = (tt, tt)
Distinct-append_one (x ∷ xs) h d a =
    (Absent-append_one x.conn_id xs h d.0 (λ e. a.0 (sym e)), Distinct-append_one xs h d.1 a.1)

module _ (us : Usli Handle) where
  -- What holds of every handle holds of those that stay.
  pub All-without :
      (P : Handle → Type 0) (id : String) (hs : List Handle) → All P hs → All P (without us id hs)
  All-without P id [] h = rw us.remove_first_if-nil tt
  All-without P id (x ∷ xs) h = elim (Bool-cases (str_eq x.conn_id id)) [
    | inl hit ↦ rw (us.remove_first_if-cons x xs _, hit) h.1
    | inr miss ↦ rw (us.remove_first_if-cons x xs _, miss) (h.0, All-without P id xs h.1)
  ]

  pub Distinct-without :
      (id : String) (hs : List Handle) → Distinct hs → Distinct (without us id hs)
  Distinct-without id [] d = rw us.remove_first_if-nil tt
  Distinct-without id (x ∷ xs) d = elim (Bool-cases (str_eq x.conn_id id)) [
    | inl hit ↦ rw (us.remove_first_if-cons x xs _, hit) d.1
    | inr miss ↦
        rw (us.remove_first_if-cons x xs _, miss)
          (All-without (λ h. h.conn_id ≢ x.conn_id) id xs d.0, Distinct-without id xs d.1)
  ]

  pub Absent-without : (id : String) (hs : List Handle) → Distinct hs → Absent id (without us id hs)
  Absent-without id [] d = rw us.remove_first_if-nil tt
  Absent-without id (x ∷ xs) d = elim (Bool-cases (str_eq x.conn_id id)) [
    | inl hit ↦ rw (us.remove_first_if-cons x xs _, hit) (rw (← (eq_iff _ _).0 hit) d.0)
    | inr miss ↦
        rw (us.remove_first_if-cons x xs _, miss)
          (str_ne x.conn_id id miss, Absent-without id xs d.1)
  ]

  pub without-Absent : (id : String) (hs : List Handle) → Absent id hs → without us id hs ≡ hs
  without-Absent id [] a = us.remove_first_if-nil _
  without-Absent id (x ∷ xs) a =
      rw (us.remove_first_if-cons x xs _, str_eq-false x.conn_id id a.0)
        (ap (◌∷◌ x) (without-Absent id xs a.1))

  pub length-without-le : (id : String) (hs : List Handle) → length (without us id hs) ≤ length hs
  length-without-le id [] = rw us.remove_first_if-nil (omega arith)
  length-without-le id (x ∷ xs) = elim (Bool-cases (str_eq x.conn_id id)) [
    | inl hit ↦ rw (us.remove_first_if-cons x xs _, hit) (omega arith)
    | inr miss ↦ rw (us.remove_first_if-cons x xs _, miss) (omega (arith, length-without-le id xs))
  ]

  pub length-without-ge :
      (id : String) (hs : List Handle) → length hs ≤ 1 + length (without us id hs)
  length-without-ge id [] = omega arith
  length-without-ge id (x ∷ xs) = elim (Bool-cases (str_eq x.conn_id id)) [
    | inl hit ↦ rw (us.remove_first_if-cons x xs _, hit) (omega arith)
    | inr miss ↦ rw (us.remove_first_if-cons x xs _, miss) (omega (arith, length-without-ge id xs))
  ]
