-- ===== src/Push/Added.antt =====
-- The handler of new conversations: whom each member is told about.
use mathlib.Core.List.{append-nil}
use sdim.Push.Reach.{All-entry}
use sdim.Codec.Frame.{new_conv_update_frame}
use sdim.Conn.Ops.{get_users_conns, get_user_conns}
use sdim.Push.Handlers.{handle_conv_add, encoded, Formed, added_form, update_form, formed, skip}
use sdim.Base.Slices.{Usli}
use sdim.Conn.Types.{ClientConnWrap, ClientConn, Handle, ConnManager}
use sdim.Base.Maps.{MapOf}
use sdim.Push.Delivery.{Delivers, reach, sends, push_members-written, turn}
use sdim.Topic.Load.{ConvAddEventPayload}
use sdim.Push.Bodies.{FindFirst, relation_of, ConvUpdateFrame, conv_add_body}
use sdim.Base.{
  String, ◌≢◌, ◌≡◌, ◌∷◌, [], ℕ, some, List, not, Bool, str_eq, ◌∙◌, eq_iff, str_eq-false, sym, refl,
  map, ◌++◌, ap, ap₂, none,
}

added_form-known :
    (ff : FindFirst) (fmt : ConvUpdateFrame → List ℕ) (pd : ConvAddEventPayload) (m r : String)
    → relation_of ff pd m ≡ some r
    → added_form ff (λ body. some (fmt body)) pd m
      ≡ formed (new_conv_update_frame (fmt (conv_add_body pd m r)))
unfolding added_form update_form
added_form-known ff fmt pd m r e =
    ap
      (λ o. elim o [
        | none ↦ skip
        | some relation_id ↦ update_form (λ body. some (fmt body)) (conv_add_body pd m relation_id)
      ])
      e

-- The writes that tell a member that the conversation with another is there.
abbrev pub introduce :
    (ℕ → Bool)
    → (String → List ℕ)
    → (ConvUpdateFrame → List ℕ)
    → ConvAddEventPayload
    → String
    → String
    → List (ℕ × List ℕ)
introduce accepts conns fmt pd m other =
    map (λ c. (c, encoded (new_conv_update_frame (fmt (conv_add_body pd m other)))))
      (reach accepts (conns m))

module _ (ff : FindFirst) (pd : ConvAddEventPayload) (a b : String) (distinct : a ≢ b)
    (direct : pd.relation_id ≡ "") (two : pd.members ≡ a ∷ b ∷ []) where
  relation_first : relation_of ff pd a ≡ some b
  unfolding relation_of
  relation_first =
      rw (direct, two)
        (ff.find_first_if-cons a (b ∷ []) (λ val. not (str_eq val a))
          ∙ rw ((eq_iff a a).1 refl) (
              ff.find_first_if-cons b [] (λ val. not (str_eq val a))
              ∙ rw (str_eq-false b a (λ e. distinct (sym e))) refl))

  relation_second : relation_of ff pd b ≡ some a
  unfolding relation_of
  relation_second =
      rw (direct, two)
        (ff.find_first_if-cons a (b ∷ []) (λ val. not (str_eq val b))
          ∙ rw (str_eq-false a b distinct) refl)

  module _ {S : Type 0} {write : S → ℕ → List ℕ → S × Bool} {written : S → List (ℕ × List ℕ)}
      {accepts : ℕ → Bool} (lawful : Delivers write written accepts) {U I : Type 0}
      (users : MapOf ClientConnWrap U) (ids : MapOf ClientConn I) (sl : Usli Handle)
      (cm : ConnManager U I) (fmt : ConvUpdateFrame → List ℕ) where
    -- When a direct conversation is new, which the payload says by two members and no relation,
    -- each of the two different members is told, on the connections that take the write, that it
    -- has a conversation with the other one, and nobody else is told anything. The formatter does
    -- not fail.
    pub handle_conv_add-written :
        (s : S)
        → written (
            handle_conv_add write
              (get_users_conns users ids sl cm)
              ff
              (λ body. some (fmt body))
              (some pd)
              s)
          ≡ written s
            ++ (introduce accepts (get_user_conns users ids sl cm) fmt pd a b
                ++ introduce accepts (get_user_conns users ids sl cm) fmt pd b a)
    unfolding handle_conv_add
    handle_conv_add-written s =
        push_members-written lawful form (λ m. get_user_conns users ids sl cm m)
          (get_users_conns users ids sl cm pd.members) pd.members s
          (All-entry users ids sl cm pd.members)
        ∙ ap (◌++◌ (written s))
            (ap (sends accepts form (λ m. get_user_conns users ids sl cm m)) two ∙ turns)
      where
        form : String → Formed
        form = added_form ff (λ body. some (fmt body)) pd

        turns :
            sends accepts form (λ m. get_user_conns users ids sl cm m) (a ∷ b ∷ [])
            ≡ introduce accepts (get_user_conns users ids sl cm) fmt pd a b
              ++ introduce accepts (get_user_conns users ids sl cm) fmt pd b a
        turns =
            ap₂
              (λ fa fb.
                turn accepts (turn accepts [] (get_user_conns users ids sl cm b) fb)
                  (get_user_conns users ids sl cm a) fa)
              (added_form-known ff fmt pd a b relation_first)
              (added_form-known ff fmt pd b a relation_second)
            ∙ ap (◌++◌ (introduce accepts (get_user_conns users ids sl cm) fmt pd a b))
                (append-nil (introduce accepts (get_user_conns users ids sl cm) fmt pd b a))
