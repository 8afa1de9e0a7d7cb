-- ===== src/Execution/Reconciler/Preference.antt =====
-- Which of several open records of a symbol is picked.
use trader_ai.Prelude.{
  ◌≡◌, refl, sym, ◌∙◌, ap, subst, ◌⊎◌, inl, inr, Bool, true, false, Option, none, some, List, [],
  ◌∷◌, if_both, ltb, leb, String, arith,
}
use trader_ai.Prelude.Dict.{Dict, lookup}
use trader_ai.Prelude.Options.{some_injective}
use trader_ai.Execution.OrderState.{OrderRecord}
use trader_ai.Execution.Reconciler.{
  insert_recent, by_recency, head, tag_matches, tagged, or_recent, pick_record,
}

module _ {F : Type 0} where
  abbrev pub All : (OrderRecord F → Type 0) → List (OrderRecord F) → Type 0
  All P [] = Unit
  All P (r ∷ rs) = P r × All P rs

  abbrev pub HasTag : Dict String → String → OrderRecord F → Type 0
  HasTag tags s r = tag_matches (lookup r.client_order_id tags) s ≡ true

  abbrev pub HasNoTag : Dict String → String → OrderRecord F → Type 0
  HasNoTag tags s r = tag_matches (lookup r.client_order_id tags) s ≡ false

  abbrev pub NotNewer : OrderRecord F → OrderRecord F → Type 0
  NotNewer r q = leb q.updated_at r.updated_at ≡ true

  -- The only candidate, or one that the orderbook tags for the symbol, or, where it tags none of
  -- them, one than which no candidate was updated later.
  abbrev pub IsPreferred : List (OrderRecord F) → Dict String → String → OrderRecord F → Type 0
  IsPreferred rs tags s r =
      (rs ≡ r ∷ []) ⊎ HasTag tags s r ⊎ (All (HasNoTag tags s) rs × All (NotNewer r) rs)

  tagged-HasTag :
      (tags : Dict String) (s : String) (rs : List (OrderRecord F)) (r : OrderRecord F)
      → tagged tags s rs ≡ some r
      → HasTag tags s r
  tagged-HasTag tags s [] r h = ground (arith, h)
  tagged-HasTag tags s (q ∷ rs) r h =
      if_both (λ o. o ≡ some r → HasTag tags s r) (tag_matches (lookup q.client_order_id tags) s)
        (λ t e. subst (HasTag tags s) (some_injective e) t) (λ _. tagged-HasTag tags s rs r) h

  tagged-HasNoTag :
      (tags : Dict String) (s : String) (rs : List (OrderRecord F))
      → tagged tags s rs ≡ none
      → All (HasNoTag tags s) rs
  tagged-HasNoTag tags s [] h = tt
  tagged-HasNoTag tags s (q ∷ rs) h =
      if_both (λ o. o ≡ none → All (HasNoTag tags s) (q ∷ rs))
        (tag_matches (lookup q.client_order_id tags) s) (λ _ e. ground (arith, e))
        (λ f e. (f, tagged-HasNoTag tags s rs e)) h

  NotNewer-trans :
      (p r : OrderRecord F) (rs : List (OrderRecord F))
      → NotNewer r p
      → All (NotNewer p) rs
      → All (NotNewer r) rs
  NotNewer-trans p r [] h k = tt
  NotNewer-trans p r (q ∷ rs) h k = (ground (arith, h, k.0), NotNewer-trans p r rs h k.1)

  abbrev is_nil : List (OrderRecord F) → Bool
  is_nil [] = true
  is_nil (r ∷ rs) = false

  insert_recent_nonempty :
      (r : OrderRecord F) (rs : List (OrderRecord F)) → is_nil (insert_recent r rs) ≡ false
  insert_recent_nonempty r [] = refl
  insert_recent_nonempty r (q ∷ rs) =
      if_both (λ l. is_nil l ≡ false) (ltb r.updated_at q.updated_at) (λ _. refl) (λ _. refl)

  -- The first of the sorted candidates: none of them was updated later.
  abbrev Newest : List (OrderRecord F) → List (OrderRecord F) → Type 0
  Newest [] rs = rs ≡ []
  Newest (p ∷ ps) rs = All (NotNewer p) rs

  insert_recent-Newest :
      (r : OrderRecord F) (ps rs : List (OrderRecord F))
      → Newest ps rs
      → Newest (insert_recent r ps) (r ∷ rs)
  insert_recent-Newest r [] rs h = (ground arith, subst (All (NotNewer r)) (sym h) tt)
  insert_recent-Newest r (p ∷ ps) rs h =
      if_both (λ l. Newest l (r ∷ rs)) (ltb r.updated_at p.updated_at)
        (λ later. (ground (arith, later), h))
        (λ first. (ground arith, NotNewer-trans p r rs (ground (arith, first)) h))

  by_recency-Newest : (rs : List (OrderRecord F)) → Newest (by_recency rs) rs
  by_recency-Newest [] = refl
  by_recency-Newest (r ∷ rs) = insert_recent-Newest r (by_recency rs) rs (by_recency-Newest rs)

  head-NotNewer :
      (ps rs : List (OrderRecord F)) (r : OrderRecord F)
      → Newest ps rs
      → head ps ≡ some r
      → All (NotNewer r) rs
  head-NotNewer [] rs r h e = ground (arith, e)
  head-NotNewer (p ∷ ps) rs r h e = subst (λ q. All (NotNewer q) rs) (some_injective e) h

  pub pick_record-IsPreferred :
      (rs : List (OrderRecord F)) (s : String) (tags : Dict String) (r : OrderRecord F)
      → pick_record rs s tags ≡ some r
      → IsPreferred rs tags s r
  unfolding pick_record
  pick_record-IsPreferred [] s tags r h = ground (arith, h)
  pick_record-IsPreferred (q ∷ []) s tags r h = inl (ap (λ x. x ∷ []) (some_injective h))
  pick_record-IsPreferred (p ∷ q ∷ rs) s tags r h = preferred (tagged tags s (p ∷ q ∷ rs)) refl h
    where
      preferred :
          (o : Option (OrderRecord F))
          → tagged tags s (p ∷ q ∷ rs) ≡ o
          → or_recent o (p ∷ q ∷ rs) ≡ some r
          → IsPreferred (p ∷ q ∷ rs) tags s r
      preferred (some t) e k = inr (inl (tagged-HasTag tags s (p ∷ q ∷ rs) r (e ∙ k)))
      preferred none e k = inr (
          inr (
            tagged-HasNoTag tags s (p ∷ q ∷ rs) e,
            head-NotNewer (by_recency (p ∷ q ∷ rs)) (p ∷ q ∷ rs) r (by_recency-Newest (p ∷ q ∷ rs))
                k,
          ))
