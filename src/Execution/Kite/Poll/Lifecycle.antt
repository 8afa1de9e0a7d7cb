-- ===== src/Execution/Kite/Poll/Lifecycle.antt =====
-- The life of the records over a whole poll.
use mathlib.Core.Path.{subst}
use trader_ai.Prelude.{
  ◌≡◌, refl, ◌⊎◌, inl, inr, true, false, some, List, [], ◌∷◌, arith, sym, ap, ◌∙◌, Bool-cases,
  String, str_eq, str_eq_iff,
}
use trader_ai.Prelude.Dict.{lookup, lookup-insert}
use trader_ai.Float.{Float}
use trader_ai.Execution.Exceptions.{Outcome, returned, raised, is_kite}
use trader_ai.Execution.OrderState.{OrderRecord}
use trader_ai.Execution.OrderState.Store.{Store, upsert, list_open}
use trader_ai.Execution.OrderState.Store.Laws.{
  has, Unique, Tracks, Tracks-upsert, IsTable, upsert-IsTable, list_open-Tracks,
}
use trader_ai.Execution.Kite.Client.{GttRow, OrderRow}
use trader_ai.Execution.Kite.Monad.{Setup, Broker, M, ◌>>=◌, retried, stored, for_each}
use trader_ai.Execution.Kite.Poll.{
  advance, advance_all, after_gtts, poll_gtts, after_orders, poll_orders, poll_records,
  poll_and_advance,
}
use trader_ai.Execution.Kite.Poll.Laws.{Successor, Moves, advance-Moves}

module _ {F : Type 0} where
  -- The row of an id after a poll over some records: the same, or the successor of the record that
  -- stood there, which is then one of those.
  abbrev pub RowMoves : String → List (OrderRecord F) → Store F → Store F → Type 0
  RowMoves j rs s s' =
      (lookup j s' ≡ lookup j s)
      ⊎ ((r : OrderRecord F) × (r' : OrderRecord F) × (has j rs ≡ true)
          × (lookup j s ≡ some r)
          × (lookup j s' ≡ some r')
          × Successor r r')

  upsert-RowMoves :
      (j : String) (r r' : OrderRecord F) (rs : List (OrderRecord F)) (s : Store F)
      → lookup r.client_order_id s ≡ some r
      → Successor r r'
      → RowMoves j (r ∷ rs) s (upsert r' s)
  unfolding upsert
  upsert-RowMoves j r r' rs s e su = elim (Bool-cases (str_eq r.client_order_id j)) [
    | inl own ↦
        let here = (str_eq_iff r.client_order_id j).0 own in
        inr (
          r,
          r',
          rw own,
          subst (λ x. lookup x s ≡ some r) here e,
          ground (arith, lookup-insert r'.client_order_id j r' s, su.same_id, own),
          su,
        )
    | inr other ↦ inl (ground (arith, lookup-insert r'.client_order_id j r' s, su.same_id, other))
  ]

  twice :
      (j : String) (r : OrderRecord F) (rs : List (OrderRecord F))
      → has r.client_order_id rs ≡ false
      → has j (r ∷ []) ≡ true
      → has j rs ≡ true
      → ⊥
  twice j r rs f h k =
      let here : str_eq r.client_order_id j ≡ true = ground arith in
      let same = (str_eq_iff r.client_order_id j).0 here in cc (rw same at f)

  RowMoves-trans :
      (j : String) (r : OrderRecord F) (rs : List (OrderRecord F)) (s t u : Store F)
      → has r.client_order_id rs ≡ false
      → RowMoves j (r ∷ []) s t
      → RowMoves j rs t u
      → RowMoves j (r ∷ rs) s u
  RowMoves-trans j r rs s t u f (inl p) (inl q) = inl (q ∙ p)
  RowMoves-trans j r rs s t u f (inl p) (inr m) =
      inr (m.0, m.1, ground (arith, m.2), sym p ∙ m.3, m.4, m.5)
  RowMoves-trans j r rs s t u f (inr m) (inl q) =
      inr (m.0, m.1, ground (arith, m.2), m.3, q ∙ m.4, m.5)
  RowMoves-trans j r rs s t u f (inr m) (inr n) = absurd (twice j r rs f m.2 n.2)

module _ {F W : Type 0} ⦃fl : Float F⦄ where
  -- The call did not raise, and the store moved along the lives of those records alone.
  abbrev pub StoreMoves :
      String → List (OrderRecord F) → Store F → Outcome (Unit {0}) × Broker F W → Type 0
  StoreMoves j rs s (res, c) =
      (res ≡ returned tt)
      × ((s' : Store F) × (c.state_store ≡ some s') × IsTable s' × RowMoves j rs s s')

  -- A loop whose rounds each move their own record.
  module _ (move : OrderRecord F → M F W (Unit {0}))
      (moves : (r : OrderRecord F) (b : Broker F W) → Moves r b (move r b)) where
    move-StoreMoves :
        (j : String) (r : OrderRecord F) (rs : List (OrderRecord F)) (b : Broker F W) (s : Store F)
        → b.state_store ≡ some s
        → IsTable s
        → Tracks s (r ∷ rs)
        → Unique (r ∷ rs)
        → (s' : Store F) × ((move r b).1.state_store ≡ some s')
          × IsTable s'
          × RowMoves j (r ∷ []) s s'
          × Tracks s' rs
    move-StoreMoves j r rs b s e v t u = elim (moves r b).1 [
      | inl same ↦ (s, same ∙ e, v, inl refl, t.1)
      | inr (r', su', wrote) ↦ (
        upsert r' s,
        wrote ∙ ap (stored r') e,
        upsert-IsTable r' s v,
        upsert-RowMoves j r r' [] s t.0 su',
        Tracks-upsert r' s rs (subst (λ x. has x rs ≡ false) (sym su'.same_id) u.0) t.1,
      )
    ]

    pub for_each-StoreMoves :
        (j : String) (rs : List (OrderRecord F)) (b : Broker F W) (s : Store F)
        → b.state_store ≡ some s
        → IsTable s
        → Tracks s rs
        → Unique rs
        → StoreMoves j rs s (for_each move rs b)
    unfolding for_each
    for_each-StoreMoves j [] b s e v t u = (refl, (s, e, v, inl refl))
    for_each-StoreMoves j (r ∷ rs) b s e v t u =
        let (s', e', v', first, t') = move-StoreMoves j r rs b s e v t u in
        let (done, (s₂, e₂, v₂, rest)) = for_each-StoreMoves j rs (move r b).1 s' e' v' t' u.1 in
        rw ((moves r b).0, ◌>>=◌) (done, (s₂, e₂, v₂, RowMoves-trans j r rs s s' s₂ u.0 first rest))

  -- The store is a table and moved along the lives of those records alone.
  abbrev pub TableMoves : String → List (OrderRecord F) → Store F → Broker F W → Type 0
  TableMoves j rs s c = (s' : Store F) × (c.state_store ≡ some s') × IsTable s' × RowMoves j rs s s'

  after_gtts-store :
      (answer : Outcome (List (GttRow F))) (c : Broker F W)
      → (after_gtts answer c).1.state_store ≡ c.state_store
  after_gtts-store (returned gtts) c = refl
  after_gtts-store (raised e) c = ground arith

  poll_gtts-store :
      (su : Setup F W) (c : Broker F W) → (poll_gtts su c).1.state_store ≡ c.state_store
  unfolding poll_gtts
  poll_gtts-store su c =
      let (r, w) = retried su su.client.get_gtts c.world in
      after_gtts-store r (record c { world = w })

  module _ (su : Setup F W) (j : String) (s : Store F) (table : IsTable s) where
    after_poll :
        (rs : List (OrderRecord F)) (rows : List (OrderRow F)) (answer : Outcome (List (GttRow F)))
        (c : Broker F W)
        → c.state_store ≡ some s
        → Tracks s rs
        → Unique rs
        → TableMoves j rs s
            (elim answer as (λ _. Outcome (Unit {0}) × Broker F W) [
              | returned gtts ↦ advance_all su rs rows gtts c
              | raised e ↦ (raised e, c)
            ]).1
    after_poll rs rows (returned gtts) c e t u =
        (for_each-StoreMoves (λ r. advance su r rows gtts) (λ r. advance-Moves su r rows gtts) j rs
          c s e table t u).1
    after_poll rs rows (raised x) c e t u = (s, e, table, inl refl)

    after_orders-TableMoves :
        (rs : List (OrderRecord F)) (answer : Outcome (List (OrderRow F))) (c : Broker F W)
        → c.state_store ≡ some s
        → Tracks s rs
        → Unique rs
        → TableMoves j rs s (after_orders su rs answer c).1
    after_orders-TableMoves rs (returned rows) c e t u =
        after_poll rs rows (poll_gtts su c).0 (poll_gtts su c).1 (poll_gtts-store su c ∙ e) t u
    after_orders-TableMoves rs (raised x) c e t u = elim (Bool-cases (is_kite x.kind)) [
      | inl quiet ↦ rw quiet (s, e, table, inl refl)
      | inr loud ↦ rw loud (s, e, table, inl refl)
    ]

    poll_records-TableMoves :
        (rs : List (OrderRecord F)) (b : Broker F W)
        → b.state_store ≡ some s
        → Tracks s rs
        → Unique rs
        → TableMoves j rs s (poll_records su rs b).1
    unfolding poll_orders
    poll_records-TableMoves [] b e t u = (s, e, table, inl refl)
    poll_records-TableMoves (r ∷ rs) b e t u =
        let (answer, w) = retried su su.client.orders b.world in
        after_orders-TableMoves (r ∷ rs) answer (record b { world = w }) e t u

  -- If the broker has a store and the store is a table, then after a poll, whatever the client
  -- answers or raises, the store is a table, and each id either keeps its row or has a successor of
  -- the open record that stood there: a legal step of its life, with the ordered symbol, side,
  -- quantity, stop and target unchanged.
  pub poll_and_advance-TableMoves :
      (su : Setup F W) (j : String) (b : Broker F W) {s : Store F}
      → b.state_store ≡ some s
      → IsTable s
      → TableMoves j (list_open s) s (poll_and_advance su b).1
  unfolding poll_and_advance
  poll_and_advance-TableMoves su j b {s} e table =
      let (t, u) = list_open-Tracks s table in
      rw (e, poll_and_advance) (poll_records-TableMoves su j s table (list_open s) b e t u)
