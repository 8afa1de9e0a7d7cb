-- ===== src/Execution/Kite/Flatten/Laws.antt =====
-- What `flatten_all` does to the store, and what its normal return means.
use mathlib.Core.Path.{subst}
use trader_ai.Prelude.{
  ℕ, zero, suc, ◌≡◌, refl, ◌⊎◌, inl, inr, Bool, true, false, Option, none, some, List, [], ◌∷◌,
  arith, sym, ap, ◌∙◌, ℤ, pos, String, if◌then◌else◌, eqb_ℤ,
}
use trader_ai.Prelude.Dict.{Dict}
use trader_ai.Float.{Float, nought}
use trader_ai.Execution.Exceptions.{Exn, Outcome, returned, raised}
use trader_ai.Execution.Broker.{Position}
use trader_ai.Execution.OrderState.{
  OrderState, pending_entry, entered, exited, failed, cancelled, OrderRecord, cancels,
}
use trader_ai.Execution.OrderState.Store.{Store, list_open}
use trader_ai.Execution.OrderState.Store.Laws.{IsTable, Tracks, Unique, list_open-Tracks}
use trader_ai.Execution.Kite.Client.{NetRow}
use trader_ai.Execution.Kite.Monad.{
  Setup, Broker, M, attempt, call, now, ◌>>=◌, ◌>>◌, retried, for_each,
}
use trader_ai.Execution.Kite.Poll.Laws.{Moves, persist-Moves, Step-from}
use trader_ai.Execution.Kite.Poll.Lifecycle.{TableMoves, for_each-StoreMoves}
use trader_ai.Execution.Kite.Flatten.{
  cons_position, add_position, invalid, with_rows, enrich, unless_done, square_all, positions_from,
  read_records, get_positions, safe_delete_gtt, mark_cancelled, cancel_exit, cancel_in,
  cancel_record, square_off, residual, or_nothing, sleep_one, give_up, confirm, open_records,
  flatten_all, poll_budget,
}

module _ {F W : Type 0} where
  -- A method that leaves the store alone.
  abbrev Keeps : {A : Type 0} → M F W A → Type 0
  Keeps m = (b : Broker F W) → (m b).1.state_store ≡ b.state_store

  bind_after :
      {A B : Type 0} (m : M F W A) (k : A → M F W B) (b : Broker F W)
      → ((a : A) → Keeps (k a))
      → ((m >>= k) b).1.state_store ≡ (m b).1.state_store
  bind_after {A} {B} m k b g = go (m b)
    where
      go : (x : Outcome A × Broker F W) → (((λ _. x) >>= k) b).1.state_store ≡ x.1.state_store
      go (returned a, c) = g a c
      go (raised x, c) = refl

  bind-Keeps :
      {A B : Type 0} (m : M F W A) (k : A → M F W B)
      → Keeps m
      → ((a : A) → Keeps (k a))
      → Keeps (m >>= k)
  bind-Keeps m k h g b = bind_after m k b g ∙ h b

  for_each-Keeps :
      {A : Type 0} (act : A → M F W (Unit {0})) (xs : List A)
      → ((a : A) → Keeps (act a))
      → Keeps (for_each act xs)
  unfolding for_each
  for_each-Keeps act [] h b = refl
  for_each-Keeps act (x ∷ xs) h b =
      bind-Keeps (act x) (λ _. for_each act xs) (h x) (λ _. for_each-Keeps act xs h) b

  if_Keeps :
      {A : Type 0} (c : Bool) (m n : M F W A) → Keeps m → Keeps n → Keeps (if c then m else n)
  if_Keeps true m n h k b = h b
  if_Keeps false m n h k b = k b

module _ {F W : Type 0} ⦃fl : Float F⦄ (su : Setup F W) where
  positions_from-Keeps :
      (records : Dict (OrderRecord F)) (rows : List (NetRow F))
      → Keeps (positions_from su records rows)
  unfolding positions_from
  positions_from-Keeps records [] = λ b. refl
  positions_from-Keeps records (row ∷ rows) =
      let rest = positions_from su records rows in
      let keep = positions_from-Keeps records rows in
      if_Keeps (eqb_ℤ row.quantity (pos 0)) rest _ keep (
        if_Keeps (fl.le row.average_price nought) rest _ keep (
          if_Keeps (fl.lt nought row.average_price) (now su >>= add_position records row rest)
            (now su >>= invalid)
            (bind-Keeps (now su) (add_position records row rest) (λ b. refl)
              (λ at. bind-Keeps rest (cons_position records row at) keep (λ ps b. refl)))
            (λ b. refl)))

  get_positions-Keeps : Keeps (get_positions su)
  unfolding get_positions read_records
  get_positions-Keeps =
      bind-Keeps (call su.client.positions) (enrich su) (λ b. refl)
        (λ rows.
          bind-Keeps read_records (with_rows su rows) (λ b. refl)
            (λ records. positions_from-Keeps records rows))

  square_off-Keeps : (p : Position F) → Keeps (square_off su p)
  unfolding square_off
  square_off-Keeps p b = refl

  or_nothing-Keeps : (answer : Outcome (List (Position F))) → Keeps {W = W} (or_nothing answer)
  or_nothing-Keeps (returned ps) b = refl
  or_nothing-Keeps (raised e) b = refl

  residual-Keeps : Keeps (residual su)
  unfolding residual
  residual-Keeps =
      bind-Keeps (attempt (get_positions su)) or_nothing get_positions-Keeps or_nothing-Keeps

  give_up-Keeps : (ps : List (Position F)) → Keeps {W = W} (give_up ps)
  give_up-Keeps [] b = refl
  give_up-Keeps (p ∷ ps) b = refl

  unless_done-Keeps :
      (again : M F W (Unit {0})) (ps : List (Position F))
      → Keeps again
      → Keeps (unless_done again ps)
  unless_done-Keeps again [] h b = refl
  unless_done-Keeps again (p ∷ ps) h b = h b

  confirm-Keeps : (n : ℕ) → Keeps (confirm su n)
  unfolding confirm
  confirm-Keeps zero = bind-Keeps (get_positions su) give_up get_positions-Keeps give_up-Keeps
  confirm-Keeps (suc n) =
      let again = sleep_one su >> confirm su n in
      bind-Keeps (residual su) (unless_done again) residual-Keeps
        (λ ps. unless_done-Keeps again ps (λ b. confirm-Keeps n (record b { world = _ })))

  cancel_exit-Moves :
      (r : OrderRecord F) (id : Option ℤ) (b : Broker F W)
      → r.state ≡ entered
      → Moves r b (cancel_exit su r id b)
  unfolding safe_delete_gtt mark_cancelled
  cancel_exit-Moves r none b e = (refl, inl refl)
  cancel_exit-Moves r (some id) b e =
      persist-Moves su r (λ at. record r { state = cancelled; updated_at = at })
        (record b { world = (retried su (su.client.delete_gtt id) b.world).1 })
        (λ at. record {
          step = Step-from e cancels;
          same_id = refl;
          same_order = (refl, refl, refl, refl, refl);
        })

  cancel_in-Moves :
      (state : OrderState) (r : OrderRecord F) (b : Broker F W)
      → r.state ≡ state
      → Moves r b (cancel_in state su r b)
  cancel_in-Moves pending_entry r b e = (refl, inl refl)
  cancel_in-Moves entered r b e = cancel_exit-Moves r r.sl_gtt_id b e
  cancel_in-Moves exited r b e = (refl, inl refl)
  cancel_in-Moves failed r b e = (refl, inl refl)
  cancel_in-Moves cancelled r b e = (refl, inl refl)

  cancel_record-Moves : (r : OrderRecord F) (b : Broker F W) → Moves r b (cancel_record su r b)
  unfolding cancel_record
  cancel_record-Moves r b = cancel_in-Moves r.state r b refl

  square_all-Keeps : (ps : List (Position F)) → Keeps (square_all su ps)
  square_all-Keeps ps =
      bind-Keeps (for_each (square_off su) ps) (λ _. confirm su poll_budget)
        (for_each-Keeps (square_off su) ps square_off-Keeps) (λ _. confirm-Keeps poll_budget)

  -- the body of `flatten_all`, on the open records
  abbrev body : List (OrderRecord F) → M F W (Unit {0})
  body rs = for_each (cancel_record su) rs >> get_positions su >>= square_all su

  body-TableMoves :
      (j : String) (rs : List (OrderRecord F)) (b : Broker F W) (s : Store F)
      → b.state_store ≡ some s
      → IsTable s
      → Tracks s rs
      → Unique rs
      → TableMoves j rs s (body rs b).1
  body-TableMoves j rs b s e table t u =
      let (done, (s', e', table', moved)) =
        for_each-StoreMoves (cancel_record su) cancel_record-Moves j rs b s e table t u in
      let cancel = for_each (cancel_record su) rs in
      let after = bind_after (cancel >> get_positions su) (square_all su) b square_all-Keeps in
      let before = bind_after cancel (λ _. get_positions su) b (λ _. get_positions-Keeps) in
      (s', after ∙ before ∙ e', table', moved)

  -- If the broker has a store and the store is a table, then however flattening ends, the store is a
  -- table, and each id either keeps its row or has a successor of the open record that stood there:
  -- a legal step of its life.
  pub flatten_all-TableMoves :
      (j : String) (b : Broker F W) {s : Store F}
      → b.state_store ≡ some s
      → IsTable s
      → TableMoves j (list_open s) s (flatten_all su b).1
  unfolding flatten_all
  flatten_all-TableMoves j b {s} e table =
      let (t, u) = list_open-Tracks s table in
      subst (λ rs. TableMoves j (list_open s) s (body rs b).1) (sym (ap open_records e))
        (body-TableMoves j (list_open s) b s e table t u)

  -- What a normal return of the confirmation rests on: the last question was answered by none, or it
  -- raised.
  abbrev pub IsConfirmed : Broker F W → Type 0
  IsConfirmed c =
      (d : Broker F W) × ((get_positions su d ≡ (returned [], c))
        ⊎ ((e : Exn) × (get_positions su d ≡ (raised e, c))))

  last_question :
      (x : Outcome (List (Position F)) × Broker F W) {c : Broker F W}
      → ((λ _. x) >>= give_up) c ≡ (returned tt, c)
      → x ≡ (returned [], c)
  last_question (returned [], d) h = ground arith
  last_question (returned (p ∷ ps), d) h = cc
  last_question (raised e, d) h = cc

  module _ (again : M F W (Unit {0})) {c : Broker F W}
      (later : (d : Broker F W) → again d ≡ (returned tt, c) → IsConfirmed c) where
    answered :
        (b : Broker F W) (x : Outcome (List (Position F)) × Broker F W)
        → get_positions su b ≡ x
        → (or_nothing x.0 >>= unless_done again) x.1 ≡ (returned tt, c)
        → IsConfirmed c
    answered b (returned [], d) e h = (b, inl (ground arith))
    answered b (returned (p ∷ ps), d) e h = later d h
    answered b (raised x, d) e h = (b, inr (x, ground arith))

  confirm-IsConfirmed :
      (n : ℕ) (b c : Broker F W) → confirm su n b ≡ (returned tt, c) → IsConfirmed c
  unfolding confirm residual
  confirm-IsConfirmed zero b c h = (b, inl (last_question (get_positions su b) h))
  confirm-IsConfirmed (suc n) b c h =
      answered (sleep_one su >> confirm su n)
        (λ d.
          confirm-IsConfirmed n (record d { world = su.client.sleep (fl.of_int (pos 1)) d.world })
            c)
        b (get_positions su b) refl h

  bind_returned :
      {A B : Type 0} (m : M F W A) (k : A → M F W B) (b : Broker F W) {a : B} {c : Broker F W}
      → (m >>= k) b ≡ (returned a, c)
      → (x : A) × (d : Broker F W) × (k x d ≡ (returned a, c))
  bind_returned {A} {B} m k b {a} {c} = go (m b)
    where
      go :
          (y : Outcome A × Broker F W)
          → ((λ _. y) >>= k) b ≡ (returned a, c)
          → (x : A) × (d : Broker F W) × (k x d ≡ (returned a, c))
      go (returned x, d) h = (x, d, h)
      go (raised e, d) h = cc

  -- If flattening returns normally, then the broker is left as by a call of `get_positions` that
  -- answered with no position or raised an exception.
  pub flatten_all-IsConfirmed :
      (b c : Broker F W) → flatten_all su b ≡ (returned tt, c) → IsConfirmed c
  unfolding flatten_all
  flatten_all-IsConfirmed b c h =
      let rs = open_records b.state_store in
      let cancel = for_each (cancel_record su) rs >> get_positions su in
      let (ps, d, h₁) = bind_returned cancel (square_all su) b h in
      let (_, d₁, h₂) =
        bind_returned (for_each (square_off su) ps) (λ _. confirm su poll_budget) d h₁ in
      confirm-IsConfirmed poll_budget d₁ c h₂
