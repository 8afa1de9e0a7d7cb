-- ===== src/Orchestrator/Loop/Laws.antt =====
-- What an order that the loop has placed went through.
use trader_ai.Prelude.{
  ap, ◌∙◌, ℕ, ◌≡◌, refl, ◌⊎◌, inl, inr, true, Option, none, some, List, [], ◌∷◌, ◌++◌, ℤ, pos,
  negsuc, ◌≤ℤ◌, leb_ℤ, min_ℤ, arith, Bool-cases, Option-cases,
}
use trader_ai.Float.{Float}
use trader_ai.Core.Signal.{Signal}
use trader_ai.Core.Instrument.{Instrument}
use trader_ai.Risk.Windows.{KillSwitch}
use trader_ai.Risk.Manager.{
  RiskConfig, RiskState, RiskDecision, accepted, pre_check, expiry_check, size, post_check,
  risk_check, notional_check, floor_to_lot, lot_size_of,
}
use trader_ai.Risk.Manager.Laws.{MayEnter, MayPlace, pre_check_iff, post_check_iff}
use trader_ai.Risk.Manager.Sizing.{floor_to_lot-pos}
use trader_ai.Execution.Exceptions.{Outcome, returned, raised}
use trader_ai.Execution.Broker.{OrderResult, OrderStatus, filled, order_rejected, pending}
use trader_ai.Orchestrator.Loop.{
  OrchestratorLoop, Progress, Verdict, apply_qty_cap, capped_at, after_count, after_order, answered,
  send, after_post, after_size, sized_order, after_verdict, ask, after_pre, process_signal,
}

module _ {F : Type 0} ⦃fl : Float F⦄ where
  approved-pre_check :
      (loop_risk : RiskConfig F) (kill : KillSwitch) (signal : Signal F) (state : RiskState F)
      {d : RiskDecision}
      → pre_check loop_risk kill signal state ≡ some d
      → d.approved ≡ true
      → pre_check loop_risk kill signal state ≡ some accepted
  unfolding pre_check expiry_check
  approved-pre_check risk kill signal state {d} h a = ground arith

  approved-post_check :
      (risk : RiskConfig F) (signal : Signal F) (state : RiskState F) (qty : ℤ)
      (i : Option (Instrument F)) {d : RiskDecision}
      → post_check risk signal state qty i ≡ some d
      → d.approved ≡ true
      → post_check risk signal state qty i ≡ some accepted
  unfolding post_check risk_check notional_check
  approved-post_check risk signal state qty none {d} h a = ground arith
  approved-post_check risk signal state qty (some i) {d} h a = ground arith

capped :
    (qty cap : ℤ) (l : ℕ) → floor_to_lot (min_ℤ qty cap) l ≤ℤ qty ⊎ (qty ≤ℤ pos 0) ⊎ (cap ≤ℤ pos 0)
capped (pos q) (pos c) l = ground (arith, floor_to_lot-pos q l, floor_to_lot-pos c l)
capped (negsuc q) c l = ground arith
capped (pos q) (negsuc c) l = ground arith

module _ {F B : Type 0} ⦃fl : Float F⦄ (loop : OrchestratorLoop F B) where
  capped_at_lem : (qty cap : ℤ) → pos 1 ≤ℤ qty → capped_at loop qty cap ≤ℤ qty
  capped_at_lem qty cap h = ground (arith, capped qty cap (lot_size_of loop.instrument))

  -- The cap never raises a quantity.
  pub apply_qty_cap_lem : (qty : ℤ) → pos 1 ≤ℤ qty → apply_qty_cap loop qty ≤ℤ qty
  unfolding apply_qty_cap
  apply_qty_cap_lem qty h = elim (Option-cases loop.override_qty) [
    | inl e ↦ rw e (omega arith)
    | inr (cap, e) ↦ rw e (capped_at_lem qty cap h)
  ]

  -- What an order of `n` units has gone through: both checks, the sizing and the cap.
  pub record IsSanctioned (signal : Signal F) (p : Progress F) (b : B) (n : ℤ) : Type 0 where
    pub may_enter : MayEnter loop.risk (loop.kill_switch b) signal p.state
    pub multiplier : F
    pub qty : ℤ
    pub sized : size loop.risk signal p.state loop.instrument multiplier ≡ some qty
    pub may_place : MayPlace loop.risk signal p.state qty loop.instrument
    pub some_units : pos 1 ≤ℤ n
    pub within_size : n ≤ℤ qty

  -- No order was placed, or one that is sanctioned.
  abbrev pub PlacesSanctioned : (B → List (Signal F × ℤ)) → Signal F → Progress F → B → B → Type 0
  PlacesSanctioned orders signal p b c =
      (orders c ≡ orders b)
      ⊎ ((n : ℤ) × IsSanctioned signal p b n × (orders c ≡ orders b ++ (signal, n) ∷ []))

  module _ (orders : B → List (Signal F × ℤ))
      (logged : (s : Signal F) (n : ℤ) (b : B)
        → orders (loop.place_bracket_order s n b).1 ≡ orders b ++ (s, n) ∷ [])
      (quiet_count : (b : B) → orders (loop.position_count b).1 ≡ orders b)
      (quiet_analyst : (analyze : Signal F → B → Outcome (Verdict F) × B) (s : Signal F) (b : B)
        → loop.analyst ≡ some analyze
        → orders (analyze s b).1 ≡ orders b)
      (signal : Signal F) (p : Progress F) (b : B) where
    after_order-orders :
        (status : OrderStatus) (c : B) → orders (after_order loop p status c).1 ≡ orders c
    after_order-orders filled c = go (loop.position_count c) (quiet_count c)
      where
        go :
            (x : Outcome ℕ × B) → orders x.1 ≡ orders c → orders (after_count loop p x).1 ≡ orders c
        go (returned n, d) e = e
        go (raised x, d) e = e
    after_order-orders order_rejected c = refl
    after_order-orders pending c = refl

    answered-orders : (x : Outcome (OrderResult F) × B) → orders (answered loop p x).1 ≡ orders x.1
    answered-orders (returned r, c) = after_order-orders r.status c
    answered-orders (raised e, c) = refl

    module _ (may_enter : MayEnter loop.risk (loop.kill_switch b) signal p.state) where
      send-PlacesSanctioned :
          (m : F) (q : ℤ) (c : B)
          → orders c ≡ orders b
          → size loop.risk signal p.state loop.instrument m ≡ some q
          → MayPlace loop.risk signal p.state q loop.instrument
          → PlacesSanctioned orders signal p b (send loop signal p q c).1
      unfolding send
      send-PlacesSanctioned m q c e sz may_place =
          elim (Bool-cases (leb_ℤ (apply_qty_cap loop q) (pos 0))) [
            | inl none_left ↦ rw none_left (inl e)
            | inr some_left ↦
                let n = apply_qty_cap loop q in
                rw some_left (
                  inr (
                    n,
                    record {
                      may_enter = may_enter;
                      multiplier = m;
                      qty = q;
                      sized = sz;
                      may_place = may_place;
                      some_units = ground arith;
                      within_size = apply_qty_cap_lem q may_place.some_quantity;
                    },
                    answered-orders (loop.place_bracket_order signal n c)
                        ∙ logged signal n c
                        ∙ ap (λ o. o ++ (signal, n) ∷ []) e,
                  ))
          ]

      after_post-PlacesSanctioned :
          (m : F) (q : ℤ) (c : B) (d : Option RiskDecision)
          → orders c ≡ orders b
          → size loop.risk signal p.state loop.instrument m ≡ some q
          → post_check loop.risk signal p.state q loop.instrument ≡ d
          → PlacesSanctioned orders signal p b (after_post loop signal p q c d).1
      after_post-PlacesSanctioned m q c none e sz h = inl e
      after_post-PlacesSanctioned m q c (some d) e sz h = elim (Bool-cases d.approved) [
        | inl approved ↦ rw approved (
            send-PlacesSanctioned m q c e sz (
              (post_check_iff loop.risk signal p.state q loop.instrument).0
                (approved-post_check loop.risk signal p.state q loop.instrument h approved)))
        | inr refused ↦ rw refused (inl e)
      ]

      after_size-PlacesSanctioned :
          (m : F) (c : B) (q : Option ℤ)
          → orders c ≡ orders b
          → size loop.risk signal p.state loop.instrument m ≡ q
          → PlacesSanctioned orders signal p b (after_size loop signal p c q).1
      after_size-PlacesSanctioned m c none e h = inl e
      after_size-PlacesSanctioned m c (some q) e h =
          after_post-PlacesSanctioned m q c (post_check loop.risk signal p.state q loop.instrument)
            e h refl

      sized_order-PlacesSanctioned :
          (m : F) (c : B)
          → orders c ≡ orders b
          → PlacesSanctioned orders signal p b (sized_order loop signal p m c).1
      unfolding sized_order
      sized_order-PlacesSanctioned m c e =
          after_size-PlacesSanctioned m c (size loop.risk signal p.state loop.instrument m) e refl

      after_verdict-PlacesSanctioned :
          (x : Outcome (Verdict F) × B)
          → orders x.1 ≡ orders b
          → PlacesSanctioned orders signal p b (after_verdict loop signal p x).1
      after_verdict-PlacesSanctioned (raised x, c) e = inl e
      after_verdict-PlacesSanctioned (returned v, c) e = elim (Bool-cases v.vetoed) [
        | inl veto ↦ rw veto (inl e)
        | inr go ↦ rw go (sized_order-PlacesSanctioned v.size_multiplier c e)
      ]

      ask-PlacesSanctioned :
          (analyst : Option (Signal F → B → Outcome (Verdict F) × B))
          → loop.analyst ≡ analyst
          → PlacesSanctioned orders signal p b (ask loop signal p analyst b).1
      ask-PlacesSanctioned none h = sized_order-PlacesSanctioned (fl.of_int (pos 1)) b refl
      ask-PlacesSanctioned (some analyze) h =
          after_verdict-PlacesSanctioned (analyze signal b) (quiet_analyst analyze signal b h)

    after_pre-PlacesSanctioned :
        (d : Option RiskDecision)
        → pre_check loop.risk (loop.kill_switch b) signal p.state ≡ d
        → PlacesSanctioned orders signal p b (after_pre loop signal p b d).1
    after_pre-PlacesSanctioned none h = inl refl
    after_pre-PlacesSanctioned (some d) h = elim (Bool-cases d.approved) [
      | inl approved ↦ rw approved (
          ask-PlacesSanctioned
            ((pre_check_iff loop.risk (loop.kill_switch b) signal p.state).0
              (approved-pre_check loop.risk (loop.kill_switch b) signal p.state h approved))
            loop.analyst refl)
      | inr refused ↦ rw refused (inl refl)
    ]

    -- If placing an order logs it, and counting the positions and asking the analyst log none: then
    -- a signal leads to no order, or to exactly one. That order is for the same signal; the signal
    -- met every condition of `pre_check`, its computed size met every condition of `post_check`, and
    -- the order is for one unit or more and for no more than that size.
    pub process_signal-PlacesSanctioned :
        PlacesSanctioned orders signal p b (process_signal loop signal p b).1
    unfolding process_signal
    process_signal-PlacesSanctioned =
        after_pre-PlacesSanctioned (pre_check loop.risk (loop.kill_switch b) signal p.state) refl
