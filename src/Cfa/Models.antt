-- ===== src/Cfa/Models.antt =====
-- projects/03-cfa-bonds/internal/models: issues, investors, positions, trades, coupons and events.
-- A UUID is a number; timestamps that only the database sets and no decision reads are left out, as
-- are the ids of positions and events, which are generated. A time is in whole seconds.
use portfolio_itmo.Common.{ℕ, ◌||◌, ◌==◌, Bool, true, false}

pub data IssueStatus : Type 0 where
  draft placement active matured cancelled : IssueStatus

abbrev pub is_active : IssueStatus → Bool
is_active active = true
is_active _ = false

-- `allowedTransitions` and its lookup
unfoldable pub can_transition : IssueStatus → IssueStatus → Bool
can_transition draft placement = true
can_transition draft cancelled = true
can_transition placement active = true
can_transition placement cancelled = true
can_transition active matured = true
can_transition _ _ = false

unfoldable pub valid_coupon_frequency : ℕ → Bool
valid_coupon_frequency f = f == 1 || f == 2 || f == 4

pub data TradeStatus : Type 0 where
  submitted settled failed : TradeStatus

abbrev pub is_submitted : TradeStatus → Bool
is_submitted submitted = true
is_submitted _ = false

pub data EventType : Type 0 where
  trade_submitted trade_settled trade_failed coupon_paid issue_matured issue_placed : EventType
  issue_created status_changed deposit : EventType

pub data EntityType : Type 0 where
  entity_trade entity_issue entity_investor entity_coupon : EntityType

pub record EventLog : Type 0 where
  pub entity_type : EntityType
  pub entity_id : ℕ
  pub event_type : EventType

module _ (D : Type 0) where
  pub record BondIssue : Type 0 where
    pub id : ℕ
    pub nominal : D
    pub coupon_rate : D
    pub coupon_frequency : ℕ
    pub issue_date : ℕ
    pub maturity_date : ℕ
    pub total_quantity : ℕ
    pub placed_quantity : ℕ
    pub status : IssueStatus

  pub record Investor : Type 0 where
    pub id : ℕ
    pub balance : D

  pub record Position : Type 0 where
    pub investor_id : ℕ
    pub issue_id : ℕ
    pub quantity : ℕ
    pub avg_price : D

  pub record Trade : Type 0 where
    pub id : ℕ
    pub issue_id : ℕ
    pub seller_id : ℕ
    pub buyer_id : ℕ
    pub quantity : ℕ
    pub price : D
    pub accrued_interest : D
    pub total_amount : D
    pub status : TradeStatus

  pub record CouponSchedule : Type 0 where
    pub id : ℕ
    pub issue_id : ℕ
    pub sequence_num : ℕ
    pub payment_date : ℕ
    pub amount : D
