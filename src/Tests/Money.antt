-- ===== src/Tests/Money.antt =====
-- Budget alerts, and the rollups of an expense that is added, edited, delivered again and removed.
use billpiggy.Base.{
  ◌*◌, ◌%◌, ◌≤◌, ◌≡◌, refl, ltb, false, String, Option, none, some, List, [], ◌∷◌, arith,
}
use billpiggy.Base.Int.{pos, word}
use billpiggy.Outbox.{Bytes}
use billpiggy.Projections.{
  BudgetRecord, budget_monthly, ExpenseRecord, ExpenseEnvelope, analytics_month,
}
use billpiggy.Projections.Thresholds.{BudgetUsage, budget_threshold_crossing}
use billpiggy.Projections.Alerts.{
  Admits, level, is_some, alerts_of, budget_alert_iff, alerts-at_most_two,
}
use billpiggy.Rollups.{RollupKey, new_analytics_repository}
use billpiggy.Analytics.{handle_all}
use billpiggy.Analytics.Buckets.{amount_at}
use billpiggy.Analytics.Shares.{total}
use billpiggy.Analytics.Reconcile.{rollups-add_up}

abbrev groceries : BudgetRecord
groceries = record {
  id = "b1";
  owner_id = "u1";
  category_id = "c1";
  name = "groceries";
  currency = "EUR";
  shared_group_id = "";
  amount_limit_minor = pos 40000;
  threshold_percent = pos 80;
  period = budget_monthly;
  due_at = none;
  created_at = 1;
  updated_at = 1;
  deleted_at = none;
}

abbrev unused : BudgetUsage
unused = record {
  budget_id = "b1";
  period_start = 1;
  spent_minor = pos 0;
  alerted_percent = pos 0;
  updated_at = 1;
}

groceries_admitted : Admits groceries 40000 80
groceries_admitted = (refl, refl, omega arith, omega arith, omega arith)

budget_alert_iff_example :
    is_some (budget_threshold_crossing groceries unused (pos 33000)) ≡ ltb 0 (level 40000 80 33000)
budget_alert_iff_example =
    budget_alert_iff groceries unused 40000 80 33000 0 groceries_admitted (omega arith) refl

alerts-at_most_two_example :
    alerts_of groceries unused 9 (10000 ∷ 33000 ∷ 34000 ∷ 41000 ∷ 42000 ∷ []) ≤ 2
alerts-at_most_two_example =
    alerts-at_most_two groceries unused 9 40000 80 (10000 ∷ 33000 ∷ 34000 ∷ 41000 ∷ 42000 ∷ [])
      groceries_admitted refl
      (
        omega arith,
        omega arith,
        (
          omega arith,
          omega arith,
          (omega arith, omega arith, (omega arith, omega arith, (omega arith, omega arith, tt))),
        ),
      )

abbrev lunch : ExpenseRecord
lunch = record {
  id = "e1";
  owner_id = "u1";
  title = "lunch";
  amount_minor = pos 1250;
  currency = "EUR";
  occurred_at = 738915 * 86400000000000;
  category_id = "c1";
  category_name = "food";
  tag_ids = "t1" ∷ [];
  status = "confirmed";
  shared_group_id = "";
  items = [];
  latitude = none;
  longitude = none;
  address = "";
  receipt_object_key = "";
  created_at = 1;
  updated_at = 1;
  deleted_at = none;
}

-- The body [] is the expense as it was added, and any other one as it was edited.
abbrev read_body : Bytes → Option ExpenseEnvelope
read_body [] = some (record { expense = lunch; expense_id = ""; owner_id = "" })
read_body (b ∷ bs) = some (record {
  expense = record lunch { amount_minor = pos 990; category_id = "c2" };
  expense_id = "";
  owner_id = "";
})

abbrev edits : List (String × Bytes)
edits =
    ("expense_added", [])
    ∷ ("expense_updated", 1 ∷ [])
    ∷ ("expense_updated", 1 ∷ [])
    ∷ ("expense_removed", [])
    ∷ []

abbrev bucket : RollupKey
bucket = record {
  owner_id = "u1";
  period_start = pos 1704067200000000000;
  period = analytics_month;
  dimension_id = "c2";
  currency = "EUR";
  tag = false;
}

rollups-add_up_example :
    amount_at bucket (handle_all read_body edits new_analytics_repository)
    ≡ total bucket (handle_all read_body edits new_analytics_repository).contributions % word
rollups-add_up_example = rollups-add_up read_body edits bucket
