-- ===== src/Tests/Mail.antt =====
-- Budget usage and the delivery of notifications at concrete inputs.
use billpiggy.Base.{
  ◌≡◌, sym, ap, ◌∙◌, true, string_beq_iff, min, ◌*◌, ◌^◌, refl, false, inl, inr, String, [], ◌∷◌,
  none, some, string_eq,
}
use billpiggy.Base.Int.{pos, ◌+ℤ◌}
use billpiggy.Base.Act.{ok, ◌>>=◌, ◌>>◌, read, from_option, modify, pure}
use billpiggy.Base.Assoc.{lookup, insert}
use billpiggy.Base.Rows.{empty-Rows}
use billpiggy.Clock.{Time, add_duration, minute, unix_nano}
use billpiggy.Outbox.{Message}
use billpiggy.Projections.{
  ExpenseContribution, budget_window, BudgetRecord, budget_monthly, contribution_of,
  contribution_of_envelope, decode_expense_contribution,
}
use billpiggy.Budgets.Usage.{BudgetUsageState, usage_key_eq}
use billpiggy.Budgets.Usage.Projection.{UsagePorts, handle_expense}
use billpiggy.Budgets.Usage.Recompute.{OfBudget, usage_spend, handle_expense_recomputes}
use billpiggy.Budgets.Usage.Spent.{spent_between}
use billpiggy.Budgets.Usage.Coverage.{Listed}
use billpiggy.Notifications.{
  Deliveries, NotificationDelivery, notification_payment_due, notification_pending, stored_delivery,
  claim_notifications, taken, mark_notification_sent, mark_notification_retry,
}
use billpiggy.Notifications.Service.{
  SendResult, send_quota_exceeded, deliver_all, deliver_pending, hour, notification_retry_delay,
}
use billpiggy.Notifications.Settling.{Settled, deliver_pending-Settled}
use billpiggy.Notifications.Backoff.{retry_delay_doubles}
use billpiggy.Tests.Accounts.{member}
use billpiggy.Tests.Payloads.{lunch, lunch_envelope}

abbrev food_budget : BudgetRecord
food_budget = record {
  id = "food budget";
  owner_id = "member";
  category_id = "food";
  name = "Food";
  currency = "EUR";
  shared_group_id = "";
  amount_limit_minor = pos 10000;
  threshold_percent = pos 80;
  period = budget_monthly;
  due_at = none;
  created_at = 1;
  updated_at = 1;
  deleted_at = none;
}

abbrev usage_ports : UsagePorts
usage_ports = record {
  format_int = λ n. "";
  format_bool = λ b. "";
  format_rfc3339 = λ at. "";
  unmarshal_expense = λ payload. some lunch_envelope;
  unmarshal_budget = λ payload. none;
}

abbrev lunch_added : Message
lunch_added = record {
  outbox_id = ("budget_usage", 1);
  event_id = "event 1";
  global_seq = 1;
  aggregate_type = "expense";
  aggregate_id = "lunch";
  aggregate_version = 1;
  event_type = "expense_added";
  payload = [];
  metadata = [];
  occurred_at = 1000;
  attempts = 0;
  replay = false;
}

abbrev fun_budget : BudgetRecord
fun_budget = record food_budget { id = "fun budget"; category_id = "fun" }

-- The lunch was filed as fun before.
abbrev misfiled : ExpenseContribution
misfiled = record (contribution_of lunch) { category_id = "fun" }

abbrev month_start : BudgetUsageState
month_start = record {
  budgets = ("food budget", food_budget) ∷ ("fun budget", fun_budget) ∷ [];
  contributions = ("lunch", misfiled) ∷ [];
  usage = [];
  notifications = [];
}

only_fun : (d : BudgetRecord) → Listed d month_start.budgets → d.id ≡ fun_budget.id → d ≡ fun_budget
only_fun d (inl e) same =
    let clash : false ≡ true =
      (string_beq_iff "food budget" "fun budget").1 (ap (λ (b : BudgetRecord). b.id) e ∙ same) in
    cc
only_fun d (inr (inl e)) same = sym e
only_fun d (inr (inr none_left)) same = absurd none_left

abbrev after_move : BudgetUsageState
after_move = (handle_expense usage_ports (λ k. "alert") 2000 lunch_added month_start).1

-- The period that the lunch has left is recomputed.
handle_expense_recomputes_example :
    (t : Time) × (unix_nano (budget_window fun_budget t).0
      ≡ unix_nano (budget_window fun_budget misfiled.occurred_at).0)
    × (usage_spend fun_budget t after_move
        ≡ spent_between fun_budget
            (budget_window fun_budget t).0
            (budget_window fun_budget t).1
            after_move.contributions)
unfolding decode_expense_contribution contribution_of_envelope lookup
handle_expense_recomputes_example =
    handle_expense_recomputes usage_ports (λ k. "alert") 2000 lunch_added month_start
      (contribution_of lunch) misfiled fun_budget (empty-Rows OfBudget) only_fun refl (inl refl)
      (inr (inl refl))
      (record {
        live = refl;
        own = refl;
        of_category = refl;
        owned = refl;
        categorized = refl;
        dated = refl;
      })

abbrev reminder : String → NotificationDelivery
reminder id = record {
  id = id;
  user_id = "member";
  recipient_email = "";
  kind = notification_payment_due;
  payload = [];
  created_at = 5;
  status = notification_pending;
  attempts = 0;
}

abbrev two_reminders : Deliveries
two_reminders =
    ("first", stored_delivery (reminder "first"))
    ∷ ("second", stored_delivery (reminder "second"))
    ∷ []

-- The provider's quota is exhausted, so that both go back to the queue.
abbrev no_quota : String → NotificationDelivery → SendResult
no_quota to delivery = send_quota_exceeded

both_resolved : (deliver_pending (λ id. some member) no_quota 10 25 two_reminders).0 ≡ ok tt
unfolding deliver_pending deliver_all claim_notifications mark_notification_retry
    mark_notification_sent ◌>>=◌ ◌>>◌ read from_option modify pure insert lookup add_duration ◌+ℤ◌
both_resolved = refl

deliver_pending-Settled_example :
    Settled "second" (deliver_pending (λ id. some member) no_quota 10 25 two_reminders).1
unfolding claim_notifications
deliver_pending-Settled_example =
    deliver_pending-Settled (λ id. some member) no_quota 10 25 two_reminders
      (taken 10 (stored_delivery (reminder "second"))).delivery both_resolved (inr (inl refl))

retry_delay_doubles_example : notification_retry_delay 3 ≡ pos (min hour (minute * 2 ^ 2))
retry_delay_doubles_example = retry_delay_doubles 3
