-- ===== src/Tests/Books.antt =====
-- Expenses, budgets and groups at concrete inputs.
use billpiggy.Tests.Payloads.{lunch, lunch_codec, lunch_service, unmarshal}
use billpiggy.Base.{◌≡◌, refl, true, inl, List, [], ◌∷◌, none, string_eq, nat_eq, contains}
use billpiggy.Base.Int.{pos}
use billpiggy.Base.Act.{
  forbidden, other, ok, err, ◌>>=◌, ◌>>◌, read, guard, require, from_option, atomic, modify, pure,
}
use mathlib.Core.Option
use billpiggy.Base.Assoc.{lookup, insert}
use billpiggy.Base.Rows.{empty-Rows}
use billpiggy.EventStore.{append, append_marshalled}
use billpiggy.Projections.{ExpenseRecord, contribution_of}
use billpiggy.Groups.{
  UserGroup, list_visible_groups, visible_group_ids, update_group, delete_group, add_member,
  remove_member,
}
use billpiggy.Groups.Access.{strangers_refused}
use billpiggy.Expenses.{ExpenseListFilter, sort_occurred_at, visible_expense, store_expense, select}
use billpiggy.Expenses.Service.{
  ExpenseState, ExpenseCommand, on_expenses, append_event, drafted, create_expense,
}
use billpiggy.Expenses.Queries.{
  get_expense, list_expenses, list_expenses_for_viewer, groups_seen, page,
}
use billpiggy.Expenses.Validation.{valid_expense, items_allowed}
use billpiggy.Expenses.Log.{Agrees, Filed, mirror, active_only}
use billpiggy.Expenses.Commands.{
  Command, create_command, delete_command, after_command, after_commands, projection_matches_log,
}
use billpiggy.Expenses.Atomicity.{failed_command_unchanged}
use billpiggy.Expenses.Visibility.{Permutes, list_expenses_for_viewer-visible_expense}
use billpiggy.Expenses.Created.{get_expense-create_expense}
use billpiggy.Tests.Accounts.{member}

abbrev empty_books : ExpenseState
empty_books = record {
  expenses = [];
  store = record { events = []; deliveries = []; subscriptions = []; versions = []; sequence = 0 };
  references = [];
  groups = [];
  taxonomy = record { categories = []; tags = [] };
}

abbrev lunch_command : ExpenseCommand
lunch_command = record {
  title = "Lunch";
  currency = "EUR";
  category_id = "food";
  category_name = "Food";
  shared_group_id = "";
  address = "";
  receipt_object_key = "";
  amount_minor = pos 1250;
  occurred_at = 900;
  tag_ids = [];
  status = "";
  items = [];
  latitude = none;
  longitude = none;
}

abbrev create_lunch : Command
create_lunch = create_command "lunch" "event 1" 1000 "member" lunch_command

abbrev two_commands : List Command
two_commands = create_lunch ∷ delete_command "event 2" 1100 "member" "lunch" ∷ []

empty-Agrees : Agrees unmarshal empty_books.expenses empty_books.store.events
unfolding mirror lookup
empty-Agrees = record { same = λ id. refl; filed = empty-Rows Filed }

projection_matches_log_example :
    active_only (
      mirror unmarshal "lunch" none
        (after_commands lunch_service two_commands empty_books).store.events)
    ≡ active_only (
        Option.map contribution_of
          (lookup "lunch" (after_commands lunch_service two_commands empty_books).expenses))
projection_matches_log_example =
    projection_matches_log lunch_service unmarshal two_commands empty_books "lunch" lunch_codec
      empty-Agrees (refl, tt)

lunch_created :
    (create_expense lunch_service "lunch" "event 1" 1000 "member" lunch_command empty_books).0
    ≡ ok lunch
unfolding create_expense valid_expense items_allowed append_event append append_marshalled
    on_expenses store_expense ◌>>=◌ ◌>>◌ read guard require from_option atomic modify pure insert
    lookup
lunch_created = refl

get_expense-create_expense_example :
    (get_expense lunch_service "member" "lunch"
      (create_expense lunch_service "lunch" "event 1" 1000 "member" lunch_command empty_books).1).0
    ≡ ok (drafted lunch_service "lunch" "member" 1000 lunch_command)
get_expense-create_expense_example =
    get_expense-create_expense lunch_service "lunch" "event 1" 1000 "member" lunch_command
      empty_books lunch lunch_created

-- The payload of another expense cannot be encoded.
abbrev other_command : Command
other_command = create_command "dinner" "event 1" 1000 "member" lunch_command

failed_command_unchanged_example :
    after_command lunch_service other_command empty_books ≡ empty_books
unfolding create_expense valid_expense items_allowed append_event append append_marshalled
    on_expenses store_expense ◌>>=◌ ◌>>◌ read guard require from_option atomic modify pure insert
    lookup
failed_command_unchanged_example =
    failed_command_unchanged lunch_service other_command empty_books (other "marshal event payload")
      refl

-- A viewer who shares a group with the owner.
abbrev household : UserGroup
household = record {
  id = "household";
  name = "Household";
  created_by = "other";
  created_at = 1;
  member_ids = "member" ∷ [];
}

abbrev shared_lunch : ExpenseRecord
shared_lunch = record lunch { owner_id = "other"; shared_group_id = "household" }

abbrev shared_books : ExpenseState
shared_books = record empty_books {
  expenses = ("lunch", shared_lunch) ∷ [];
  groups = ("household", household) ∷ [];
}

abbrev any_expense : ExpenseListFilter
any_expense = record {
  owner_id = "";
  query = "";
  category_id = "";
  tag_ids = [];
  shared_group_ids = [];
  from = 0;
  until = 0;
  sort_by = sort_occurred_at;
  limit = 10;
  offset = 0;
}

order_kept : Permutes lunch_service.sort_slice
order_kept = record { from_input = λ first xs x h. h }

lunch_listed :
    (list_expenses_for_viewer lunch_service member any_expense shared_books).0
    ≡ ok (shared_lunch ∷ [])
unfolding list_expenses_for_viewer list_expenses select page list_visible_groups visible_group_ids
    contains guard pure ◌>>=◌ ◌>>◌
lunch_listed = refl

list_expenses_for_viewer-visible_expense_example :
    visible_expense member.id (groups_seen lunch_service member shared_books) shared_lunch ≡ true
list_expenses_for_viewer-visible_expense_example =
    list_expenses_for_viewer-visible_expense lunch_service member any_expense shared_books
      (shared_lunch ∷ []) shared_lunch order_kept lunch_listed (inl refl)

strangers_refused_example :
    (update_group (λ text. text) member "household" "Mine" shared_books.groups
      ≡ (err forbidden, shared_books.groups))
    × (delete_group (λ text. text) member "household" shared_books.groups
        ≡ (err forbidden, shared_books.groups))
    × (add_member (λ text. text) member "household" "friend" shared_books.groups
        ≡ (err forbidden, shared_books.groups))
    × (remove_member (λ text. text) member "household" "friend" shared_books.groups
        ≡ (err forbidden, shared_books.groups))
unfolding lookup
strangers_refused_example =
    strangers_refused (λ text. text) member "household" "Mine" "friend" household
      shared_books.groups refl refl
