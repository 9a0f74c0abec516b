-- ===== src/Transaction/Listing.antt =====
-- ListTransactions of usecase/transaction_service.go: the limits, the sort order and the cursor.
use mali.Prelude.{ℕ, ◌-◌, ◌+◌, Bool, false, Option, none, some, List, ◌&&◌, ◌||◌, String, str_eq}
use mali.Prelude.Tests.{◌==◌, ltb, if◌then◌else◌, not}
use mali.Prelude.Lists.{length, get_elem?, take}
use mali.Prelude.Text.{trim_space, to_lower, is_empty}
use mali.Time.{Time, is_zero, after}
use mali.Domain.{Uuid, is_nil, Transaction, SortOrder, desc, asc, TransactionCursor}
use mali.Context.{invalid, wrapped, M, pure, raise, on_error, raise_if, ◌>>=◌, ◌>>◌}
use mali.Wallet.{get_owned_wallet}
use mali.Transaction.Service.{
  ListTransactionsInput, ListTransactionsOutput, TransactionService, not_configured, is_type,
}
use mali.Transaction.Query

abbrev pub clamp_limit : ℕ → ℕ
clamp_limit limit = if limit == 0 then 50 else if ltb 200 limit then 200 else limit

unfoldable pub parse_sort : String → M SortOrder
parse_sort text =
    if is_empty text || str_eq text "desc"
    then pure desc
    else if str_eq text "asc"
    then pure asc
    else raise (invalid "sort must be asc or desc")

unfoldable pub parse_type : String → M (Option String)
parse_type text =
    if is_empty text
    then pure none
    else if is_type text
    then pure (some text)
    else raise (invalid "type must be income, expense, or transfer")

unfoldable pub check_wallet : Uuid → Option Uuid → M (Unit {0})
check_wallet user_id none = pure tt
check_wallet user_id (some id) = do
  raise_if (is_nil id) (invalid "wallet_id is invalid")
  get_owned_wallet user_id id
  pure tt

abbrev pub reversed_dates : Option Time → Option Time → Bool
reversed_dates (some from) (some to) = after from to
reversed_dates _ _ = false

abbrev pub is_bad_cursor : Option TransactionCursor → Bool
is_bad_cursor none = false
is_bad_cursor (some c) = is_nil c.id || is_zero c.transacted_at

abbrev cursor_of : Option Transaction → Option TransactionCursor
cursor_of none = none
cursor_of (some t) = some (record { transacted_at = t.transacted_at; id = t.id })

-- One row more than the limit was asked for: if it came, there is a next page.
unfoldable pub page : ℕ → List Transaction → ListTransactionsOutput
page limit rows =
    if ltb limit (length rows)
    then record {
      transactions = take limit rows;
      next_cursor = cursor_of (get_elem? rows (limit - 1));
    }
    else record { transactions = rows; next_cursor = none }

unfoldable pub list_transactions :
    TransactionService → ListTransactionsInput → M ListTransactionsOutput
unfolding parse_sort parse_type check_wallet page
list_transactions s input = do
  raise_if (not (s.has_transactions && s.has_wallets)) not_configured
  raise_if (is_nil input.user_id) (invalid "user_id is required")
  check_wallet input.user_id input.wallet_id
  raise_if (reversed_dates input.date_from input.date_to)
      (invalid "date_from cannot be after date_to")
  let limit = clamp_limit input.limit
  sort_order ← parse_sort (to_lower (trim_space input.sort))
  tx_type ← parse_type (to_lower (trim_space input.tx_type))
  raise_if (is_bad_cursor input.cursor) (invalid "invalid cursor")
  rows ← on_error (wrapped "list transactions") (
      Query.list_by_user (record {
        user_id = input.user_id;
        wallet_id = input.wallet_id;
        category_id = input.category_id;
        date_from = input.date_from;
        date_to = input.date_to;
        tx_type = tx_type;
        limit = limit + 1;
        sort_order = sort_order;
        cursor = input.cursor;
      }))
  pure (page limit rows)
