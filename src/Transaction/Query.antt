-- ===== src/Transaction/Query.antt =====
-- The listing of transactions: buildListTransactionsQuery and ListByUser of
-- repository/postgres/transaction_repo.go. The query's text is read as the rows that it selects.
use mali.Prelude.{Bool, true, Option, none, some, List, ◌&&◌, ◌||◌, str_eq, map}
use mali.Prelude.Tests.{◌==◌, ltb, leb, not}
use mali.Prelude.Lists.{select, order_by, take}
use mali.Time.{Time}
use mali.Domain.{Uuid, Transaction, SortOrder, desc, asc, TransactionCursor, TransactionQuery}
use mali.Store.{TransactionRow}
use mali.Context.{wrapped, M, pure, on_error, gets, platform, call, ◌>>=◌, ◌>>◌}
use mali.Transaction.Repo.{to_domain, is_some_of}

abbrev if_given : {A : Type 0} → Option A → (A → Bool) → Bool
if_given none p = true
if_given (some a) p = p a

-- (transacted_at, id) in the order of the listing
abbrev pub earlier : SortOrder → Time → Uuid → Time → Uuid → Bool
earlier asc t i u j = ltb t u || (t == u && ltb i j)
earlier desc t i u j = ltb u t || (t == u && ltb j i)

abbrev pub beyond : SortOrder → TransactionCursor → TransactionRow → Bool
beyond order c r = earlier order c.transacted_at c.id r.transacted_at r.id

abbrev pub matches : TransactionQuery → TransactionRow → Bool
matches q r =
    r.user_id == q.user_id
    && not r.is_deleted
    && if_given q.wallet_id (λ id. r.wallet_id == id)
    && if_given q.category_id (is_some_of r.category_id)
    && if_given q.date_from (λ t. leb t r.transacted_at)
    && if_given q.date_to (λ t. leb r.transacted_at t)
    && if_given q.tx_type (str_eq r.tx_type)
    && if_given q.cursor (λ c. beyond q.sort_order c r)

abbrev pub precedes : SortOrder → TransactionRow → TransactionRow → Bool
precedes order r s = earlier order r.transacted_at r.id s.transacted_at s.id

unfoldable pub run_query : TransactionQuery → List TransactionRow → List TransactionRow
unfolding select order_by
run_query q rows = take q.limit (order_by (precedes q.sort_order) (select (matches q) rows))

unfoldable pub list_by_user : TransactionQuery → M (List Transaction)
unfolding run_query
list_by_user q = do
  on_error (wrapped "query transactions") call
  rows ← gets (λ d. run_query q d.transactions)
  p ← platform
  pure (map (to_domain p) rows)
