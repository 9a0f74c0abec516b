-- ===== src/Wallet/Keys.antt =====
-- Requests keep the primary key of the wallets table, and a request that fails changes no table.
use mali.Prelude.{◌≡◌, ◌≢◌, true, List, [], ◌∷◌, arith}
use mali.Prelude.Tests.{◌==◌}
use mali.Prelude.Lists.{select}
use mali.Time.{zero_time}
use mali.Domain.{Uuid, Wallet}
use mali.Amount.{normalize_currency_code, normalize_amount}
use mali.Prelude.Text.{trim_space}
use mali.Store.{WalletRow}
use mali.Context.{Error, err, Platform, World, M, pure, attempt, ◌>>=◌, ◌>>◌}
use mali.Wallet.Repo
use mali.Wallet.Repo.{to_domain}
use mali.Wallet.Request.{WalletRequest, create_one, set_balance, rename, remove, sender, serve}
use mali.Wallet.{
  default_zero, WalletService, CreateWalletInput, UpdateBalanceInput, UpdateWalletNameInput,
  DeleteWalletInput, get_owned_wallet, create_wallet, update_balance, update_name, delete,
}

-- What the service gives to the repository.
abbrev pub requested : CreateWalletInput → Wallet
requested input = record {
  id = 0;
  user_id = input.user_id;
  name = trim_space input.name;
  currency = normalize_currency_code input.currency;
  wallet_type = trim_space input.wallet_type;
  balance = default_zero (normalize_amount input.balance);
  is_active = true;
  created_at = zero_time;
}

-- Requests one behind the other, whatever comes of each.
unfoldable pub serve_all : WalletService → List WalletRequest → M (Unit {0})
serve_all s [] = pure tt
serve_all s (q ∷ qs) = do attempt (serve s q); serve_all s qs

abbrev pub AreOthers : Uuid → List WalletRequest → Type 0
AreOthers u [] = Unit
AreOthers u (q ∷ qs) = (sender q ≢ u) × AreOthers u qs

abbrev pub mine : Uuid → List WalletRow → List WalletRow
mine u = select (λ r. r.user_id == u)

module _ (s : WalletService) (p : Platform) (w : World) (e : Error) where
  create_wallet-err :
      (input : CreateWalletInput)
      → (create_wallet s input p w).0 ≡ err e
      → (create_wallet s input p w).1.db ≡ w.db
  unfolding create_wallet Repo.create ◌>>=◌
  create_wallet-err input h = ground arith

  update_balance-err :
      (input : UpdateBalanceInput)
      → (update_balance s input p w).0 ≡ err e
      → (update_balance s input p w).1.db ≡ w.db
  unfolding update_balance get_owned_wallet Repo.find_by_id Repo.update_balance ◌>>=◌
  update_balance-err input h = ground arith

  update_name-err :
      (input : UpdateWalletNameInput)
      → (update_name s input p w).0 ≡ err e
      → (update_name s input p w).1.db ≡ w.db
  unfolding update_name get_owned_wallet Repo.find_by_id Repo.update_name ◌>>=◌
  update_name-err input h = ground arith

  delete-err :
      (input : DeleteWalletInput)
      → (delete s input p w).0 ≡ err e
      → (delete s input p w).1.db ≡ w.db
  unfolding delete get_owned_wallet Repo.find_by_id Repo.soft_delete ◌>>=◌
  delete-err input h = ground arith

-- A request on wallets that fails, by its guards, its lookup or the server, has changed no table.
serve-err :
    (s : WalletService) (q : WalletRequest) (p : Platform) (w : World) (e : Error)
    → (serve s q p w).0 ≡ err e
    → (serve s q p w).1.db ≡ w.db
unfolding serve
serve-err s (create_one i) p w e h = ground (arith, create_wallet-err s p w e i)
serve-err s (set_balance i) p w e h = update_balance-err s p w e i h
serve-err s (rename i) p w e h = update_name-err s p w e i h
serve-err s (remove i) p w e h = delete-err s p w e i h
