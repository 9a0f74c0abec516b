-- ===== src/Wallet/Request.antt =====
-- The requests that change wallets (delivery/http/router/wallet_routes.go), and what serves each.
use mali.Domain.{Uuid}
use mali.Context.{M, pure, ◌>>=◌, ◌>>◌}
use mali.Wallet.{
  WalletService, CreateWalletInput, UpdateBalanceInput, UpdateWalletNameInput, DeleteWalletInput,
  create_wallet, update_balance, update_name, delete,
}

pub data WalletRequest : Type 0 where
  create_one : CreateWalletInput → WalletRequest
  set_balance : UpdateBalanceInput → WalletRequest
  rename : UpdateWalletNameInput → WalletRequest
  remove : DeleteWalletInput → WalletRequest

abbrev pub sender : WalletRequest → Uuid
sender (create_one i) = i.user_id
sender (set_balance i) = i.user_id
sender (rename i) = i.user_id
sender (remove i) = i.user_id

unfoldable pub serve : WalletService → WalletRequest → M (Unit {0})
unfolding ◌>>=◌
serve s (create_one i) = do create_wallet s i; pure tt
serve s (set_balance i) = update_balance s i
serve s (rename i) = update_name s i
serve s (remove i) = delete s i
