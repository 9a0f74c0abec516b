-- ===== src/Wallet/Tests.antt =====
-- Wallets on concrete inputs.
use mali.Prelude.{List, ◌≡◌, refl, true, [], ◌∷◌, arith}
use mali.Prelude.Lists.{find, update, exists}
use mali.Prelude.Text.{trim_space, to_upper}
use mali.Prelude.Int.{pos}
use mali.Rat.Text.{set_string}
use mali.Context.{ok, err, invalid, ◌>>=◌}
use mali.Domain.{Wallet}
use mali.Sample.{steady, world, cash, reads, round_column, render_column}
use mali.Wallet.{
  WalletService, CreateWalletInput, DeleteWalletInput, create_wallet, delete, get_owned_wallet,
}
use mali.Wallet.Repo
use mali.Wallet.Repo.{with_id, to_domain}
use mali.Wallet.Request.{WalletRequest, create_one, remove, serve}
use mali.Wallet.Isolation.{UniqueIds, foreign, serve-foreign}
use mali.Wallet.Removal.{Deleted, delete-Deleted, Created, create_wallet-Created}

abbrev service : WalletService
service = record { has_repository = true; supported_currencies = "USD" ∷ "ZAR" ∷ [] }

abbrev savings : CreateWalletInput
savings = record {
  user_id = 1;
  name = " Savings ";
  currency = "usd";
  wallet_type = "bank";
  balance = "12.50";
}

abbrev theirs : DeleteWalletInput
theirs = record { user_id = 1; wallet_id = 13 }

abbrev empty_one : DeleteWalletInput
empty_one = record { user_id = 1; wallet_id = 12 }

world-UniqueIds : UniqueIds world.db.wallets
unfolding find
world-UniqueIds = ground arith

serve-foreign_example :
    foreign 1 (serve service (create_one savings) steady world).1.db.wallets
    ≡ foreign 1 world.db.wallets
serve-foreign_example = serve-foreign service (create_one savings) steady world world-UniqueIds

-- The first user makes a wallet, and tries to delete one of the second.
abbrev two_requests : List WalletRequest
two_requests = create_one savings ∷ remove theirs ∷ []

-- The wallet of another user is not found.
foreign_refused : (serve service (remove theirs) steady world).0 ≡ err (invalid "wallet not found")
unfolding serve delete get_owned_wallet Repo.find_by_id ◌>>=◌ find
foreign_refused = refl

empty_removed : (delete service empty_one steady world).0 ≡ ok tt
unfolding delete get_owned_wallet Repo.find_by_id Repo.soft_delete ◌>>=◌ find update render_column
    set_string
empty_removed = refl

delete-Deleted_example : Deleted empty_one steady world (delete service empty_one steady world).1
delete-Deleted_example = delete-Deleted service empty_one steady world empty_removed

abbrev stored : Wallet
stored =
    to_domain steady
      (record cash { id = 1000; name = "Savings"; wallet_type = "bank"; balance = pos 125_000 })

created : (create_wallet service savings steady world).0 ≡ ok stored
unfolding create_wallet Repo.create ◌>>=◌ find exists trim_space to_upper round_column render_column
    reads
created = refl

create_wallet-Created_example :
    Created savings steady stored world.db (create_wallet service savings steady world).1.db
    × ((Repo.find_by_id 1000 steady (create_wallet service savings steady world).1).0 ≡ ok stored)
create_wallet-Created_example =
    create_wallet-Created service savings steady world stored created refl
