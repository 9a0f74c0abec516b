-- ===== src/Wallet/Isolation.antt =====
-- A user's requests leave the wallets of everybody else alone.
use mali.Prelude.{◌≡◌, refl, false, none, some, List, [], ◌∷◌, inl, inr, arith}
use mali.Prelude.Tests.{◌==◌, not, Option-cases}
use mali.Prelude.Lists.{find, select, update}
use mali.Prelude.Text.{trim_space}
use mali.Domain.{Uuid, Wallet}
use mali.Store.{WalletRow}
use mali.Context.{ok, Platform, World, ◌>>=◌}
use mali.Wallet.Repo
use mali.Wallet.Repo.{with_id, to_domain}
use mali.Wallet.Request.{WalletRequest, create_one, set_balance, rename, remove, sender, serve}
use mali.Wallet.{
  WalletService, CreateWalletInput, UpdateBalanceInput, UpdateWalletNameInput, DeleteWalletInput,
  get_owned_wallet, create_wallet, update_balance, update_name, delete,
}

-- The wallets that do not belong to `u`, in the order of the table.
abbrev pub foreign : Uuid → List WalletRow → List WalletRow
foreign u = select (λ r. not (r.user_id == u))

-- The primary key: no id occurs twice.
abbrev pub UniqueIds : List WalletRow → Type 0
UniqueIds [] = Unit
UniqueIds (r ∷ rs) = (find (with_id r.id) rs ≡ none) × UniqueIds rs

pub update-absent :
    (i : Uuid) (f : WalletRow → WalletRow) (rs : List WalletRow)
    → find (with_id i) rs ≡ none
    → update (with_id i) f rs ≡ rs
unfolding find update
update-absent i f [] h = refl
update-absent i f (r ∷ rs) h = ground (arith, update-absent i f rs)

pub foreign-update :
    (u i : Uuid) (f : WalletRow → WalletRow) (rs : List WalletRow) (r : WalletRow)
    → ((s : WalletRow) → (f s).user_id ≡ s.user_id)
    → UniqueIds rs
    → find (with_id i) rs ≡ some r
    → r.user_id ≡ u
    → foreign u (update (with_id i) f rs) ≡ foreign u rs
unfolding find update select
foreign-update u i f [] r keep uniq found own = refl
foreign-update u i f (s ∷ rs) r keep uniq found own =
    ground (arith, keep s, update-absent i f rs, foreign-update u i f rs r keep uniq.1)

-- What `get_owned_wallet` has found when it returns.
pub get_owned_wallet_lem :
    (u i : Uuid) (p : Platform) (w : World) (wallet : Wallet)
    → (get_owned_wallet u i p w).0 ≡ ok wallet
    → (r : WalletRow) × (find (with_id i) w.db.wallets ≡ some r)
      × (r.user_id ≡ u)
      × (wallet ≡ to_domain p r)
      × ((get_owned_wallet u i p w).1.db ≡ w.db)
unfolding get_owned_wallet Repo.find_by_id ◌>>=◌
get_owned_wallet_lem u i p w wallet h = elim (Option-cases (find (with_id i) w.db.wallets)) [
  | inl absent ↦ ground arith
  | inr (r, e) ↦ (r, e, ground arith, ground arith, ground arith)
]

module _ (s : WalletService) where
  pub create_wallet-foreign :
      (input : CreateWalletInput) (p : Platform) (w : World)
      → foreign input.user_id (create_wallet s input p w).1.db.wallets
        ≡ foreign input.user_id w.db.wallets
  unfolding create_wallet Repo.create select ◌>>=◌
  create_wallet-foreign input p w = ground arith

  pub update_name-foreign :
      (input : UpdateWalletNameInput) (p : Platform) (w : World)
      → UniqueIds w.db.wallets
      → foreign input.user_id (update_name s input p w).1.db.wallets
        ≡ foreign input.user_id w.db.wallets
  unfolding update_name get_owned_wallet Repo.find_by_id Repo.update_name ◌>>=◌
  update_name-foreign input p w uniq =
      elim (Option-cases (find (with_id input.wallet_id) w.db.wallets)) [
        | inl absent ↦ ground arith
        | inr (r, e) ↦ ground (
          arith,
          foreign-update input.user_id input.wallet_id
              (λ x. record x { name = trim_space input.name }) w.db.wallets r (λ x. refl) uniq e,
        )
      ]

  update_balance-foreign :
      (input : UpdateBalanceInput) (p : Platform) (w : World)
      → UniqueIds w.db.wallets
      → foreign input.user_id (update_balance s input p w).1.db.wallets
        ≡ foreign input.user_id w.db.wallets
  unfolding update_balance get_owned_wallet Repo.find_by_id Repo.update_balance ◌>>=◌
  update_balance-foreign input p w uniq =
      elim (Option-cases (find (with_id input.wallet_id) w.db.wallets)) [
        | inl absent ↦ ground arith
        | inr (r, e) ↦ grind (arith, foreign-update)
      ]

  pub delete-foreign :
      (input : DeleteWalletInput) (p : Platform) (w : World)
      → UniqueIds w.db.wallets
      → foreign input.user_id (delete s input p w).1.db.wallets ≡ foreign input.user_id w.db.wallets
  unfolding delete get_owned_wallet Repo.find_by_id Repo.soft_delete ◌>>=◌
  delete-foreign input p w uniq =
      elim (Option-cases (find (with_id input.wallet_id) w.db.wallets)) [
        | inl absent ↦ ground arith
        | inr (r, e) ↦ ground (
          arith,
          foreign-update input.user_id input.wallet_id (λ x. record x { is_active = false })
              w.db.wallets r (λ x. refl) uniq e,
        )
      ]

-- Whatever a user requests of wallets, and whether or not it succeeds, the wallets of all other users
-- are the same rows, in the same order, as before. The table's ids must be unique.
pub serve-foreign :
    (s : WalletService) (q : WalletRequest) (p : Platform) (w : World)
    → UniqueIds w.db.wallets
    → foreign (sender q) (serve s q p w).1.db.wallets ≡ foreign (sender q) w.db.wallets
unfolding serve
serve-foreign s (create_one i) p w uniq = ground (arith, create_wallet-foreign s i p w)
serve-foreign s (set_balance i) p w uniq = update_balance-foreign s i p w uniq
serve-foreign s (rename i) p w uniq = update_name-foreign s i p w uniq
serve-foreign s (remove i) p w uniq = delete-foreign s i p w uniq
