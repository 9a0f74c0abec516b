-- ===== src/Wallet/Removal.antt =====
-- Deleting a wallet, and finding one that was created.
use mali.Prelude.{
  ◌∙◌, sym, subst, ◌≢◌, ◌≡◌, refl, true, false, ◌∷◌, none, some, inl, inr, arith, String,
}
use mali.Prelude.Tests.{Option-cases}
use mali.Prelude.Lists.{find, update}
use mali.Rat.{Rat, is_negative, is_positive}
use mali.Rat.Text.{set_string}
use mali.Domain.{Wallet}
use mali.Store.{WalletRow, Db}
use mali.Amount.{parse_amount, normalize_amount, normalize_currency_code}
use mali.Prelude.Text.{trim_space}
use mali.Context.{failure, ok, err, Platform, World, ◌>>=◌}
use mali.Wallet.Repo
use mali.Wallet.Keys.{requested}
use mali.Wallet.Repo.{with_id, to_domain, set_wallets}
use mali.Wallet.{
  default_zero, WalletService, CreateWalletInput, DeleteWalletInput, get_owned_wallet,
  create_wallet, delete,
}

-- What a successful deletion has checked and done.
pub record Deleted (input : DeleteWalletInput) (p : Platform) (w w' : World) : Type 0 where
  pub row : WalletRow
  pub amount : Rat
  pub found : find (with_id input.wallet_id) w.db.wallets ≡ some row
  pub owned : row.user_id ≡ input.user_id
  pub read : set_string (p.render 4 row.balance) ≡ some amount
  pub is_zero : (is_negative amount ≡ false) × (is_positive amount ≡ false)
  pub result :
      w'.db
      ≡ set_wallets (update (with_id input.wallet_id) (λ r. record r { is_active = false })) w.db

read_error :
    (value : String) → set_string value ≡ none → parse_amount value ≡ err (failure "invalid amount")
unfolding parse_amount
read_error value h = rw (h, parse_amount)

read_ok : (value : String) (x : Rat) → set_string value ≡ some x → parse_amount value ≡ ok x
unfolding parse_amount
read_ok value x h = rw (h, parse_amount)

module _ (s : WalletService) (input : DeleteWalletInput) (p : Platform) (w : World)
    (h : (delete s input p w).0 ≡ ok tt) where
  delete_found : find (with_id input.wallet_id) w.db.wallets ≢ none
  unfolding delete get_owned_wallet Repo.find_by_id ◌>>=◌
  delete_found absent = ground arith

  module _ (r : WalletRow) (e : find (with_id input.wallet_id) w.db.wallets ≡ some r) where
    delete_read : set_string (p.render 4 r.balance) ≢ none
    unfolding delete get_owned_wallet Repo.find_by_id ◌>>=◌
    delete_read unread = ground (arith, read_error (p.render 4 r.balance) unread)

    delete_owned : r.user_id ≡ input.user_id
    unfolding delete get_owned_wallet Repo.find_by_id ◌>>=◌
    delete_owned = ground arith

    module _ (x : Rat) (q : set_string (p.render 4 r.balance) ≡ some x) where
      delete_zero : (is_negative x ≡ false) × (is_positive x ≡ false)
      unfolding delete get_owned_wallet Repo.find_by_id ◌>>=◌
      delete_zero = ground (arith, read_ok (p.render 4 r.balance) x q)

    delete_result :
        (delete s input p w).1.db
        ≡ set_wallets (update (with_id input.wallet_id) (λ y. record y { is_active = false })) w.db
    unfolding delete get_owned_wallet Repo.find_by_id Repo.soft_delete ◌>>=◌
    delete_result = ground arith

-- A wallet is deleted only when it belongs to the user and its balance, as it is read back, is zero;
-- then the rows under its id become inactive, and the tables change in nothing else.
pub delete-Deleted :
    (s : WalletService) (input : DeleteWalletInput) (p : Platform) (w : World)
    → (delete s input p w).0 ≡ ok tt
    → Deleted input p w (delete s input p w).1
delete-Deleted s input p w h = elim (Option-cases (find (with_id input.wallet_id) w.db.wallets)) [
  | inl absent ↦ absurd (delete_found s input p w h absent)
  | inr (r, e) ↦ elim (Option-cases (set_string (p.render 4 r.balance))) [
    | inl unread ↦ absurd (delete_read s input p w h r e unread)
    | inr (x, q) ↦ record {
      row = r;
      amount = x;
      found = e;
      owned = delete_owned s input p w h r e;
      read = q;
      is_zero = delete_zero s input p w h r e x q;
      result = delete_result s input p w h r e;
    }
  ]
]

-- What a successful creation has stored: a row under a new id with what was asked for, its balance as the
-- column takes the number that the text stands for, in front of the rows that were there.
pub record Created (input : CreateWalletInput) (p : Platform) (wallet : Wallet) (old new : Db)
    : Type 0 where
  pub row : WalletRow
  pub number : Rat
  pub scanned : p.scan (default_zero (normalize_amount input.balance)) ≡ some number
  pub stored : p.column 4 number ≡ some row.balance
  pub owner : row.user_id ≡ input.user_id
  pub named : row.name ≡ trim_space input.name
  pub kind : row.wallet_type ≡ trim_space input.wallet_type
  pub currency : row.currency ≡ normalize_currency_code input.currency
  pub active : row.is_active ≡ true
  pub fresh : find (with_id row.id) old.wallets ≡ none
  pub added : new ≡ set_wallets (λ rows. row ∷ rows) old
  pub answered : wallet ≡ to_domain p row

module _ (input : CreateWalletInput) (p : Platform) (w : World) (wallet : Wallet)
    (h : (Repo.create (requested input) p w).0 ≡ ok wallet) where
  create-Created : Created input p wallet w.db (Repo.create (requested input) p w).1.db
  unfolding Repo.create ◌>>=◌
  create-Created = elim (Option-cases (p.scan (default_zero (normalize_amount input.balance)))) [
    | inl unread ↦ absurd (ground arith)
    | inr (x, e) ↦ elim (Option-cases (p.column 4 x)) [
      | inl large ↦ absurd (ground arith)
      | inr (v, q) ↦ elim (Option-cases (find (with_id (p.uuid w.draws)) w.db.wallets)) [
        | inr (r, taken) ↦ absurd (ground arith)
        | inl fresh ↦ record {
          row = record {
            id = p.uuid w.draws;
            user_id = input.user_id;
            name = trim_space input.name;
            currency = normalize_currency_code input.currency;
            wallet_type = trim_space input.wallet_type;
            balance = v;
            is_active = true;
            created_at = p.clock w.ticks;
          };
          number = x;
          scanned = e;
          stored = q;
          owner = refl;
          named = refl;
          kind = refl;
          currency = refl;
          active = refl;
          fresh = fresh;
          added = ground arith;
          answered = ground arith;
        }
      ]
    ]
  ]

module _ (s : WalletService) (input : CreateWalletInput) (p : Platform) (w : World)
    (wallet : Wallet) (h : (create_wallet s input p w).0 ≡ ok wallet) where
  create_wallet-create : (Repo.create (requested input) p w).0 ≡ ok wallet
  unfolding create_wallet ◌>>=◌
  create_wallet-create = ground arith

  create_wallet-db : (create_wallet s input p w).1.db ≡ (Repo.create (requested input) p w).1.db
  unfolding create_wallet ◌>>=◌
  create_wallet-db = ground arith

find-created :
    (p : Platform) (w : World) (row : WalletRow) (old : Db)
    → p.fault w.calls ≡ none
    → w.db ≡ set_wallets (λ rows. row ∷ rows) old
    → (Repo.find_by_id row.id p w).0 ≡ ok (to_domain p row)
unfolding Repo.find_by_id find ◌>>=◌
find-created p w row old up e = ground arith

-- A wallet that was created is stored as it was asked for, under an id that no wallet had, and is what the
-- repository then finds under that id, if that call reaches the server.
pub create_wallet-Created :
    (s : WalletService) (input : CreateWalletInput) (p : Platform) (w : World) (wallet : Wallet)
    → (create_wallet s input p w).0 ≡ ok wallet
    → p.fault (create_wallet s input p w).1.calls ≡ none
    → Created input p wallet w.db (create_wallet s input p w).1.db
      × ((Repo.find_by_id wallet.id p (create_wallet s input p w).1).0 ≡ ok wallet)
create_wallet-Created s input p w wallet h up =
    let c = create-Created input p w wallet (create_wallet-create s input p w wallet h) in
    let w' = (create_wallet s input p w).1 in
    let d = create_wallet-db s input p w wallet h in
    let found = find-created p w' c.row w.db up (d ∙ c.added) in
    (rw d c, subst (λ v. (Repo.find_by_id v.id p w').0 ≡ ok v) (sym c.answered) found)
