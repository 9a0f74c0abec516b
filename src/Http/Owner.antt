-- ===== src/Http/Owner.antt =====
-- Whose wallets a request over HTTP can change (Http/Wallets behind Http/Guard and Http/SyncLog).
use mali.Prelude.{◌+◌, ◌≡◌, refl, ap, ◌∙◌, ◌⊎◌, inl, inr, Bool, Option, none, some, String, arith}
use mali.Domain.{Uuid}
use mali.Context.{Result, Platform, World, M, pure, ◌>>=◌}
use mali.Context.Success.{result_cases}
use mali.Wallet.{WalletService, list_wallets}
use mali.Wallet.Repo
use mali.Wallet.Isolation.{
  foreign, UniqueIds, create_wallet-foreign, update_name-foreign, delete-foreign,
}
use mali.Http.{Request, Response, Handler}
use mali.Http.Guard.{ParseWithClaims, jwt_auth}
use mali.Http.Admitted.{IsAdmitted, jwt_auth-IsAdmitted}
use mali.Http.SyncLog.{sync_log}
use mali.Http.Logged.{sync_log-IsNoted}
use mali.Http.Wallets.{
  HandlerLibrary, CreateWalletRequest, UpdateWalletRequest, create_checked, create_parsed,
  update_checked, update_parsed, update_of, delete_of, authenticated_user_id, answer, for_user,
  handle_list_wallets, handle_create_wallet, handle_update_wallet, handle_delete_wallet,
}

-- registerWalletRoutes
pub data WalletRoute : Type 0 where
  get_all : WalletRoute
  post_new : WalletRoute
  patch_one : WalletRoute
  remove_one : WalletRoute

module _ (l : HandlerLibrary) (s : WalletService) where
  abbrev pub handle : WalletRoute → Handler
  handle get_all = handle_list_wallets l s
  handle post_new = handle_create_wallet l s
  handle patch_one = handle_update_wallet l s
  handle remove_one = handle_delete_wallet l s

  answer-db :
      {A : Type 0} (show : A → Response) (m : M A) (p : Platform) (w : World)
      → (answer l show m p w).1.db ≡ (m p w).1.db
  unfolding ◌>>=◌
  answer-db show m p w = elim (result_cases (m p w).0) [
    | inl (a, e) ↦ ground arith
    | inr (e, q) ↦ ground arith
  ]

  list_wallets-db : (u : Uuid) (p : Platform) (w : World) → (list_wallets s u p w).1.db ≡ w.db
  unfolding list_wallets Repo.list_by_user ◌>>=◌
  list_wallets-db u p w = ground arith

  answer-foreign :
      {A : Type 0} (u : Uuid) (show : A → Response) (m : M A) (p : Platform) (w : World)
      → foreign u (m p w).1.db.wallets ≡ foreign u w.db.wallets
      → foreign u (answer l show m p w).1.db.wallets ≡ foreign u w.db.wallets
  answer-foreign u show m p w h = ap (λ d. foreign u d.wallets) (answer-db show m p w) ∙ h

  module _ (u : Uuid) (p : Platform) (w : World) (uniq : UniqueIds w.db.wallets) where
    -- A call that leaves the wallets of all others.
    abbrev Leaves : M Response → Type 0
    Leaves m = foreign u (m p w).1.db.wallets ≡ foreign u w.db.wallets

    create_checked-Leaves :
        (q : CreateWalletRequest) (refusal : Option String)
        → Leaves (create_checked l s u q refusal)
    unfolding pure
    create_checked-Leaves q (some m) = refl
    create_checked-Leaves q none = answer-foreign u _ _ p w (create_wallet-foreign s _ p w)

    create_parsed-Leaves : (q : Option CreateWalletRequest) → Leaves (create_parsed l s u q)
    unfolding pure
    create_parsed-Leaves none = refl
    create_parsed-Leaves (some q) = create_checked-Leaves _ _

    update_checked-Leaves :
        (i : Uuid) (q : UpdateWalletRequest) (refusal : Option String)
        → Leaves (update_checked l s u i q refusal)
    unfolding pure
    update_checked-Leaves i q (some m) = refl
    update_checked-Leaves i q none = answer-foreign u _ _ p w (update_name-foreign s _ p w uniq)

    update_parsed-Leaves :
        (i : Uuid) (q : Option UpdateWalletRequest) → Leaves (update_parsed l s u i q)
    unfolding pure
    update_parsed-Leaves i none = refl
    update_parsed-Leaves i (some q) = update_checked-Leaves i _ _

    update_of-Leaves : (r : Request) (i : String ⊎ Uuid) → Leaves (update_of l s r u i)
    unfolding pure
    update_of-Leaves r (inl m) = refl
    update_of-Leaves r (inr i) = update_parsed-Leaves i _

    delete_of-Leaves : (i : String ⊎ Uuid) → Leaves (delete_of l s u i)
    unfolding pure
    delete_of-Leaves (inl m) = refl
    delete_of-Leaves (inr i) = answer-foreign u _ _ p w (delete-foreign s _ p w uniq)

    -- Each handler serves the user of the request.
    for_user-Leaves :
        (serve : Uuid → M Response) (r : Request)
        → authenticated_user_id l r ≡ inr u
        → Leaves (serve u)
        → Leaves (for_user l s serve r)
    unfolding for_user pure
    for_user-Leaves serve r e h = rw e h

    -- With a user it leaves the wallets of all others.
    handle-Leaves :
        (route : WalletRoute) (r : Request)
        → authenticated_user_id l r ≡ inr u
        → Leaves (handle route r)
    unfolding handle_list_wallets handle_create_wallet handle_update_wallet handle_delete_wallet
    handle-Leaves get_all r e = for_user-Leaves _ r e (
        answer-foreign u _ (list_wallets s u) p w
          (ap (λ d. foreign u d.wallets) (list_wallets-db u p w)))
    handle-Leaves post_new r e = for_user-Leaves _ r e (create_parsed-Leaves _)
    handle-Leaves patch_one r e = for_user-Leaves _ r e (update_of-Leaves r _)
    handle-Leaves remove_one r e = for_user-Leaves _ r e (delete_of-Leaves _)

  for_user-stranger :
      (serve : Uuid → M Response) (r : Request) (message : String) (p : Platform) (w : World)
      → authenticated_user_id l r ≡ inl message
      → (for_user l s serve r p w).1 ≡ w
  unfolding for_user pure
  for_user-stranger serve r m p w e = rw e refl

  -- Without a user a handler does nothing.
  handle-stranger :
      (route : WalletRoute) (r : Request) (message : String) (p : Platform) (w : World)
      → authenticated_user_id l r ≡ inl message
      → (handle route r p w).1 ≡ w
  unfolding handle_list_wallets handle_create_wallet handle_update_wallet handle_delete_wallet
  handle-stranger get_all r m p w e = for_user-stranger _ r m p w e
  handle-stranger post_new r m p w e = for_user-stranger _ r m p w e
  handle-stranger patch_one r m p w e = for_user-stranger _ r m p w e
  handle-stranger remove_one r m p w e = for_user-stranger _ r m p w e

  String-or-Uuid : (v : String ⊎ Uuid) → ((m : String) × (v ≡ inl m)) ⊎ ((u : Uuid) × (v ≡ inr u))
  String-or-Uuid (inl m) = inl (m, refl)
  String-or-Uuid (inr u) = inr (u, refl)

  -- Behind SyncLog a route does the same to the wallets.
  noted-wallets :
      (has_writer : Bool) (route : WalletRoute) (r : Request) (p : Platform) (w : World)
      → (sync_log l.parse_uuid has_writer (handle route) r p w).1.db.wallets
        ≡ (handle route r p w).1.db.wallets
  noted-wallets has_writer route r p w =
      let (_, same, _) = sync_log-IsNoted l.parse_uuid r has_writer (handle route) p w in
      ap (λ d. d.wallets) same

  module _ (parse : ParseWithClaims) (access_secret : String) (has_writer : Bool)
      (route : WalletRoute) (r : Request) (p : Platform) (w : World) where
    abbrev pub behind_log : Handler
    behind_log = sync_log l.parse_uuid has_writer (handle route)

    -- The chain of registerWalletRoutes: JWTAuth, SyncLog, the handler.
    abbrev pub routed : Result Response × World
    routed = jwt_auth parse access_secret behind_log r p w

    -- The request has an access token whose subject is the user, and the wallets of all others are the same.
    pub record IsOwn : Type 0 where
      pub user : Uuid
      pub admitted : IsAdmitted parse access_secret behind_log r p w
      pub subject :
          authenticated_user_id l (record r { user_id = some admitted.claims.subject }) ≡ inr user
      pub others : foreign user routed.1.db.wallets ≡ foreign user w.db.wallets

    -- A request for wallets over HTTP, through JWTAuth, SyncLog and its handler, leaves the table of wallets as it is, or has a valid
    -- access token; then it leaves the wallets of all users but the token's subject as they are. The
    -- table's ids must be unique.
    pub jwt_auth-IsOwn : UniqueIds w.db.wallets → (routed.1.db.wallets ≡ w.db.wallets) ⊎ IsOwn
    jwt_auth-IsOwn uniq = elim (jwt_auth-IsAdmitted parse access_secret behind_log r p w) [
      | inl refused ↦ inl (ap (λ d. d.wallets) refused.untouched)
      | inr a ↦
          let q : Request = record r { user_id = some a.claims.subject } in
          let w' : World = record w { ticks = w.ticks + 1 } in
          elim (String-or-Uuid (authenticated_user_id l q)) [
            | inl (m, e) ↦ inl (
                ap (λ o. o.1.db.wallets) a.handed_on
                ∙ noted-wallets has_writer route q p w'
                ∙ ap (λ v. v.db.wallets) (handle-stranger route q m p w' e))
            | inr (u, e) ↦ inr (record {
              user = u;
              admitted = a;
              subject = e;
              others =
                  ap (λ o. foreign u o.1.db.wallets) a.handed_on
                  ∙ ap (foreign u) (noted-wallets has_writer route q p w')
                  ∙ handle-Leaves u p w' uniq route q e;
            })
          ]
    ]
