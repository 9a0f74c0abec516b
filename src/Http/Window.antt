-- ===== src/Http/Window.antt =====
-- How many requests the middleware AuthRateLimit hands on (Http/Limit).
use mali.Prelude.{
  ℕ, suc, ◌+◌, ◌≤◌, ◌≡◌, refl, sym, subst, ◌⊎◌, inl, inr, Bool, true, false, ◌&&◌, List, [], ◌∷◌,
  String, str_eq, eq_iff, arith,
}
use mali.Prelude.Tests.{ltb, if◌then◌else◌, lt→ltb, not, Bool-cases}
use mali.Prelude.Lists.{length, select, exists}
use mali.Http.Limit.{
  Member, Redis, is_within, zadd, sliding_window, Visit, Verdict, admitted, rate_limit_key,
  auth_rate_limit,
}

-- The requests in the order of time, the last one first, none later than `now`, and the names that were
-- drawn for them all different.
abbrev pub IsHistory : ℕ → List Visit → Type 0
IsHistory now [] = Unit
IsHistory now (v ∷ past) =
    (v.now ≤ now) × (exists (λ u. str_eq u.name v.name) past ≡ false) × IsHistory v.now past

abbrev pub is_admitted : Verdict → Bool
is_admitted v = elim v [ admitted ↦ true | _ ↦ false ]

module _ (limit window : ℕ) where
  -- The sets after the requests, the first of which finds none.
  unfoldable pub after_visits : List Visit → Redis
  unfolding auth_rate_limit
  after_visits [] = λ key. []
  after_visits (v ∷ past) = (auth_rate_limit true limit window v (after_visits past)).1

  module _ (ip : String) where
    abbrev counts : ℕ → Visit → Bool
    counts now v = str_eq v.ip ip && ltb now (v.now + window)

    -- How many of the address were handed on within the window before `now`.
    unfoldable pub admitted_count : ℕ → List Visit → ℕ
    unfolding after_visits auth_rate_limit
    admitted_count now [] = 0
    admitted_count now (v ∷ past) =
        let rest = admitted_count now past in
        let verdict = (auth_rate_limit true limit window v (after_visits past)).0 in
        if is_admitted verdict && counts now v then suc rest else rest

    -- How many of it reached the script.
    unfoldable tries : ℕ → List Visit → ℕ
    tries now [] = 0
    tries now (v ∷ past) =
        let rest = tries now past in if not v.script_fails && counts now v then suc rest else rest

length-select_le : {A : Type 0} (p : A → Bool) (xs : List A) → length (select p xs) ≤ length xs
unfolding select
length-select_le p [] = omega arith
length-select_le p (x ∷ xs) = ground (arith, length-select_le p xs)

exists-select :
    {A : Type 0} (p q : A → Bool) (xs : List A)
    → exists p xs ≡ false
    → exists p (select q xs) ≡ false
unfolding select exists
exists-select p q [] h = ground arith
exists-select p q (x ∷ xs) h = elim (Bool-cases (q x)) [
  | inl e ↦ ground (arith, exists-select p q xs)
  | inr e ↦ ground (arith, exists-select p q xs)
]

-- What the script drops is not within a later window, if the name is new.
kept :
    (name : String) (t now window : ℕ) (set : List Member)
    → t ≤ now
    → exists (λ m. str_eq m.name name) set ≡ false
    → length (select (is_within window now) set)
      ≤ length (
          select
            (is_within window now)
            (select (λ m. not (str_eq m.name name)) (select (is_within window t) set)))
unfolding select exists
kept name t now window [] h fresh = omega arith
kept name t now window (m ∷ set) h fresh =
    let ih = kept name t now window set h (ground arith) in
    elim (Bool-cases (str_eq m.name name)) [
      | inl n ↦ absurd (ground arith)
      | inr n ↦ elim (Bool-cases (is_within window t m)) [
        | inl e ↦ elim (Bool-cases (is_within window now m)) [
          | inl g ↦ rw (e, n) (ground arith)
          | inr g ↦ rw (e, n) (ground arith)
        ]
        | inr e ↦ rw e (ground arith)
      ]
    ]

-- The set of a key after a request that finds it so.
abbrev grown : ℕ → Visit → List Member → List Member
grown window v set =
    zadd (record { score = v.now; name = v.name }) (select (is_within window v.now) set)

-- A set is as it was, if the script did not run or not for its key, or has grown.
abbrev IsStep : ℕ → Visit → String → List Member → List Member → Type 0
IsStep window v key before now =
    ((before ≡ now) × ((v.script_fails ≡ true) ⊎ (str_eq key (rate_limit_key v.ip) ≡ false)))
    ⊎ ((v.script_fails ≡ false) × (now ≡ grown window v before))

other_ip :
    (a b : String) → str_eq (rate_limit_key b) (rate_limit_key a) ≡ false → str_eq a b ≡ false
other_ip a b n = elim (Bool-cases (str_eq a b)) [
  | inr e ↦ e
  | inl e ↦
      let same = (eq_iff (rate_limit_key a) (rate_limit_key a)).1 refl in
      let n' =
        subst (λ c. str_eq (rate_limit_key c) (rate_limit_key a) ≡ false) (sym ((eq_iff a b).0 e))
          n in
      absurd (ground arith)
]

module _ (limit window : ℕ) where
  after_cases :
      (v : Visit) (past : List Visit) (key : String)
      → IsStep window v key
          (after_visits limit window past key)
          (after_visits limit window (v ∷ past) key)
  unfolding after_visits auth_rate_limit sliding_window
  after_cases v past key = elim (Bool-cases v.script_fails) [
    | inl e ↦ inl (rw e refl, inl e)
    | inr e ↦ elim (Bool-cases (str_eq key (rate_limit_key v.ip))) [
      | inr n ↦ inl (rw (e, n) refl, inr n)
      | inl q ↦ inr (e, rw (e, q, (eq_iff key (rate_limit_key v.ip)).0 q) refl)
    ]
  ]

  -- The sets have no names but those of the requests.
  sets-fresh :
      (name key : String) (past : List Visit)
      → exists (λ u. str_eq u.name name) past ≡ false
      → exists (λ m. str_eq m.name name) (after_visits limit window past key) ≡ false
  unfolding after_visits exists zadd
  sets-fresh name key [] h = ground arith
  sets-fresh name key (v ∷ past) h =
      let ih = sets-fresh name key past (ground arith) in
      let set = after_visits limit window past key in
      let named : Member → Bool = λ m. str_eq m.name name in
      elim (after_cases v past key) [
        | inl (e, _) ↦ rw (sym e) ih
        | inr (_, e) ↦ rw e (
            ground (
              arith,
              exists-select named (λ n. not (str_eq n.name v.name))
                  (select (is_within window v.now) set)
                  (exists-select named (is_within window v.now) set ih),
            ))
      ]

  -- The set of an address has all its requests that reached the script, within a window that is not over.
  tries_le :
      (ip : String) (t now : ℕ) (past : List Visit)
      → t ≤ now
      → IsHistory t past
      → tries limit window ip now past
        ≤ length
            (select (is_within window now) (after_visits limit window past (rate_limit_key ip)))
  unfolding tries select zadd
  tries_le ip t now [] h k = omega arith
  tries_le ip t now (v ∷ past) h (le, new, older) =
      let key = rate_limit_key ip in
      let ih = tries_le ip v.now now past (omega arith) older in
      elim (after_cases v past key) [
        | inl (e, inl f) ↦ rw (sym e, f) ih
        | inl (e, inr n) ↦ rw (sym e, other_ip v.ip ip n) (ground arith)
        | inr (f, e) ↦
            let k =
              kept v.name v.now now window (after_visits limit window past key) (omega arith)
                (sets-fresh v.name key past new) in
            elim (Bool-cases (ltb now (v.now + window))) [
              | inl g ↦ rw (e, f, g) (ground arith)
              | inr g ↦ rw (e, f, g) (ground arith)
            ]
      ]

  reached :
      (v : Visit) (redis : Redis)
      → is_admitted (auth_rate_limit true limit window v redis).0 ≡ true
      → v.script_fails ≡ false
  unfolding auth_rate_limit
  reached v redis h = ground arith

  -- What is handed on has reached the script.
  admitted_tries :
      (ip : String) (now : ℕ) (past : List Visit)
      → admitted_count limit window ip now past ≤ tries limit window ip now past
  unfolding admitted_count tries
  admitted_tries ip now [] = omega arith
  admitted_tries ip now (v ∷ past) =
      let ih = admitted_tries ip now past in
      let redis = after_visits limit window past in
      elim (Bool-cases (is_admitted (auth_rate_limit true limit window v redis).0)) [
        | inl e ↦ rw (e, reached v redis e) (ground arith)
        | inr e ↦ rw e (ground arith)
      ]

  -- A later window has no more of the requests.
  tries_antitone :
      (ip : String) (t now : ℕ) (past : List Visit)
      → t ≤ now
      → tries limit window ip now past ≤ tries limit window ip t past
  unfolding tries
  tries_antitone ip t now [] h = omega arith
  tries_antitone ip t now (v ∷ past) h =
      let ih = tries_antitone ip t now past h in
      elim (Bool-cases (ltb now (v.now + window))) [
        | inl e ↦ rw (e, lt→ltb t (v.now + window) (ground arith)) (ground arith)
        | inr e ↦ rw e (ground arith)
      ]

  -- The set is not greater than the limit, if the request was handed on.
  admitted_size :
      (v : Visit) (past : List Visit)
      → is_admitted (auth_rate_limit true limit window v (after_visits limit window past)).0 ≡ true
      → length (after_visits limit window (v ∷ past) (rate_limit_key v.ip)) ≤ limit
  unfolding after_visits auth_rate_limit sliding_window
  admitted_size v past h =
      let key = rate_limit_key v.ip in
      let f = reached v (after_visits limit window past) h in
      rw (f, (eq_iff key key).1 refl) (ground arith)

  IsHistory-later :
      (t now : ℕ) (past : List Visit) → t ≤ now → IsHistory t past → IsHistory now past
  IsHistory-later t now [] h k = k
  IsHistory-later t now (v ∷ past) h (le, new, older) = (omega arith, new, older)

  admitted_last_le :
      (v : Visit) (past : List Visit) (now : ℕ)
      → IsHistory now (v ∷ past)
      → is_admitted (auth_rate_limit true limit window v (after_visits limit window past)).0 ≡ true
      → admitted_count limit window v.ip now (v ∷ past) ≤ limit
  admitted_last_le v past now (le, new, older) h =
      let all = v ∷ past in
      let set = after_visits limit window all (rate_limit_key v.ip) in
      let a = admitted_tries v.ip now all in
      let b = tries_antitone v.ip v.now now all le in
      let c = tries_le v.ip v.now v.now all (omega arith) (omega arith, new, older) in
      let d = length-select_le (is_within window v.now) set in
      let e = admitted_size v past h in omega arith

  -- Of the requests of an address that AuthRateLimit answers while Redis keeps its sets, at most `limit`
  -- are handed on within a window, up to any moment; the names drawn must differ, and the times not go
  -- back.
  pub admitted_count_le :
      (ip : String) (now : ℕ) (past : List Visit)
      → IsHistory now past
      → admitted_count limit window ip now past ≤ limit
  unfolding admitted_count
  admitted_count_le ip now [] h = omega arith
  admitted_count_le ip now (v ∷ past) (le, new, older) =
      let ih = admitted_count_le ip now past (IsHistory-later v.now now past le older) in
      let redis = after_visits limit window past in
      elim (Bool-cases (is_admitted (auth_rate_limit true limit window v redis).0)) [
        | inr e ↦ rw e ih
        | inl e ↦ elim (Bool-cases (str_eq v.ip ip)) [
          | inr g ↦ rw (e, g) ih
          | inl g ↦
              subst (λ i. admitted_count limit window i now (v ∷ past) ≤ limit)
                ((eq_iff v.ip ip).0 g) (admitted_last_le v past now (le, new, older) e)
        ]
      ]
