-- ===== src/Http/Address.antt =====
-- Which change a request names by its method and path, told without the code of Http/SyncLog.
use mali.Prelude.{
  ◌≡◌, ◌≢◌, refl, sym, ap, subst, ◌∙◌, ◌⊎◌, inl, inr, Bool, true, false, Option, none, some, List,
  [], ◌∷◌, String, ◌^^◌, str_eq, eq_iff, arith,
}
use mali.Prelude.Tests.{if◌then◌else◌, Bool-cases, Option-cases}
use mali.Prelude.Lists.{get_elem?}
use mali.Prelude.Text.{trim_space, to_upper}
use mali.Http.{Request}
use mali.Http.SyncLog.{
  path_segments, entity_type_of, operation_of, with_operation, create_operation, of_segments,
  extract_entity_operation,
}

-- PATCH updates, DELETE deletes; POST sets a budget, contributes to a goal, or else creates.
pub data IsChange (rest : List String) : String → String → String → Type 0 where
  update : {t : String} → IsChange rest "PATCH" t "update"
  delete : {t : String} → IsChange rest "DELETE" t "delete"
  upsert : IsChange rest "POST" "budget" "upsert"
  contribute : get_elem? rest 1 ≡ some "contribute" → IsChange rest "POST" "goal" "contribute"
  create : {t : String} → t ≢ "budget" → IsChange rest "POST" t "create"

-- The path is `/v1/`, the entity's type in the plural, and more.
pub record IsAddressed (r : Request) (entity_type operation : String) : Type 0 where
  pub rest : List String
  pub path : path_segments r.path ≡ "v1" ∷ (entity_type ^^ "s") ∷ rest
  pub change : IsChange rest (to_upper (trim_space r.method)) entity_type operation

chosen :
    {A : Type 0} (b : Bool) (x t : A) (others : Option A)
    → (if b then some x else others) ≡ some t
    → ((b ≡ true) × (x ≡ t)) ⊎ ((b ≡ false) × (others ≡ some t))
chosen true x t others h = inl (refl, ground arith)
chosen false x t others h = inr (refl, h)

-- One line of a table of names.
named : (name key x t : String) → str_eq name key ≡ true → key ≡ x ^^ "s" → x ≡ t → name ≡ t ^^ "s"
named name key x t e k q = (eq_iff name key).0 e ∙ k ∙ ap (λ y. y ^^ "s") q

plural : (name t : String) → entity_type_of name ≡ some t → name ≡ t ^^ "s"
plural name t h = elim (chosen (str_eq name "transactions") "transaction" t _ h) [
  | inl (e, q) ↦ named name "transactions" "transaction" t e refl q
  | inr (_, h₁) ↦ elim (chosen (str_eq name "goals") "goal" t _ h₁) [
    | inl (e, q) ↦ named name "goals" "goal" t e refl q
    | inr (_, h₂) ↦ elim (chosen (str_eq name "budgets") "budget" t _ h₂) [
      | inl (e, q) ↦ named name "budgets" "budget" t e refl q
      | inr (_, h₃) ↦ elim (chosen (str_eq name "wallets") "wallet" t none h₃) [
        | inl (e, q) ↦ named name "wallets" "wallet" t e refl q
        | inr (_, h₄) ↦ absurd (ground arith)
      ]
    ]
  ]
]

unequal : (t key : String) → str_eq t key ≡ false → t ≢ key
unequal t key e q = let k = (eq_iff t key).1 q in absurd (ground arith)

-- What POST does.
create_operation-IsChange :
    (version name t : String) (rest : List String)
    → IsChange rest "POST" t (create_operation (version ∷ name ∷ rest) t)
create_operation-IsChange version name t rest = elim (Bool-cases (str_eq t "budget")) [
  | inl e ↦
      rw e (subst (λ x. IsChange rest "POST" x "upsert") (sym ((eq_iff t "budget").0 e)) upsert)
  | inr n ↦ elim (Bool-cases (str_eq t "goal")) [
    | inr g ↦ rw (n, g) (create (unequal t "budget" n))
    | inl g ↦ elim (Option-cases (get_elem? rest 1)) [
      | inl e ↦ rw (n, g, e) (create (unequal t "budget" n))
      | inr (v, e) ↦ elim (Bool-cases (str_eq v "contribute")) [
        | inr d ↦ rw (n, g, e, d) (create (unequal t "budget" n))
        | inl d ↦
            rw (n, g, e, d)
              (subst (λ x. IsChange rest "POST" x "contribute") (sym ((eq_iff t "goal").0 g))
                (contribute (e ∙ ap some ((eq_iff v "contribute").0 d))))
      ]
    ]
  ]
]

-- One line of the table of methods.
by_method :
    (rest : List String) (method key t x o : String)
    → str_eq method key ≡ true
    → IsChange rest key t x
    → x ≡ o
    → IsChange rest method t o
by_method rest method key t x o e c q =
    subst (λ m. IsChange rest m t o) (sym ((eq_iff method key).0 e))
      (subst (λ y. IsChange rest key t y) q c)

operation_of-IsChange :
    (version name method t o : String) (rest : List String)
    → operation_of method (version ∷ name ∷ rest) t ≡ some o
    → IsChange rest method t o
operation_of-IsChange version name method t o rest h =
    let segments : List String = version ∷ name ∷ rest in
    elim (chosen (str_eq method "POST") (create_operation segments t) o _ h) [
      | inl (e, q) ↦
          by_method rest method "POST" t _ o e (create_operation-IsChange version name t rest) q
      | inr (_, h₁) ↦ elim (chosen (str_eq method "PATCH") "update" o _ h₁) [
        | inl (e, q) ↦ by_method rest method "PATCH" t "update" o e update q
        | inr (_, h₂) ↦ elim (chosen (str_eq method "DELETE") "delete" o none h₂) [
          | inl (e, q) ↦ by_method rest method "DELETE" t "delete" o e delete q
          | inr (_, h₃) ↦ absurd (ground arith)
        ]
      ]
    ]

with_operation-some :
    (t' t o : String) (u : Option String)
    → with_operation t' u ≡ some (t, o)
    → (t' ≡ t) × (u ≡ some o)
with_operation-some t' t o none h = absurd (ground arith)
with_operation-some t' t o (some o') h = (ground arith, ground arith)

of_segments-some :
    (method t o : String) (segments : List String)
    → of_segments method segments ≡ some (t, o)
    → (rest : List String) × (segments ≡ "v1" ∷ (t ^^ "s") ∷ rest) × IsChange rest method t o
of_segments-some method t o [] h = absurd (ground arith)
of_segments-some method t o (v ∷ []) h = absurd (ground arith)
of_segments-some method t o (version ∷ name ∷ rest) h = elim (Bool-cases (str_eq version "v1")) [
  | inr e ↦ absurd (ground arith)
  | inl e ↦ elim (Option-cases (entity_type_of name)) [
    | inl a ↦ absurd (ground arith)
    | inr (t', a) ↦
        let h₁ : with_operation t' (operation_of method (version ∷ name ∷ rest) t') ≡ some (t, o) =
          ground arith in
        let (q, u) = with_operation-some t' t o _ h₁ in
        let spelled : name ≡ t ^^ "s" = plural name t' a ∙ ap (λ y. y ^^ "s") q in
        (
          rest,
          rw ((eq_iff version "v1").0 e, spelled) refl,
          subst (λ y. IsChange rest method y o) q
              (operation_of-IsChange version name method t' o rest u),
        )
  ]
]

pub extract_entity_operation-IsAddressed :
    (r : Request) (t o : String) → extract_entity_operation r ≡ some (t, o) → IsAddressed r t o
unfolding extract_entity_operation
extract_entity_operation-IsAddressed r t o h =
    let (rest, path, change) =
      of_segments-some (to_upper (trim_space r.method)) t o (path_segments r.path) h in
    record { rest = rest; path = path; change = change }
