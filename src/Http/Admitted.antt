-- ===== src/Http/Admitted.antt =====
-- Whom the middleware JWTAuth lets through (Http/Guard).
use Prim.Native.Char.{Char, code}
use mali.Prelude.{
  ℕ, ◌+◌, ◌≡◌, refl, ap, ◌∙◌, ◌⊎◌, inl, inr, Bool, true, false, Option, none, some, List, [], ◌∷◌,
  ◌++◌, String, str_eq, eq_iff, arith,
}
use mali.Prelude.Tests.{◌==◌, ==_iff, if◌then◌else◌, Bool-cases, Option-cases}
use mali.Prelude.Text.{codes, trim_space, to_lower, is_empty}
use mali.Context.{ok, Platform, World, ◌>>=◌}
use mali.Http.{Request, Handler}
use mali.Http.Guard.{
  AccessTokenClaims, ParseWithClaims, unauthorized, before_too, split_once, bearer_token, hand_on,
  jwt_auth,
}

abbrev parts_codes : ℕ → Option (String × String) → List ℕ
parts_codes n none = []
parts_codes n (some (a, b)) = codes a ++ n ∷ codes b

-- One character in front.
module _ (n : ℕ) (c : Char) (s : String)
    (behind : (a b : String)
      → split_once n s ≡ some (a, b)
      → codes s ≡ codes a ++ n ∷ codes b) where
  parts_before :
      (rest : Option (String × String)) (a b : String)
      → split_once n s ≡ rest
      → before_too c rest ≡ some (a, b)
      → code c ∷ codes s ≡ codes a ++ n ∷ codes b
  parts_before none a b e h = absurd (ground arith)
  parts_before (some (a', b')) a b e h =
      ap (λ cs. code c ∷ cs) (behind a' b' e) ∙ ap (parts_codes n) h

  parts_here :
      (q : Bool) (a b : String)
      → (code c == n) ≡ q
      → (if q then some (String.[], s) else before_too c (split_once n s)) ≡ some (a, b)
      → code c ∷ codes s ≡ codes a ++ n ∷ codes b
  parts_here true a b e h = ap (λ m. m ∷ codes s) ((==_iff (code c) n).0 e) ∙ ap (parts_codes n) h
  parts_here false a b e h = parts_before (split_once n s) a b refl h

split_once-parts :
    (n : ℕ) (s a b : String) → split_once n s ≡ some (a, b) → codes s ≡ codes a ++ n ∷ codes b
unfolding split_once
split_once-parts n String.[] a b h = absurd (ground arith)
split_once-parts n (String.◌∷◌ c s) a b h =
    parts_here n c s (split_once-parts n s) (code c == n) a b refl h

-- The header is `bearer`, in whatever case, a space, and the token, with space around it.
pub record IsBearer (authorization token : String) : Type 0 where
  pub scheme : String
  pub rest : String
  pub split : codes (trim_space authorization) ≡ codes scheme ++ 32 ∷ codes rest
  pub is_bearer : to_lower scheme ≡ "bearer"
  pub trimmed : token ≡ trim_space rest

bearer_token-IsBearer :
    (authorization token : String)
    → bearer_token authorization ≡ inr token
    → IsBearer authorization token
unfolding bearer_token
bearer_token-IsBearer authorization token h =
    elim (Option-cases (split_once 32 (trim_space authorization))) [
      | inl e ↦ absurd (ground arith)
      | inr ((scheme, rest), e) ↦ record {
        scheme = scheme;
        rest = rest;
        split = split_once-parts 32 (trim_space authorization) scheme rest e;
        is_bearer = (eq_iff (to_lower scheme) "bearer").0 (ground arith);
        trimmed = ground arith;
      }
    ]

module _ (parse : ParseWithClaims) (access_secret : String) (next : Handler) (r : Request)
    (p : Platform) (w : World) where
  -- The request carries a token whose claims are those of an access token with a subject, and the handler
  -- gets it, with the subject as its user.
  pub record IsAdmitted : Type 0 where
    pub token : String
    pub claims : AccessTokenClaims
    pub configured : is_empty (trim_space access_secret) ≡ false
    pub bearer : IsBearer r.authorization token
    pub parsed : parse (trim_space access_secret) token (p.clock w.ticks) ≡ some claims
    pub is_access : claims.token_type ≡ "access"
    pub has_subject : is_empty claims.subject ≡ false
    pub handed_on :
        jwt_auth parse access_secret next r p w
        ≡ next (record r { user_id = some claims.subject }) p (record w { ticks = w.ticks + 1 })

  -- The request is answered with 401, and the tables are as they were.
  pub record IsRefused : Type 0 where
    pub message : String
    pub answered : (jwt_auth parse access_secret next r p w).0 ≡ ok (unauthorized r message)
    pub untouched : (jwt_auth parse access_secret next r p w).1.db ≡ w.db

  refused_token :
      (message : String)
      → is_empty (trim_space access_secret) ≡ false
      → bearer_token r.authorization ≡ inl message
      → IsRefused
  unfolding jwt_auth ◌>>=◌
  refused_token m e b = record { message = m; answered = ground arith; untouched = ground arith }

  by_claims :
      (token : String) (found : Option AccessTokenClaims)
      → is_empty (trim_space access_secret) ≡ false
      → bearer_token r.authorization ≡ inr token
      → parse (trim_space access_secret) token (p.clock w.ticks) ≡ found
      → IsRefused ⊎ IsAdmitted
  unfolding jwt_auth hand_on ◌>>=◌
  by_claims token none e b q = inl (record {
    message = "invalid or expired token";
    answered = ground arith;
    untouched = ground arith;
  })
  by_claims token (some claims) e b q = elim (Bool-cases (str_eq claims.token_type "access")) [
    | inr t ↦ inl (record {
      message = "invalid token type";
      answered = ground arith;
      untouched = ground arith;
    })
    | inl t ↦ elim (Bool-cases (is_empty claims.subject)) [
      | inl g ↦ inl (record {
        message = "missing token subject";
        answered = ground arith;
        untouched = ground arith;
      })
      | inr g ↦ inr (record {
        token = token;
        claims = claims;
        configured = e;
        bearer = bearer_token-IsBearer r.authorization token b;
        parsed = q;
        is_access = (eq_iff claims.token_type "access").0 t;
        has_subject = g;
        handed_on = ground arith;
      })
    ]
  ]

  by_header :
      (v : String ⊎ String)
      → is_empty (trim_space access_secret) ≡ false
      → bearer_token r.authorization ≡ v
      → IsRefused ⊎ IsAdmitted
  by_header (inl m) e b = inl (refused_token m e b)
  by_header (inr token) e b = by_claims token _ e b refl

  -- The middleware answers a request with 401 and leaves the tables alone, or it hands it on: then the
  -- request's header has a valid access token with a subject, and that is the user of the request.
  pub jwt_auth-IsAdmitted : IsRefused ⊎ IsAdmitted
  unfolding jwt_auth hand_on ◌>>=◌
  jwt_auth-IsAdmitted = elim (Bool-cases (is_empty (trim_space access_secret))) [
    | inl e ↦ inl (record {
      message = "auth middleware is not configured";
      answered = ground arith;
      untouched = ground arith;
    })
    | inr e ↦ by_header (bearer_token r.authorization) e refl
  ]
