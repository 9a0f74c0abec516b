-- ===== src/Http.antt =====
-- delivery/http/middleware: what stands around the handlers of requests. Of a request and an answer only
-- what the middleware reads or writes is kept.
pub mod Guard
pub mod Admitted
pub mod Limit
pub mod Window
pub mod SyncLog
pub mod Address
pub mod Logged
pub mod Wallets
pub mod Owner
mod Tests
use mali.Prelude.{ℕ, Option, none, some, String}
use mali.Json.{Json, text, object, field, end, Payload}
use mali.Context.{M}

-- The part of `fiber.Ctx` that is the request.
pub record Request : Type 0 where
  pub method : String
  pub path : String
  -- the header `Authorization`
  pub authorization : String
  -- `Params("id")`
  pub id_param : String
  -- the body, if it is JSON
  pub body : Payload
  -- `Locals("userID")` and `Locals("request_id")`, if they are texts
  pub user_id : Option String
  pub request_id : Option String

-- The part that is the answer.
pub record Response : Type 0 where
  pub status : ℕ
  -- the body, if it is JSON
  pub body : Payload

-- `fiber.Handler`: the rest of the chain, behind `c.Next()`
abbrev pub Handler : Type 0
Handler = Request → M Response
