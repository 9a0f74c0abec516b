-- ===== src/Http/Limit.antt =====
-- delivery/http/middleware/rate_limit.go: at most so many requests of an address in a sliding window.
--
-- The script runs on the Redis server in one step; it is read as what it does to the sorted set of a key,
-- which is a list here. Its `PEXPIRE`, by which the server forgets a set of which the next run would keep
-- nothing, is left out. Times are in milliseconds.
use mali.Prelude.{ℕ, ◌+◌, ◌-◌, ◌/◌, Bool, Option, none, some, List, [], ◌∷◌, String, str_eq, ◌^^◌}
use mali.Prelude.Tests.{ltb, if◌then◌else◌, not}
use mali.Prelude.Lists.{length, select}

-- A member of a sorted set.
pub record Member : Type 0 where
  pub score : ℕ
  pub name : String

-- The sorted sets by key.
abbrev pub Redis : Type 0
Redis = String → List Member

-- `ZREMRANGEBYSCORE key -inf (now - window)` keeps those with a greater score.
abbrev pub is_within : ℕ → ℕ → Member → Bool
is_within window now m = ltb now (m.score + window)

-- `ZADD`: a member that is there gets the score.
unfoldable pub zadd : Member → List Member → List Member
unfolding select
zadd m set = m ∷ select (λ n. not (str_eq n.name m.name)) set

-- slidingWindowScript: the new set, and how many it has.
unfoldable pub sliding_window : ℕ → ℕ → String → List Member → List Member × ℕ
unfolding zadd select
sliding_window now window name set =
    let added = zadd (record { score = now; name = name }) (select (is_within window now) set) in
    (added, length added)

-- `ZRANGE key 0 0`: the least score.
unfoldable pub oldest : List Member → Option ℕ
oldest [] = none
oldest (m ∷ set) = elim (oldest set) [
  | none ↦ some m.score
  | some t ↦ some (if ltb m.score t then m.score else t)
]

-- A request: its address and time, the random text drawn for it, and whether the calls of Redis fail.
pub record Visit : Type 0 where
  pub ip : String
  pub now : ℕ
  pub name : String
  pub script_fails : Bool
  pub range_fails : Bool

-- How a request is answered: handed on, or with 503, 500 or 429, the last with the seconds to wait.
pub data Verdict : Type 0 where
  admitted : Verdict
  unavailable : Verdict
  failed : Verdict
  limited : ℕ → Verdict

abbrev pub rate_limit_key : String → String
rate_limit_key ip = "rate_limit:auth:" ^^ ip

-- Seconds, rounded up, at least one.
abbrev pub seconds : ℕ → ℕ
seconds ms = let s = (ms + 999) / 1000 in if ltb s 1 then 1 else s

-- `remainingMs` is what is left of the window; less than nothing counts as nothing.
unfoldable pub retry_after : ℕ → Visit → List Member → ℕ
unfolding oldest
retry_after window v set =
    if v.range_fails
    then 60
    else elim (oldest set) [ none ↦ 60 | some t ↦ seconds (window + t - v.now) ]

abbrev pub set_key : String → List Member → Redis → Redis
set_key key set redis = λ k. if str_eq k key then set else redis k

abbrev judge : ℕ → ℕ → Visit → List Member × ℕ → Verdict
judge limit window v (set, count) =
    if ltb limit count then limited (retry_after window v set) else admitted

unfoldable pub auth_rate_limit : Bool → ℕ → ℕ → Visit → Redis → Verdict × Redis
unfolding sliding_window retry_after
auth_rate_limit has_client limit window v redis =
    if not has_client
    then (unavailable, redis)
    else if v.script_fails
    then (failed, redis)
    else (let key = rate_limit_key v.ip in
        let outcome = sliding_window v.now window v.name (redis key) in
        (judge limit window v outcome, set_key key outcome.0 redis))
