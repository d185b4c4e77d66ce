-- ===== src/Platform/RedisClient.antt =====
-- The client of `ioredis`. A command answers `none` when its promise rejects. Times are
-- milliseconds, lifetimes seconds.
use mathlib.Core.List.{Memᴰ}
use mediavault_backend.Prelude.{
  ℕ, ◌+◌, ◌*◌, ◌≤◌, ◌<◌, String, true, false, Option, none, some, List, ◌++◌, ◌≡◌, ◌==◌, All,
}

-- A full iteration of `SCAN` on a server that does not change, from a cursor: the keys that its calls
-- return, one page after the other.
pub data Iteration {Server : Type 0}
    (scan : String → String → ℕ → Server → Option (String × List String)) (pattern : String) (n : ℕ)
    (s : Server) : String → List String → Type 0 where
  last :
      (cursor next : String) (ks : List String)
      → scan cursor pattern n s ≡ some (next, ks)
      → (next == "0") ≡ true
      → Iteration scan pattern n s cursor ks
  page :
      (cursor next : String) (ks rest : List String)
      → scan cursor pattern n s ≡ some (next, ks)
      → (next == "0") ≡ false
      → Iteration scan pattern n s next rest
      → Iteration scan pattern n s cursor (ks ++ rest)

pub record RedisClient : Type 1 where
  pub Server : Type 0
  pub set : ℕ → String → String → ℕ → Server → Option Server
  pub get : ℕ → String → Server → Option (Option String)
  pub del : String → Server → Option Server
  pub exists : ℕ → String → Server → Option ℕ
  pub ping : Server → Option String
  -- `SCAN cursor MATCH pattern COUNT n`: the next cursor, and some of the keys that match.
  pub scan : String → String → ℕ → Server → Option (String × List String)
  -- The keys that match a pattern, as `KEYS` answers them.
  pub matching : String → Server → List String
  -- `SCAN` returns no key but those, and a full iteration from the cursor 0 returns each of them, some
  -- perhaps more than once.
  pub scan_matches :
      (cursor cursor' pattern : String) (n : ℕ) (ks : List String) (s : Server)
      → scan cursor pattern n s ≡ some (cursor', ks)
      → All (λ k. Memᴰ k (matching pattern s)) ks
  pub scan_complete :
      (pattern : String) (n : ℕ) (ks : List String) (s : Server)
      → Iteration scan pattern n s "0" ks
      → All (λ k. Memᴰ k ks) (matching pattern s)
  -- How many calls an iteration that has come to a cursor still makes at most: an iteration of a
  -- server that does not change ends.
  pub remaining : String → Server → ℕ
  pub scan_ends :
      (cursor cursor' pattern : String) (n : ℕ) (ks : List String) (s : Server)
      → scan cursor pattern n s ≡ some (cursor', ks)
      → (cursor' == "0") ≡ false
      → remaining cursor' s < remaining cursor s
  -- A key exists from its `SET … EX ttl` until `ttl` seconds later.
  pub exists-set_live :
      (now later ttl : ℕ) (k v : String) (s s' : Server) (n : ℕ)
      → set now k v ttl s ≡ some s'
      → now ≤ later
      → later < now + 1000 * ttl
      → exists later k s' ≡ some n
      → n ≡ 1
  -- The other keys are as before.
  pub exists-set_other :
      (now later ttl : ℕ) (k j v : String) (s s' : Server)
      → set now k v ttl s ≡ some s'
      → (k == j) ≡ false
      → exists later j s' ≡ exists later j s
  pub get-set_live :
      (now later ttl : ℕ) (k v : String) (s s' : Server) (found : Option String)
      → set now k v ttl s ≡ some s'
      → now ≤ later
      → later < now + 1000 * ttl
      → get later k s' ≡ some found
      → found ≡ some v
  pub get-del :
      (now : ℕ) (k : String) (s s' : Server) (found : Option String)
      → del k s ≡ some s'
      → get now k s' ≡ some found
      → found ≡ none
  pub exists-del :
      (now : ℕ) (k : String) (s s' : Server) (n : ℕ)
      → del k s ≡ some s'
      → exists now k s' ≡ some n
      → n ≡ 0
