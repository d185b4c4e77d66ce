-- ===== src/Redis.antt =====
-- src/modules/redis/redis.service.ts: every command is skipped without a connection, and a command
-- that fails is as if it had not been sent.
pub mod Laws
pub mod Scanning
use mediavault_backend.Prelude.{
  ℕ, zero, suc, ◌+◌, length, String, Bool, true, false, Option, none, some, ◌==◌, if◌then◌else◌,
  eqb, Result, ok, err, Action,
}
use mediavault_backend.Platform.RedisClient.{RedisClient}

module _ (c : RedisClient) where
  pub record RedisService : Type 0 where
    pub client : Option c.Server
    pub available : Bool

  -- `this.available && this.client`.
  abbrev pub connected : RedisService → Option c.Server
  connected r = if r.available then r.client else none

  -- `onModuleInit`, given the connected client if `connect` and `ping` succeed.
  unfoldable pub on_module_init : Option c.Server → RedisService
  on_module_init none = record { client = none; available = false }
  on_module_init (some s) = record { client = some s; available = true }

  -- The handler of the client's `error` event.
  unfoldable pub on_error : RedisService → RedisService
  on_error r = record r { available = false }

  -- The client with what a command left, and the client as it was if the command failed.
  abbrev pub keep_client : RedisService → Option c.Server → RedisService
  keep_client r none = r
  keep_client r (some s) = record r { client = some s }

  unfoldable pub set : ℕ → String → String → ℕ → RedisService → RedisService
  set now k v ttl r = elim (connected r) [ none ↦ r | some s ↦ keep_client r (c.set now k v ttl s) ]

  abbrev pub or_null : Option (Option String) → Option String
  or_null none = none
  or_null (some v) = v

  unfoldable pub get : ℕ → String → RedisService → Option String
  get now k r = elim (connected r) [ none ↦ none | some s ↦ or_null (c.get now k s) ]

  unfoldable pub del : String → RedisService → RedisService
  del k r = elim (connected r) [ none ↦ r | some s ↦ keep_client r (c.del k s) ]

  abbrev pub is_one : Option ℕ → Bool
  is_one none = false
  is_one (some n) = eqb n 1

  unfoldable pub exists : ℕ → String → RedisService → Bool
  exists now k r = elim (connected r) [ none ↦ false | some s ↦ is_one (c.exists now k s) ]

  -- The text of a key, parsed, if the commands succeed.
  abbrev pub cached {ℓ} : {A : Type ℓ} → ℕ → String → (String → Option A) → c.Server → Option A
  cached now k parse s = elim (or_null (c.get now k s)) [ none ↦ none | some v ↦ parse v ]

  -- `getOrSet`, given how a value is written as JSON and read back, and what `fn` answers if it is
  -- called.
  unfoldable pub get_or_set {ℓ} :
      {A : Type ℓ}
      → ℕ
      → String
      → ℕ
      → (A → String)
      → (String → Option A)
      → Result A
      → Action RedisService A
  get_or_set now k ttl write parse answer r = elim (connected r) [
    | none ↦ (r, answer)
    | some s ↦ elim (cached now k parse s) [
      | some a ↦ (r, ok a)
      | none ↦ elim answer [
        | err e ↦ (r, err e)
        | ok a ↦ (keep_client r (c.set now k (write a) ttl s), ok a)
      ]
    ]
  ]

  abbrev pub is_pong : Option String → Bool
  is_pong none = false
  is_pong (some s) = s == "PONG"

  -- What the loop of `countKeys` comes to: the fuel ends, a command fails, or the number of keys.
  pub data Scan : Type 0 where
    out_of_fuel rejected : Scan
    counted : ℕ → Scan

  -- The loop of `countKeys`, at a cursor and a count.
  unfoldable pub scan_loop : ℕ → String → String → ℕ → c.Server → Scan
  scan_loop zero pattern cursor count s = out_of_fuel
  scan_loop (suc fuel) pattern cursor count s = elim (c.scan cursor pattern 100 s) [
    | none ↦ rejected
    | some (next, ks) ↦ elim (next == "0") [
      | true ↦ counted (count + length ks)
      | false ↦ scan_loop fuel pattern next (count + length ks) s
    ]
  ]

  -- `none` when the fuel ends.
  abbrev pub scan_answer : Scan → Option ℕ
  scan_answer out_of_fuel = none
  scan_answer rejected = some 0
  scan_answer (counted n) = some n

  unfoldable pub count_keys : ℕ → String → RedisService → Option ℕ
  count_keys fuel pattern r = elim (connected r) [
    | none ↦ some 0
    | some s ↦ scan_answer (scan_loop fuel pattern "0" 0 s)
  ]

  unfoldable pub ping : RedisService → Bool
  ping r = elim (connected r) [ none ↦ false | some s ↦ is_pong (c.ping s) ]
