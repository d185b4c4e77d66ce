-- ===== src/Redis/Laws.antt =====
-- What src/modules/redis/redis.service.ts keeps of the client's behaviour, and what it answers
-- without one.
use mediavault_backend.Prelude.{
  ℕ, ◌+◌, ◌*◌, ◌≤◌, ◌<◌, String, true, false, none, some, ◌≡◌, ◌==◌, arith, Option-cases, inl, inr,
}
use mediavault_backend.Platform.RedisClient.{RedisClient}
use mediavault_backend.Redis.{RedisService, connected, set, get, exists, del, ping}

module _ (c : RedisClient) where
  -- The service is connected, the server takes `SET k v EX ttl`, and answers `EXISTS k` later on.
  pub record Serves (now later : ℕ) (k v : String) (ttl : ℕ) (r : RedisService c) : Type 0 where
    pub server : c.Server
    pub server' : c.Server
    pub answer : ℕ
    pub connects : connected c r ≡ some server
    pub takes : c.set now k v ttl server ≡ some server'
    pub answers : c.exists later k server' ≡ some answer

  -- A key set with a lifetime exists until the lifetime is over.
  pub exists-set :
      (now later ttl : ℕ) (k v : String) (r : RedisService c)
      → Serves now later k v ttl r
      → now ≤ later
      → later < now + 1000 * ttl
      → exists c later k (set c now k v ttl r) ≡ true
  unfolding exists set
  exists-set now later ttl k v r s h h' = ground (
    arith,
    s.connects,
    s.takes,
    s.answers,
    c.exists-set_live now later ttl k v s.server s.server' s.answer s.takes h h' s.answers,
  )

  -- Another key exists as before, whether or not the command was sent and taken.
  pub exists-set_ne :
      (now later ttl : ℕ) (k j v : String) (r : RedisService c)
      → (k == j) ≡ false
      → exists c later j (set c now k v ttl r) ≡ exists c later j r
  unfolding exists set
  exists-set_ne now later ttl k j v r ne = elim (Option-cases (connected c r)) [
    | inl e ↦ ground arith
    | inr (s, e) ↦ elim (Option-cases (c.set now k v ttl s)) [
      | inl f ↦ ground arith
      | inr (s', f) ↦ ground (arith, c.exists-set_other now later ttl k j v s s' f ne)
    ]
  ]

  -- Without a connection nothing is written, nothing is found, and no key exists.
  disconnected_lem :
      (now ttl : ℕ) (k v : String) (r : RedisService c)
      → connected c r ≡ none
      → (set c now k v ttl r ≡ r)
        × (get c now k r ≡ none)
        × (exists c now k r ≡ false)
        × (del c k r ≡ r)
        × (ping c r ≡ false)
  unfolding exists set get del ping
  disconnected_lem now ttl k v r e = ground arith
