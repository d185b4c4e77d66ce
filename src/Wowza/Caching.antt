-- ===== src/Wowza/Caching.antt =====
-- What src/modules/redis/redis.service.ts keeps of Wowza's answers for
-- src/modules/wowza/wowza.service.ts, and the sums of the connections.
use mediavault_backend.Prelude.{
  ℕ, ◌+◌, ◌*◌, ◌≤◌, ◌<◌, String, Option, none, some, List, [], ◌∷◌, ◌==◌, ◌≡◌, arith, get_or,
  length, filter, Map, get, set, get-set, Result, ok, err, HttpError, Option-cases, Bool-cases, inl,
  inr, eq_iff, ap, ◌∙◌,
}
use mediavault_backend.Platform.RedisClient.{RedisClient}
use mediavault_backend.Redis.{RedisService, connected, cached, get_or_set}
use mediavault_backend.Wowza.{Connection, tally, summarise}

-- How many connections have the key.
abbrev pub count_of : (Connection → String) → String → List Connection → ℕ
count_of f k cs = length (filter (λ c. f c == k) cs)

tally-count :
    (f : Connection → String) (cs : List Connection) (m : Map ℕ) (k : String)
    → get_or (get k (tally f cs m)) 0 ≡ count_of f k cs + get_or (get k m) 0
unfolding tally
tally-count f [] m k = ground arith
tally-count f (c ∷ cs) m k = ground (
  arith,
  tally-count f cs (set (f c) (get_or (get (f c) m) 0 + 1) m) k,
  get-set (f c) k (get_or (get (f c) m) 0 + 1) m,
  eq_iff (f c) k,
  ap (λ (j : String). get j m) {x = f c} {y = k},
)

-- The sums of the connections say of each application and of each protocol how many connections it
-- has.
summarise_lem :
    (cs : List Connection) (k : String)
    → (get_or (get k (summarise cs).by_application) 0 ≡ count_of (λ c. c.application_name) k cs)
      × (get_or (get k (summarise cs).by_protocol) 0 ≡ count_of (λ c. c.protocol) k cs)
unfolding summarise
summarise_lem cs k = (
  tally-count (λ c. c.application_name) cs [] k ∙ (unfold get in ground arith),
  tally-count (λ c. c.protocol) cs [] k ∙ (unfold get in ground arith),
)

module _ (c : RedisClient) {A : Type 0} (write : A → String) (parse : String → Option A) where
  -- The service is connected, has nothing under the key, takes the value and answers for it later on.
  pub record Caches (now later ttl : ℕ) (k : String) (a : A) (r : RedisService c) : Type 0 where
    pub server : c.Server
    pub server' : c.Server
    pub answer : Option String
    pub connects : connected c r ≡ some server
    pub misses : cached c now k parse server ≡ none
    pub takes : c.set now k (write a) ttl server ≡ some server'
    pub answers : c.get later k server' ≡ some answer

  -- A value that was fetched because its key had none is answered again, if Redis takes it and
  -- answers and the value is read back as it was written, for as long as the key lives, whatever
  -- the function would answer by then, an exception included; that call leaves the state alone.
  get_or_set_again :
      (now later ttl : ℕ) (k : String) (a : A) (fresh : Result A) (r : RedisService c)
      → Caches now later ttl k a r
      → parse (write a) ≡ some a
      → now ≤ later
      → later < now + 1000 * ttl
      → let (r', first) = get_or_set c now k ttl write parse (ok a) r in
        (first ≡ ok a) × (get_or_set c later k ttl write parse fresh r' ≡ (r', ok a))
  unfolding get_or_set
  get_or_set_again now later ttl k a fresh r h reads from until =
      let kept =
        c.get-set_live now later ttl k (write a) h.server h.server' h.answer h.takes from until
          h.answers in
      elim (Bool-cases r.available) [
        | inl on ↦ (
          ground (arith, h.connects, h.misses),
          ground (arith, h.connects, h.misses, h.takes, h.answers, kept),
        )
        | inr off ↦ absurd (ground (arith, h.connects))
      ]

  -- An exception of the function is not kept: the next call asks again.
  get_or_set-err :
      (now later ttl : ℕ) (k : String) (e : HttpError) (fresh : Result A) (r r' : RedisService c)
      → get_or_set c now k ttl write parse (err e) r ≡ (r', err e)
      → r' ≡ r
  unfolding get_or_set
  get_or_set-err now later ttl k e fresh r r' h = elim (Option-cases (connected c r)) [
    | inl off ↦ ground arith
    | inr (s, on) ↦ elim (Option-cases (cached c now k parse s)) [
      | inl miss ↦ ground arith
      | inr (a, hit) ↦ ground arith
    ]
  ]
