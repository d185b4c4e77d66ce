-- ===== src/Redis/Scanning.antt =====
-- `countKeys` of src/modules/redis/redis.service.ts: its loop ends, and what it counts.
use mediavault_backend.Prelude.{List}
use mediavault_backend.Platform.RedisClient.{RedisClient}
