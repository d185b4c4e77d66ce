-- ===== src/Platform.antt =====
-- What the backend uses and does not implement, as interfaces: the database, the Redis client,
-- hashing and tokens, Node's files and encodings, and the rooms of the sockets.
pub mod Queries
pub mod Repository
pub mod RedisClient
pub mod Tokens
pub mod Runtime
pub mod SocketRooms
