-- ===== src/Platform/SocketRooms.antt =====
-- The rooms of `socket.io`, by the ids of the sockets.
use mediavault_backend.Prelude.{String, Bool, true, false, ◌&&◌, ◌≡◌, ◌==◌, if◌then◌else◌}

pub record SocketRooms : Type 1 where
  pub Rooms : Type 0
  pub is_in : String → String → Rooms → Bool
  pub join : String → String → Rooms → Rooms
  pub leave : String → String → Rooms → Rooms
  -- A socket that disconnects leaves all of its rooms.
  pub drop : String → Rooms → Rooms
  pub is_in-join :
      (k r i q : String) (s : Rooms)
      → is_in k r (join i q s) ≡ (if i == k && q == r then true else is_in k r s)
  pub is_in-leave :
      (k r i q : String) (s : Rooms)
      → is_in k r (leave i q s) ≡ (if i == k && q == r then false else is_in k r s)
  pub is_in-drop :
      (k r i : String) (s : Rooms) → is_in k r (drop i s) ≡ (if i == k then false else is_in k r s)
