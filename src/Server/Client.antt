-- ===== src/Server/Client.antt =====
-- `closeClient` and `closeAndFreeClient` of src/server_threaded.c.
use jia_tuan_server.Common.{ℕ, Option, none, some, ◌==◌, ◌>>=◌, if◌then◌else◌}
use jia_tuan_server.WorkQueue.Links.{Ptr, null}
use jia_tuan_server.Server.World.{Resource, socket, client, buffer, base, bufev, World, release}

-- A `client_t` at the address `self`. The descriptor is `none` where the source has -1.
pub record Client : Type 0 where
  pub self : Ptr
  pub fd : Option ℕ
  pub evbase : Ptr
  pub buf_ev : Ptr
  pub output_buffer : Ptr

-- `closeClient`: `none` as the result is the fault of a double close.
unfoldable pub close_client : Client → World → Option (Client × World)
close_client c w = if c.self == null then some (c, w) else elim c.fd [
  | none ↦ some (c, w)
  | some n ↦ do w' ← release (socket n) w; some (record c { fd = none }, w')
]

-- The release of a member of the client, unless it is NULL.
abbrev pub release_member : (Ptr → Resource) → Ptr → World → Option World
release_member kind p w = if p == null then some w else release (kind p) w

-- `closeAndFreeClient`.
unfoldable pub close_and_free_client : Client → World → Option World
close_and_free_client c w = if c.self == null then some w else do
  (c', w1) ← close_client c w
  w2 ← release_member bufev c'.buf_ev w1
  w3 ← release_member base c'.evbase w2
  w4 ← release_member buffer c'.output_buffer w3
  release (client c.self) w4
