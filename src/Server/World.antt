-- ===== src/Server/World.antt =====
-- The operating system's and the libraries' resources that src/server_threaded.c acquires and
-- releases: descriptors, memory blocks and the objects of libevent.
use jia_tuan_server.Common.{
  ℕ, Bool, false, Option, none, some, List, [], ◌∷◌, ◌==◌, ◌>>=◌, if◌then◌else◌,
}
use jia_tuan_server.WorkQueue.Links.{Ptr}

pub data Resource : Type 0 where
  socket : (fd : ℕ) → Resource
  client : Ptr → Resource  -- a `client_t`
  buffer : Ptr → Resource  -- a `struct evbuffer`
  base : Ptr → Resource  -- a `struct event_base`
  bufev : Ptr → Resource  -- a `struct bufferevent`
  job : Ptr → Resource  -- a `job_t`

abbrev pub same : Resource → Resource → Bool
same (socket a) (socket b) = a == b
same (client a) (client b) = a == b
same (buffer a) (buffer b) = a == b
same (base a) (base b) = a == b
same (bufev a) (bufev b) = a == b
same (job a) (job b) = a == b
same _ _ = false

-- What is live, the newest first.
abbrev pub World : Type 0
World = List Resource

-- The release of a resource; `none` is the fault of a second release, or of one never acquired.
unfoldable pub release : Resource → World → Option World
release r [] = none
release r (x ∷ w) = if same r x then some w else (release r w >>= λ w'. some (x ∷ w'))
