-- ===== src/Response/Table.antt =====
-- elyra-engine/src/elyra/response/engine.py: the table of bindings and the descriptors it holds.
use elyra.Base.{ℕ, zero, suc, String, Option, none, some, List, [], ◌∷◌, length, leb, if◌then◌else◌}
use elyra.Base.Int.{ℤ, ltb_ℤ}
use elyra.Base.Dict.{Dict, lookup, insert, erase, keys, text_key}
use elyra.Response.Engine.{BoundTarget, Engine}

-- `os.close` of a descriptor that a binding may hold
unfoldable pub close_fd : Option ℤ → Engine → Engine
close_fd none e = e
close_fd (some fd) e = record e { closed = fd ∷ e.closed }

-- `release_binding`
unfoldable pub release_binding : String → Engine → Engine
unfolding close_fd
release_binding id e = elim (lookup id e.bindings) [
  | none ↦ e
  | some b ↦ close_fd b.file_fd (record e { bindings = erase id e.bindings })
]

unfoldable pub release_all : List String → Engine → Engine
release_all [] e = e
release_all (id ∷ ids) e = release_all ids (release_binding id e)

-- `close`
unfoldable pub close : Engine → Engine
close e = release_all (keys e.bindings) e

-- `min(self._bindings, key=…)`
unfoldable pub oldest_from : String → ℤ → Dict String BoundTarget → String
oldest_from id at [] = id
oldest_from id at ((k, b) ∷ rest) =
    if ltb_ℤ b.bound_at at then oldest_from k b.bound_at rest else oldest_from id at rest

unfoldable pub drop_oldest_of : Dict String BoundTarget → Engine → Engine
drop_oldest_of [] e = e
drop_oldest_of ((k, b) ∷ rest) e = release_binding (oldest_from k b.bound_at rest) e

abbrev pub binding_limit : ℕ
binding_limit = 1024

-- `while len(self._bindings) >= 1024`; the fuel is the number of bindings.
unfoldable pub make_room : ℕ → Engine → Engine
make_room zero e = e
make_room (suc n) e =
    let smaller = make_room n (drop_oldest_of e.bindings e) in
    if leb binding_limit (length e.bindings) then smaller else e

-- The end of `bind_state`, under the lock.
unfoldable pub enter_binding : String → BoundTarget → Engine → Engine
enter_binding id b e =
    let before = release_binding id e in
    let room = make_room (length before.bindings) before in
    record room { bindings = insert id b room.bindings }
