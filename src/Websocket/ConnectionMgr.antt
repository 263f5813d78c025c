-- ===== src/Websocket/ConnectionMgr.antt =====
-- beast_websocket/ConnectionMgr.h and ConnectionMgr.cpp. A connection is named by its uuid, and the
-- map is the list of the uuids in it.
use boost_learn.Base.{ℕ, List, [], ◌∷◌, ◌==◌, if◌then◌else◌}

-- ConnectionMgr::RmConnection
unfoldable pub rm_connection : List ℕ → ℕ → List ℕ
rm_connection [] uuid = []
rm_connection (k ∷ rest) uuid =
    let kept = rm_connection rest uuid in if k == uuid then kept else k ∷ kept

-- ConnectionMgr::AddConnection, which replaces what is there under the uuid
unfoldable pub add_connection : List ℕ → ℕ → List ℕ
unfolding rm_connection
add_connection map uuid = uuid ∷ rm_connection map uuid
