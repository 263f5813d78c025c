-- ===== src/SessionMap.antt =====
-- `_sessions`, the map that the three servers with an acceptor have: AsyncServer/Server.cpp,
-- CoroutineService/CServer.cpp and AsyncServer_useProtobuf/Server.cpp. A uuid is a number.
pub mod Laws
use boost_learn.Base.{ℕ, List, [], ◌∷◌, Option, none, some, ◌==◌, if◌then◌else◌}

module _ {ℓ} {Session : Type ℓ} where
  unfoldable pub find_session : List (ℕ × Session) → ℕ → Option Session
  find_session [] uuid = none
  find_session ((k, s) ∷ rest) uuid =
      let later = find_session rest uuid in if k == uuid then some s else later

  -- _sessions.insert(std::make_pair(uuid, session)), which keeps what is there under the uuid
  unfoldable pub insert_session : List (ℕ × Session) → ℕ → Session → List (ℕ × Session)
  unfolding find_session
  insert_session ss uuid s = elim (find_session ss uuid) [ none ↦ (uuid, s) ∷ ss | some t ↦ ss ]

  -- _sessions.erase(uuid)
  unfoldable pub erase_session : List (ℕ × Session) → ℕ → List (ℕ × Session)
  erase_session [] uuid = []
  erase_session ((k, s) ∷ rest) uuid =
      let kept = erase_session rest uuid in if k == uuid then kept else (k, s) ∷ kept
