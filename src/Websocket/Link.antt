-- ===== src/Websocket/Link.antt =====
-- A connection and its peer, while no copy of a message throws. At most one read and one write are under way; the peer sends a message
-- or breaks off, and takes what is written or fails to.
use boost_learn.Base.{ℕ, List, [], ◌∷◌, ◌++◌, Bool, true, false, Option, none, some, if◌then◌else◌}
use boost_learn.Websocket.ConnectionMgr as Mgr
use boost_learn.Websocket.Connection.{
  Connection, Effect, async_read, async_write, add_connection, rm_connection, new_connection,
  handle_accept, handle_read, handle_write,
}

-- `sessions` is the map of ConnectionMgr, `written` what the peer has taken, oldest first.
pub record Link : Type 0 where
  pub connection : Connection
  pub sessions : List ℕ
  pub reading : Bool
  pub in_flight : Option (List ℕ)
  pub written : List (List ℕ)

pub data Op : Type 0 where
  receives : List ℕ → Op
  breaks_off : Op
  completes : Op
  fails : Op

unfoldable pub perform : Link → List Effect → Link
unfolding Mgr.add_connection Mgr.rm_connection
perform l [] = l
perform l (async_read ∷ es) = perform (record l { reading = true }) es
perform l (async_write msg ∷ es) = perform (record l { in_flight = some msg }) es
perform l (add_connection ∷ es) =
    perform (record l { sessions = Mgr.add_connection l.sessions l.connection.uuid }) es
perform l (rm_connection ∷ es) =
    perform (record l { sessions = Mgr.rm_connection l.sessions l.connection.uuid }) es

abbrev pub settle : Link → Connection × List Effect → Link
settle l (c, es) = perform (record l { connection = c }) es

abbrev pub settle_some : Option (Connection × List Effect) → Link → Option Link
settle_some none l = none
settle_some (some r) l = some (settle l r)

-- A new connection whose handshake has been accepted.
unfoldable pub accepted : ℕ → List ℕ → Link
unfolding new_connection handle_accept perform
accepted uuid sessions =
    let c = new_connection uuid in
    settle
      (record {
        connection = c;
        sessions = sessions;
        reading = false;
        in_flight = none;
        written = [];
      })
      (handle_accept c false)

-- A read that is armed ends; without one nothing happens.
abbrev pub end_read : Link → Bool → List ℕ → Link
end_read l ec msg =
    if l.reading then settle (record l { reading = false }) (handle_read l.connection ec msg) else l

-- A write that is under way ends; without one nothing happens.
abbrev pub end_write : Link → Bool → Option (List ℕ) → Option Link
end_write l ec none = some l
end_write l true (some msg) =
    settle_some (handle_write l.connection true false) (record l { in_flight = none })
end_write l false (some msg) =
    settle_some (handle_write l.connection false false)
      (record l { in_flight = none; written = l.written ++ msg ∷ [] })

unfoldable pub act : Link → Op → Option Link
unfolding handle_read handle_write perform
act l (receives msg) = some (end_read l false msg)
act l breaks_off = some (end_read l true [])
act l completes = end_write l false l.in_flight
act l fails = end_write l true l.in_flight

infixl 5 ◌>>=◌
abbrev pub ◌>>=◌ {ℓ κ} : {A : Type ℓ} {B : Type κ} → Option A → (A → Option B) → Option B
none >>= f = none
some a >>= f = f a

unfoldable pub run : Link → List Op → Option Link
unfolding act
run l [] = some l
run l (op ∷ ops) = do l' ← act l op; run l' ops
