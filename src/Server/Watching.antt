-- ===== src/Server/Watching.antt =====
-- `Watch` of internal/server/connection.go: the statuses reach the client's stream in order.
use wfm.Prelude.{List, [], ◌∷◌, ◌++◌, map, ◌≡◌, refl, ap, Text, text_eq, subst, sym, arith, ◌≢◌}
use wfm.Wnet.Types.{Status}
use wfm.Wnet.Backend.{ok, Backend}
use wfm.Server.Messages.{ConnectionStatus}
use wfm.Server.Convert.{Code, Reply, reply, status, UuidLib, uuid_from_bytes, pb_status}
use wfm.Server.Interfaces.{Rpc}
use wfm.Server.Connections.{send_all, connection_watch}

module _ {W : Type 0} (send : ConnectionStatus → Rpc W (Unit {0})) where
  -- The stream accepts the statuses one after the other.
  pub data Sent : List ConnectionStatus → W → W → Type 0 where
    done : {w : W} → Sent [] w w
    next :
        {s : ConnectionStatus} {rest : List ConnectionStatus} {w w1 w2 : W}
        → send s w ≡ (reply tt, w1)
        → Sent rest w1 w2
        → Sent (s ∷ rest) w w2

  -- The stream accepts some of the statuses and fails at the next one.
  pub record Broken (all : List ConnectionStatus) (w w2 : W) (code : Code) : Type 0 where
    pub before : List ConnectionStatus
    pub last : ConnectionStatus
    pub rest : List ConnectionStatus
    pub world : W
    pub all_eq : all ≡ before ++ last ∷ rest
    pub sent : Sent before w world
    pub fails : send last world ≡ (status code, w2)

  -- All statuses were sent and the call ends well, or the call ends with the status of the first
  -- send that failed, with nothing sent after it.
  pub data Delivered (all : List ConnectionStatus) (w : W) : Reply (Unit {0}) × W → Type 0 where
    whole : {w2 : W} → Sent all w w2 → Delivered all w (reply tt, w2)
    broken : {w2 : W} {code : Code} → Broken all w w2 code → Delivered all w (status code, w2)

  Delivered-cons :
      {s : ConnectionStatus} {rest : List ConnectionStatus} {w w1 : W} {r : Reply (Unit {0}) × W}
      → send s w ≡ (reply tt, w1)
      → Delivered rest w1 r
      → Delivered (s ∷ rest) w r
  Delivered-cons e (whole sent) = whole (next e sent)
  Delivered-cons {s} e (broken c) = broken (record {
    before = s ∷ c.before;
    last = c.last;
    rest = c.rest;
    world = c.world;
    all_eq = ap (◌∷◌ s) c.all_eq;
    sent = next e c.sent;
    fails = c.fails;
  })

  module _ (u : UuidLib) (b : Backend W) where
    send_all-Delivered :
        (statuses : List Status) (w : W)
        → Delivered (map pb_status statuses) w (send_all u b send statuses w)
    unfolding send_all
    send_all-Delivered [] w = whole done
    send_all-Delivered (st ∷ rest) w = go (send (pb_status st) w) refl (send_all-Delivered rest)
      where
        go :
            (r : Reply (Unit {0}) × W)
            → send (pb_status st) w ≡ r
            → ((w1 : W) → Delivered (map pb_status rest) w1 (send_all u b send rest w1))
            → Delivered (pb_status st ∷ map pb_status rest) w (elim r.0 [
              | reply end ↦ send_all u b send rest r.1
              | status code ↦ (status code, r.1)
            ])
        go (reply x, w1) e h = Delivered-cons e (h w1)
        go (status code, w1) e h = broken (record {
          before = [];
          last = pb_status st;
          rest = map pb_status rest;
          world = w;
          all_eq = refl;
          sent = done;
          fails = e;
        })

    started :
        (ref : Text) (statuses : List Status) (w w1 : W)
        → uuid_from_bytes u ref ≢ []
        → b.watch (uuid_from_bytes u ref) w ≡ (ok statuses, w1)
        → connection_watch u b send ref w ≡ send_all u b send statuses w1
    unfolding connection_watch
    started ref statuses w w1 n e = ground arith

    -- A watch on a connection that the backend knows sends its statuses to the client in order, up
    -- to the end or to the first send that fails, whose status it returns.
    pub connection_watch-Delivered :
        (ref : Text) (statuses : List Status) (w w1 : W)
        → uuid_from_bytes u ref ≢ []
        → b.watch (uuid_from_bytes u ref) w ≡ (ok statuses, w1)
        → Delivered (map pb_status statuses) w1 (connection_watch u b send ref w)
    connection_watch-Delivered ref statuses w w1 n e =
        subst (Delivered (map pb_status statuses) w1) (sym (started ref statuses w w1 n e))
          (send_all-Delivered statuses w1)
