-- ===== src/Conn/Types.antt =====
-- The data of conn_manager.go and of core/conn_manager.go. A gnet.Conn stands for itself by a
-- number, and times are milliseconds. The pointers to one clientConn that the two maps share are
-- read and written through `connId2conn`, but for the two fields that never change, which a
-- `Handle` keeps: so no write is missed.
use sdim.Base.{ℕ, List, String, Option, Bool}

pub data ConnState : Type 0 where
  conn_state_opened conn_state_authed conn_state_closing conn_state_closed : ConnState

pub data DelayType : Type 0 where
  auth_expired ping_expired : DelayType

pub record ConnDelayItem : Type 0 where
  pub delay_type : DelayType
  pub conn_id : String
  pub expired : ℕ

-- constt.ClientLevel, uint8; 0 is the Go zero value.
abbrev pub master : ℕ
master = 1

abbrev pub slave : ℕ
slave = 2

pub record ClientConn : Type 0 where
  pub conn_id : String
  pub uid : String
  pub conn : ℕ
  pub ctype : ℕ
  pub clevel : ℕ
  pub ctime : ℕ
  pub state : ConnState
  pub authed_time : ℕ
  pub last_ping_time : Option ℕ

pub record Handle : Type 0 where
  pub conn_id : String
  pub conn : ℕ

-- `level2conn` has the keys Master and Slave from newClientConnWrap on, and no code deletes one:
-- a list for each.
pub record ClientConnWrap : Type 0 where
  pub conns : List Handle
  pub masters : List Handle
  pub slaves : List Handle

pub record ConnHandleItem : Type 0 where
  pub conn_id : String
  pub silence : Bool

pub record ConnModifyParam : Type 0 where
  pub conn_id : String
  pub uid : String
  pub ctype : ℕ

pub record Settings : Type 0 where
  pub master_types : List ℕ
  pub max_slave_conns : ℕ
  pub auth_timeout : ℕ
  pub ping_interval : ℕ
  pub ping_lost_times : ℕ

-- `U` and `I` are the types of the two maps. `offers` are the calls of the delay queue's Offer
-- and `closes` those of a connection's Close, latest first.
pub record ConnManager (U I : Type 0) : Type 0 where
  pub uid2conn : U
  pub conn_id2conn : I
  pub settings : Settings
  pub closed : Bool
  pub offers : List ConnDelayItem
  pub closes : List ℕ
