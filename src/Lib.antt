-- ===== src/Lib.antt =====
-- The message server sdim, a Go program of several services, and what is proved of its core.
--
-- A client keeps a TCP connection to the engine server (micros/enginesrv) and sends frames; the
-- engine server tracks the connections of each user and calls the topic server (micros/topicsrv),
-- which keeps conversations and groups in memory, numbers each message in a store, and puts it on a
-- queue; what comes back from the queue updates unread counts.
--
-- Base: shared names, lists over native numbers, Go maps as association lists (Base.Maps), and the
--   slice helpers of an outside package (Base.Slices).
-- Codec: micros/enginesrv/internal/codec/fcodec. `encode` is Encode and `decode` is Decode, in the
--   parts decode_header, decode_sized and decode_payload_buf; the gnet connection is the record
--   GnetConn, with its documented behaviour in Behaves. The checksum of hash/crc32 is computed.
-- Engine: micros/enginesrv/internal/drive. `on_traffic` is OnTraffic: `read_frames` is its loop, at
--   most batch_read rounds as in the source, and `hand_on` what follows; the frame handler is an
--   argument.
-- Conn: micros/enginesrv/internal/core/connmgr. The state is ConnManager, each method is a function
--   on it (Conn.Ops; the parts that work on one user's wrap are in Conn.Wraps), and `step` is one
--   call of a method. The concurrent maps are the parameter MapOf.
-- Group: micros/topicsrv/internal/core/grpmgr, and canSendMsgInGroup of the conversation manager.
-- Topic: micros/topicsrv/internal/core/convmgr. The state is ConvManager; World adds the store, the
--   groups and the queue. Topic.Incoming has OnMsgComing (its parts without effects are in
--   Topic.Merge), Topic.Deliver the answers of the queue and OnMsgStored, Topic.Groups the group
--   conversations, Topic.Listing the two lists, and Topic.Load how a conversation comes into
--   memory. The store, the other servers and the queue are parameters in Services.
--   Topic.Requests has the RPC, HTTP and queue handlers around the conversation manager.
-- Handler: micros/enginesrv/internal/core/frhandler. `handle` is Handle, up to the task that it gives
--   to the pool, and `run_task` is that task; the gnet connection, JSON and the remote calls are the
--   record Calls. A panic ends its task.
-- Push: micros/enginesrv/internal/core/mqhandler. Each handler is a function that writes to the
--   connections of GetUsersConns; Push.Bodies has the payloads and the bodies of frames.
-- Stored: micros/msgsrv/internal/handlers/hmq/msgreceive. `handle_message` is HandleMessage, with
--   the replies that the queue gets.
-- Roster: micros/topicsrv/internal/handlers/hhttp/group_handler.go and
--   micros/topicsrv/internal/repostories/grouprepo. Roster.Tables reads the SQL of the repository as
--   functions on the rows of t_group_item. Roster.Requests has the requests that add and remove
--   members, on the rows and on the groups in memory, Roster.Founding the start of a group chat,
--   and Roster.Settings the names and notes.
-- The other children of a module are proofs, and Examples has concrete runs.
--
-- Numbers that count, identify or tell the time are natural numbers without a bound; the words of a
-- frame keep their width. The one loop on fuel, `pop_while_full`, has the length of its queue as
-- fuel, and a round shortens the queue. time.Now() is an argument. A Go map is walked in list
-- order, where Go leaves the order open. A locked section is one step.
--
-- A payload of the queue has its message and its content, which the source keeps behind pointers:
-- ReceivePd2forwardPd sets the one, and the frame handler reads the other before it asks the topic
-- server, so a Send frame without a content goes no further, and what the topic server sends on its own
-- has one. A payload without them, which none of
-- the services makes, is not modelled.
--
-- Not modelled: the data of a group for its page, the user server, the SQL and Redis behind the
-- other repositories, routing, logging, JSON and start-up.
pub mod Base
pub mod Codec
pub mod Conn
pub mod Group
pub mod Topic
pub mod Engine
pub mod Push
pub mod Handler
pub mod Stored
pub mod Roster
