-- ===== src/Lib.antt =====
-- A model of the Open IM server, with the theorems that make its parts correct.
--
-- The program is a set of services. Clients hold websocket connections to a gateway, which checks
-- their tokens, keeps a map of the users that are online and kicks connections that a login
-- replaces. The message service checks a message, prepares its options and hands it to a queue;
-- the transfer process numbers it and stores it in the cache and in documents of MongoDB; users read
-- messages by ranges of numbers, mark them as read and revoke them. Names of conversations tie
-- these parts together. The group service keeps groups, their members with roles, and the requests
-- to join.
--
-- The files and the code that they model:
--   Auth/Access       pkg/authverify/token.go: who is an admin, who may act for whom.
--   Auth/Token        CreateToken of pkg/common/db/controller/auth.go, and parseToken, UserToken and
--                     GetUserToken of internal/rpc/auth/auth.go.
--   Gateway/UserMap   internal/msggateway/user_map.go: the map of the connections.
--   Gateway/Server    internal/msggateway/n_ws_server.go, with close and KickOnlineMessage of
--                     client.go and KickUserOffline and MultiTerminalLoginCheck of hub_server.go.
--                     `Step` is one turn of the loop in Run, a connection that comes or goes, or a
--                     login check; `Reach` is any sequence of them. KickUserOffline is a function but
--                     no step: it writes to the map outside of the loop, load and store apart.
--   Gateway/Args      ParseWSArgs of n_ws_server.go.
--   Processor         pkg/msgprocessor: Conversation is conversation.go, Options is options.go, and
--                     Strings has sort.Strings, strings.Join, strings.Split and strings.HasPrefix.
--   Message/Verify    messageVerification of internal/rpc/msg/verify.go.
--   Message/Prepare   the rest of verify.go, and isMessageHasReadEnabled of utils.go.
--   Message/Send      internal/rpc/msg/send.go.
--   Message/Revoke    internal/rpc/msg/revoke.go, with GetGroupMemberInfoMap of pkg/rpccache/group.go.
--   Message/AsRead    internal/rpc/msg/as_read.go, with conversationAndGetRecvID of server.go.
--   Group/Driver      the collections of MongoDB behind mgoutil, a parameter with its documented laws;
--                     Memory is one that meets them.
--   Group/Model, Rows, Db
--                     the rows of pkg/common/db/table/relation, the queries of pkg/common/db/mgo, the
--                     reads of pkg/common/db/cache/group.go, the writes of controller/group.go.
--   Group/People      users, populated members and the check for an admin.
--   Group/Create, Join, Invite, Answer, Leave, Rule, Edit, Info
--                     the handlers of internal/rpc/group/group.go that change the tables; Calls is
--                     any sequence of them.
--   Store/Docs        pkg/common/db/table/unrelation/msg.go: documents of 100 messages.
--   Store/Range       GetMsgBySeqsRange and GetMsgBySeqs of pkg/common/db/controller/msg.go.
--   Store/Insert      BatchInsertChat2Cache of the same file.
--   Base              strings, maps, integers, results, and the lemmas that the parts share.
-- Files named Laws, or after what they prove, hold the theorems; Tests holds concrete runs.
--
-- Conventions. A Go string is a list of bytes, a Go map an association list, and a loop over a map
-- follows the list's order. A result and an error are one value of `Result`; errors are told apart as
-- far as the code does. Counters and sequence numbers are integers without a bound: they count
-- events and messages, and stay far below the limit of 64 bits; the sums with a count that a client
-- sends are those of int64. What a handler reads from another
-- service, a cache or a database is a field of a record of answers; what it changes is a list of
-- effects in the order of the calls. A nil pointer that is read is the error `err_nil_pointer`.
-- Channels are queues without a bound. The handlers of groups run on the tables themselves: an
-- `Outcome` is the tables that a call leaves, its other calls in order, and its error. A
-- transaction that fails leaves the tables as they were, and a cached read gives what the
-- collection holds.
--
-- Fuel. Only the search for replacements in GetMsgBySeqsRange takes fuel, since the code's loop need
-- not end: it counts the replacements that it finds, at most one for each deleted message, but stays
-- where it is at a candidate that is deleted itself. `none` stands for a search that has not ended.
--
-- Not modelled: logs, metrics, frames on the wire, HTTP routes, callbacks beyond their answer,
-- the queries of MongoDB and Redis but for groups, start-up and configuration; the calls of groups
-- that only read; friends, users, push and the transfer process.
pub mod Base
pub mod Auth
pub mod Gateway
pub mod Group
pub mod Processor
pub mod Message
pub mod Store
