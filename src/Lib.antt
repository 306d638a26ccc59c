-- ===== src/Lib.antt =====
-- Verification library of sagiri-guard: an agent that guards a device, and the backend that it
-- reports to over a protocol of frames.
--
-- The parts and how they interact. The backend (backend/app) keeps a hub of connected devices, a
-- queue of commands for each device, the sessions and versions of backups, and a tree of files. A device logs in by a
-- frame; the protocol controller (backend/app/controllers) keeps its token, registers its connection
-- in the hub and sends the commands that wait in the queue. The agent (agent/internal) runs the
-- commands; `block_website` writes the domains it is given into the hosts file. Uploads go by frames:
-- a sub-command opens a session, chunks are written into a temporary file at their offsets, and the
-- end of the file renames it and stores a version. On the device a monitor watches directories: it
-- stores each event in a table of watched files and puts it on a channel, from which the service
-- schedules backups; every ten seconds the rows of the table that are due go to the backend, which
-- applies them to its tree of files.
--
-- The files:
--   Base, and its children: Boolean tests, lists, texts as lists of codes, maps with string keys
--     (Go maps), results, and Table and Keyed, the interfaces that stand for a table of the database
--     with a number or a string for its key.
--   Firewall: agent/internal/firewall/hosts.go. `Manager` is HostsManager with the disk it works on;
--     set_enabled, add_domain, remove_domain, set_domains, apply_blocks, remove_blocks,
--     read_hosts_file, write_hosts_file and remove_block_section are the methods of these names.
--     Categories is categories.go. Lines, Section, Names, Restore and Block hold the proofs.
--   Commands.Dispatcher: agent/internal/command/dispatcher.go and types.go, over an interface of
--     handlers; Streams holds the proofs.
--   Commands.BlockWebsite: the handler of `block_website` in agent/internal/command/handlers.go;
--     handle_once is HandleOnce.
--   Network: ProtocolMessage and convertProtocolMessage of network/types.go.
--   Backend.Hub: backend/app/socket/hub.go over network/client.go, network/server.go and the registry
--     of network/protocol_server.c; `Net` is the registry, which sockets take frames, the frames that
--     went out whole, and those that a failure cut off.
--   Backend.Queue: backend/app/repo/agent_command_repo.go, retryPendingCommands of
--     protocol_controller.go and handleAdminSendCommand of protocol_admin.go.
--   Backend.Files: the calls of package os that the backup service makes.
--   Backend.Backup: backend/app/services/backup_service.go; Sessions has the methods on one session,
--     Finalize has FinalizeUpload, Versions is backend/app/repo/backup_version_repo.go.
--   Backend.Transfer: backend/app/controllers/protocol_backup.go; Client is the loop of UploadFile in
--     agent/internal/backup/backup.go. Receive, Finish, Roundtrip and Refused hold the proofs.
--   Backend.Download: handleBackupDownloadStart of protocol_backup.go, and receive_file, the loop of
--     DownloadFile in backup.go over the frames that arrive; Received holds the proofs.
--   Backend.Protocol: HandleMessage, handleSubCommand and looksLikeJWT of protocol_router.go, and
--     HandleDisconnect and sendAckJSON of protocol_controller.go.
--   Backend.Tree: backend/app/services/filetree_service.go, backend/app/repo/filetree_repo.go and
--     backend/app/models/filetree.go; upsert_path is upsertPath. Deletion has DeleteItem,
--     DeleteItemByLogicalPath and ApplyChanges, Paths has BuildLogicalPathFromItem and the queries for
--     a file, Pages has ListItems and parseDeletedSince; Handler and Pages.Admin have handlers of
--     backend/app/controllers/protocol_device.go. Runs, Deletion.Laws, Deletion.Stays, Paths.Chains,
--     Paths.Upward and Paths.Named hold the proofs.
--   Changes: FileChange of backend/app/dto/filetree.go, and the agent's copy of it.
--   Segments: the logical paths of agent/internal/service/filetree_sync.go and of splitPath of
--     filetree_service.go; Laws holds the proofs.
--   Local: agent/internal/db/models.go, as the interface of the agent's table of watched files.
--   Monitor: agent/internal/monitor. What both monitors share stands in Monitor, with the proofs in
--     Emitted and Stored; Windows is file_monitor.go, with Targets for NewFileMonitor and Close and the
--     proofs in Renames, Buffer and Retries; Linux is file_monitor_linux.go, with the proofs in Watched.
--   Service: agent/internal/service. Backups is the scheduler and backupFile of service.go, with the
--     proofs in Single, Cooldown and Uploads; Settle is waitForStableFile, with the proofs in Ends;
--     Sync is syncFileTreeOnce of filetree_sync.go, with the proofs in Batch and Starvation.
--   Tests (in Firewall, Commands, Commands.BlockWebsite, Backend, Backend.Tree, Monitor and Service):
--     runs on small inputs.
--
-- How the code is modelled. A method under a lock is one step from a state to a state; a handler is a
-- function of the message and the state. Errors are values. The order in which Go ranges over a map
-- is a parameter `range`, of which the proofs ask that it visits exactly the map's keys. The database
-- (gorm), JSON, the JWT parser, random tokens, the clock, path functions and the success of each
-- operating-system call are parameters or parts of the state. A table's calls may fail, and then
-- change nothing. The offset of a chunk and the bytes done of a session keep their wrap-around, at
-- 2^32 and 2^64; version numbers are natural numbers.
--
-- The events of a step of the Windows monitor are a list, which emit_event takes one after another;
-- times are natural numbers of nanoseconds. The goroutines that back files up are the workers of the
-- scheduler's state, and Step says what may happen next. A run of database calls in Backend.Tree keeps
-- what was written before an error, except in a transaction. The queries of ListItems are lists of
-- conditions, whose results, arranged by the order that the query asks for, are a parameter. Go's
-- int for a page is an integer without a bound.
--
-- Fuel: the loops that send a file run on fuel, one round each; each round but the last sends at
-- least one byte, so fuel above the length of the file is enough. The loop over a buffer of notices
-- needs one unit for each notice, the wait for a stable file 31, since every round sleeps for half a
-- second and the limit is 15, and the path of an item one for each item above it and one for itself.
--
-- Not modelled: sockets, threads and byte framing in C, logging, the agent's connection manager, the
-- website rules, users and logs of the backend, the user interface, the connection and request of
-- DownloadFile, and the handlers of the
-- sub-commands besides transfers and queued commands, which are the argument `Handlers` of
-- Backend.Protocol. Of the file tree, the content types' own repository is a parameter.
pub mod Backend
pub mod Base
pub mod Changes
pub mod Commands
pub mod Firewall
pub mod Local
pub mod Monitor
pub mod Network
pub mod Segments
pub mod Service
