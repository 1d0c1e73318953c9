-- ===== src/Lib.antt =====
-- A verification library for wacli, a WhatsApp command line with a local store. It models the parts
-- of the program that decide: queues, guards, records of state, and the making safe of text.
--
-- Common holds numbers, lists, text and results. A Go string is a list of code points, or a list of
-- bytes where the code works on bytes; times are natural numbers, in seconds or nanoseconds.
--
-- AppState/Sequencer is internal/app/app_state.go: the ordered queue of persistence tasks. Each section
-- under the mutex is one function; System makes them a step relation over callers and drainers, and
-- Waiters adds the calls that block until their channel is closed.
-- AppState/Intents is internal/store/app_state.go, the rows that say a collection must be recovered.
-- Recovery is internal/app/chat_state.go and internal/app/sync_recovery.go over those rows: Steps
-- the fetch, the full replay and the primary's snapshot; Write the synchronisation before a write;
-- LocalWrite and Gated the commands; Ladder, Admission and Startup the automatic repairs; Capture
-- the primary's answer and its late continuation; State and Tracker the flags and errors they share.
-- The end of a repair is two steps, the removal of its claim and the recording of its outcome, and
-- another goroutine may move between them. The events that a write fetches or is sent back are stored
-- in the chats table too, so LocalWrite carries that table along.
-- What the client library, the persistence queue and the other goroutines do in a step is that
-- step's answer.
-- Chats is internal/store/chats.go and internal/store/unread.go, with Lid for the rows that are deleted
-- or merged (also internal/store/lid_migration.go and internal/store/read_receipts.go), the mute times
-- and the events of internal/app/chat_state.go and internal/app/unread.go; Polls is internal/store/polls.go.
-- Accounts is internal/config/config.go.
-- Sends/Pending is internal/store/pending_sends.go, Sends/Guard is cmd/wacli/delegate_idempotent.go with
-- its place in executeDelegatedSend of cmd/wacli/send_ipc.go: the guard reads the rows and the stored
-- messages before a send, and the outcome of the send decides the row. Sends/Pacer is
-- cmd/wacli/send_spacing.go and the send slot of cmd/wacli/send_ipc.go.
-- Session is internal/app/session_state.go, Follow is internal/app/sync_idle.go: the first remembers a
-- revoked login, the second ends a running sync for it.
-- Receipts is internal/store/message_receipts.go.
-- Sanitize/Path is internal/pathutil/sanitize.go and Sanitize/Human is internal/out/sanitize.go.
-- Resolve is internal/resolve/resolve.go.
-- StorageLimits is internal/app/sync_limits.go with checkSyncStorageLimits of internal/app/sync.go.
--
-- Bounds and fuel: draining the queue takes at most three moves for each ticket not yet served, which
-- fuel_for counts; the full replay goes round at most 1201 times, since each turn waits a quarter of a
-- second at least and all end within five minutes; the loops over text take the length of the text as
-- fuel, since each turn takes a byte; the remaining loops are recursion on the list they run over.
--
-- Parameters stand for code that is not part of the repository: the digest of a message's content, the
-- parser of durations, the random source, the mapping to lower case and the equality up to case. A
-- statement of the database is its effect on the rows, and driver errors are left out unless a file
-- says otherwise.
--
-- Not modelled: the command line and its output, the client of the WhatsApp network and the parsing of
-- its messages, the generated queries and migrations, and the tables of messages, contacts, media and
-- calls, which are mostly SQL or calls of third-party code.
pub mod Common
pub mod AppState
pub mod Recovery
pub mod Chats
pub mod Polls
pub mod Accounts
pub mod Sends
pub mod Session
pub mod Receipts
pub mod Sanitize
pub mod Follow
pub mod Resolve
pub mod StorageLimits
