-- ===== src/Lib.antt =====
-- braid keeps terminal sessions alive on a daemon and lets a client come back to them over a stream
-- or over datagrams. This library models the parts of it that decide what is sent, kept and dropped,
-- as functions on explicit states, and proves what they promise.
--
-- The parts, and where each stands:
--   Forward   crates/forward: the reliability of one forwarded TCP connection. `Forward.Wire` is
--             what crosses the link (lib.rs and the runs of crates/proto/src/lib.rs), `Forward.Recv`
--             is `Receiver` (recv.rs), `Forward.Send` is `Sender` (send.rs), `Forward.Timer` is
--             `Timer` (timer.rs) and `Forward.Stream` is `Stream` (lib.rs), which joins a sender and
--             a receiver. `Forward.Link` puts two streams on a link that loses, repeats and reorders.
--   Proto     crates/proto/src/lib.rs: the wire protocol of a client. `Proto.Cursor` is the cursor that
--             a body is read by and `Proto.Outcome` its errors, `Proto.Values` and `Proto.Text` are the
--             types that the messages carry, `Proto.Field` and its children are the codecs of the
--             fields, `Proto.FromClient` is `ClientMessage` with the arms that the macro `messages!`
--             makes of it, and `Proto.Frame` is `seal_frame`, `read_frame_into`, `encode_into` and
--             `decode`. `Proto.Forwarded` is the body of the three messages that both sides send.
--   Dgram     crates/dgram: the connection under a session. `Dgram.Packet` is the header and the
--             acknowledgement of a datagram (packet.rs), `Dgram.Window` is `ReplayWindow` (window.rs)
--             and `Dgram.Path` is `PathValidator` (path.rs). `Dgram.Keys` is `KeySchedule` (keys.rs)
--             with the choice of a key that `Endpoint::recv` makes (endpoint.rs). `Dgram.Mtu` is
--             `Mtu` (mtu.rs), the search for the size of a datagram; `Dgram.Rtt` and `Dgram.Loss`
--             are `Rtt` and `LossDetector` (loss.rs); `Dgram.Congestion` is `Congestion` and
--             `Dgram.Congestion.Pacer` is `Pacer` (congestion.rs). The endpoint feeds them: what
--             `Window` admits it puts into an acknowledgement, what `Loss` reports as arrived and
--             gone is what `Congestion` and `Mtu` are told, and where `Path` says it may send is
--             where a datagram goes.
--   Client    crates/client: `Client.Journal` is `CommandJournal` (journal.rs).
--   Server    crates/server: `Server.Backlog` is `BacklogRing` (backlog.rs), `Server.Gate` is the
--             test of gate.rs, `Server.Mailbox` is the two lanes of the session actor's mailbox
--             (mailbox.rs) with the producers that park on them.
--   Prelude   the names, tests, lists, bytes and words that all parts share.
--
-- An operation that changes its receiver takes the state and gives the new one, beside its result;
-- a loop is structural recursion on the list it walks. A decoder takes the bytes ahead of the cursor
-- and gives a value and the bytes behind it, and an encoder gives the bytes that it appends. The steps
-- of the mailbox are the stretches for which its lock is held, with what they notify, in any order that
-- a schedule names; the histories of the path are any sequence of arrivals, sends, polls and answers.
-- The child modules of a part hold its theorems and are named for what they prove, and each `Tests`
-- module holds concrete runs.
--
-- Numbers are exact natural numbers. The release profile checks for overflow, so that a plain sum
-- that does not fit panics in the program; what saturates there is written out as `saturating_add`,
-- and a subtraction that saturates is the subtraction of natural numbers; a shift of a word keeps its
-- `% 2 ^ 64`. Instants and durations are nanoseconds. A byte is a number, which an encoder keeps below
-- 256 and a theorem about arbitrary bytes says so where it matters. A string is its UTF-8 bytes.
--
-- Parameters stand for what the code does not say: where the storage of a queue wraps (`wrap`), what
-- an allocator reserves for a buffer (`capacity`), what the system's random bytes are (an argument of
-- the call that draws them), the hash that keys are derived by (`derive_key`), what an event of the
-- mailbox carries, and the messages of the journal, of which only the buffer of an `Input` is looked
-- at. A BTreeMap is the list of its entries in ascending
-- order, and `partition_point` is the length of the first stretch on which its test holds. Two loops
-- run on fuel. The one that spends the credit of congestion avoidance is given the credit; each round
-- takes a window of it, and no credit of a window's size is left. The doubling of the backlog is given
-- 64 rounds, in which any size of a 64-bit word is reached.
--
-- Not modelled: sockets, threads, terminals, ciphers and the compression of frames, rendering and
-- prediction; of the wire protocol the messages of the server and the screens that they carry; of the
-- datagrams the endpoint that joins the parts; of the mailbox its loaned buffers,
-- its clocks and the receiver's own wait. Those of them that decide anything are still to come.
pub mod Prelude
pub mod Forward
pub mod Client
pub mod Server
pub mod Dgram
pub mod Proto
