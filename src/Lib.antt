-- ===== src/Lib.antt =====
-- firefox-ctl controls Firefox from a terminal. A command line program (cli/) passes a command to a
-- native host, and the host to a browser extension (extension/), whose background page carries it
-- out. This library models the core of that background page.
--
-- How the parts interact. The native link (port.ts) receives a command and hands it to the
-- dispatcher, which takes the state lock (lock.ts) and has the session restored (session.ts, by way
-- of the restore memo, memo.ts) before a handler runs. The budget of the command comes from its
-- parameters (protocol.ts), and the size of a reply is measured as UTF-8 (reply.ts). Beside the
-- commands, the network tracker (network.ts) logs the requests of all tabs, and the HAR recorder
-- (har-recorder.ts) those of the tabs that record.
--
-- Files. The paths of the code are below extension/src/.
--
--   Base, Base/Eq, Base/Lists, Base/Map, Base/Entries, Base/Tests: texts as lists of UTF-16 units, Boolean
--     tests, lists, and a Map as an association list in insertion order.
--   Base/Selected: what filter selects, stated without its test.
--   Base/Texts, Base/Splitting: the methods of strings that the sources call, and their laws.
--   Base/Json, Base/Int: the JSON values of protocol.ts with numbers as a double holds them, and
--     integers for tab ids.
--   Lock (lock.ts): acquire, resume and release of the chain of promises; Lock/Invariant and
--     Lock/Fairness about every interleaving of them.
--   Memo (memo.ts): run, abandon, isCurrent; Memo/Fence and Memo/Sharing.
--   Reply (reply.ts): utf8Length; Reply/Encoding against an encoder, Reply/Concatenation.
--   Protocol (protocol.ts): frames, error codes and timeouts; Protocol/Budget.
--   Network (network.ts): onStarted, onCompleted, onFailed; Network/Query is the query,
--     Network/Activity tabStatus, Network/Url redactSensitiveUrl; Network/Ring, Network/Redaction,
--     Network/Filtering and Network/Url/Loop are about them.
--   Port (port.ts): NativeLink, one function for each method and timer; Port/Links, Port/Reconnects
--     and Port/Backoff are about it.
--   HarRecorder/Body (har-recorder.ts): storeBody, shape, cutBody, cutForm and cutRaw;
--     HarRecorder/Body/Cut, Form and Store are about them.
--   HarRecorder/Stream (har-recorder.ts): the bodies of beforeRequest and the callbacks of
--     captureResponse; HarRecorder/Stream/Chunk, Budget and Runs are about them.
--   HarRecorder/Pages (har-recorder.ts): bindPage and timePage; HarRecorder/Pages/Binding.
--   HarRecorder/Hops (har-recorder.ts): beforeRequest, pageref, navigationPage and the later events
--     of a hop; HarRecorder/Hops/Closing, Pagerefs and Recording are about them.
--   HarRecorder/Kept (har-recorder.ts): keep, its expiry and forget; HarRecorder/Kept/Expiry.
--   Session (session.ts, and handlers/window.ts and handlers/tabs.ts): persist, the events,
--     getSession, and the steps of createWindow, closeTab and closeWindow; Session/Restore is
--     readStoredState, one step from each await to the next; Session/Steps says which steps may follow which. Session/Pool,
--     Session/Handlers, Session/Reachable and Session/Active are about them.
--   Frames (frames.ts): FrameRegistry, one function for each method and event; Frames/Fence,
--     Frames/Admission and Frames/Runs are about it.
--   Har (har.ts): the types of a HAR log; Har/Cookies, Har/Query, Har/Mime, Har/Bodies and Har/Sizes
--     are the parts of an entry, Har/Finish the hop as har-recorder.ts hands it over, Har/Log
--     buildLog, Har/Redaction redactEntry and Har/Fit fitLog; Har/Cookies/Pairs, Har/Bodies/Base64,
--     Har/Log/Sorting and the children of Har/Fit are about them.
--   Dispatch (dispatch.ts): the commands in flight with the lock (Lock) and the preamble (Memo) that
--     they share; Dispatch/Steps has a function for each turn. Dispatch/Answering, Turns and Answers
--     are about their answers, Dispatch/Entries, Late and Expiry about deadlines, Dispatch/Holding,
--     Passing, Locking and Exclusion about the lock; Lock/Tickets is about each call's ticket.
--   Cookies (cookies.ts): the checks of an imported cookie; Cookies/Details is what cookies.set and
--     cookies.getAll are given, Cookies/Parsing is about the checks.
--   CaptureLocks (capture-locks.ts): the lock of each tab's captures; CaptureLocks/Rendezvous.
--
-- State and asynchrony. A class is a record of its fields, a method a function on it. An `await` ends
-- a step: what may happen between two steps is the order of the steps, which the theorems quantify
-- over. What the code does to its environment (timers, posted frames, settled promises) is part of
-- the state. Functions of the browser that may throw are given by what they return.
--
-- Parameters. The lower case of a text, the parser of a URL and the test of a frame's
-- pattern are arguments; the table of commands is not modelled.
--
-- Bounds and fuel. Numbers are natural numbers: times in milliseconds, sizes in bytes. The loop of
-- redactSensitiveUrl over the keys of a query takes as many steps as the query has parameters, which
-- is enough since each step ends with a parameter. A reconnect's delay is in 1024ths of a
-- millisecond, in which the powers of 1.5 up to the tenth are whole.
--
-- Not modelled: log lines, listeners that only pass an event on, the content scripts (they read and
-- drive the DOM), the security info of a HAR log, the start and the stop of a recording,
-- requestedCookie and the cookie handlers, and the Go programs below
-- cli/.
pub mod Base
pub mod Lock
pub mod Memo
pub mod Reply
pub mod Protocol
pub mod Network
pub mod Port
pub mod Session
pub mod Frames
pub mod HarRecorder
pub mod CaptureLocks
pub mod Har
pub mod Dispatch
pub mod Cookies
