-- ===== src/Lib.antt =====
-- Verification of the file upload feature: an edge feature that uploads files to HTTP, AWS or
-- Azure storage, on request of the backend, by a trigger or periodically.
--
-- The program's parts. `FileUpload` (client/fileupload.go) chooses the files of a trigger by the
-- access mode (client/mode.go) and hands them to `AutoUploadable` (client/uploadable.go), the
-- feature with its operations start, trigger, cancel, activate and deactivate. That registers the
-- files in `Uploads` (client/uploads.go) as one upload with a child for each file, and asks the
-- backend to start each child. A child that is started makes an uploader (uploaders/) from the
-- options of the request and uploads its file in a goroutine; the upload's status goes to a
-- listener, which keeps the last events in a ring buffer (client/ring_buffer.go).
--
-- Which file models which part:
--   Prelude        names passed on, texts (Go strings as bytes), maps, 64-bit integers, decimals
--   RingBuffer     client/ring_buffer.go: newRingBuffer, empty, get, put
--   Mode           client/mode.go: String, Set, MarshalJSON, UnmarshalJSON
--   Uploaders      uploaders/common.go (Uploaders, Uploaders/Http), uploaders/aws.go
--                  (Uploaders/Aws), uploaders/azure.go (Uploaders/Azure), and getUploader of
--                  client/uploads.go (Uploaders/Choice)
--   Uploads        client/uploads.go: Status has the states, Multi the parts of the methods of
--                  MultiUpload that run under its mutex, Multi/Actions their interleavings, Heap
--                  the shared objects, Registry the methods of Uploads, Methods those of
--                  MultiUpload and SingleUpload on the heap, Stop the method Stop of Uploads,
--                  Consistency sequences of whole methods, and Threads goroutines that interleave
--                  between the sections of the methods
--   Uploadable     client/uploadable.go: Config has Validate, connectHandler, nextUID and the
--                  executor, Operations the operations and UploadFiles, Messages messageHandler,
--                  Connection has Connect, Disconnect and what is sent
--   FileUpload     client/fileupload.go: DoTrigger, OnTick, HandleOperation, and in Life
--                  NewFileUpload, Connect, Disconnect
--   StatusEvents   client/status_events.go: Start, Stop, Add, eventLoop and get
--   Edge           client/edge.go: NewEdgeConnector, the handler of configurations, Close
--   Timer          client/timer.go: the executor as steps of its goroutines
--   Times          client/duration.go and client/xtime.go
--   Flags          flagparse/flags.go: FieldNames has the names of flags, Values the defaults,
--                  UploadConfig the fields of the program and Validate
--   Logger         logger/logger.go: SetupLogger, the levels and what is written
--   Main           main.go: the parts put together, up to the wait for a signal
--
-- State and operations. Pointers to uploads are addresses in a heap, a function from addresses to
-- records, so that a MultiUpload and its children refer to each other as in the code. A method
-- that locks is a function on the state, one that may fault returns an Option, one that may fail a
-- Result. Whether a call of Stop of an executor returns, which is made with the mutex of the feature
-- held, is an argument of activate, deactivate, connectHandler and Disconnect (Timer shows how it
-- goes). Calls of a listener, messages that are sent, files that are deleted and goroutines that
-- are spawned are appended to lists. int64 arithmetic wraps around at 2^64. A Go map is an
-- association list, whose order is the order of a range over it.
--
-- Parameters. Floating point, JSON, the file system, net/http and the AWS and Azure libraries are
-- arguments, and so are the packages flag and time, and strings.ToLower and ToUpper where the
-- storage provider and the level of the log are read; the method of the HTTP uploader is put in
-- upper case as ASCII. The laws assumed are that JSON reads back the names of the modes that it
-- writes, and for the percentages how floating point rounds (Uploads/Multi/Percent).
--
-- Bounds and fuel. All recursion is on lists, but for two loops. The decimal digits of a number `n`
-- take the fuel `n + 1`: each digit divides by ten, so it is enough. The loop of Uploads.Stop takes
-- the timeout divided by its sleep of two seconds, and two turns more: each turn but the last two
-- sleeps, so it is enough. A goroutine of Uploads/Threads takes at most as many steps as what it has
-- to do weighs (Uploads/Threads/Weights).
--
-- Interleavings. Goroutines interleave between the sections of the methods of MultiUpload and
-- SingleUpload (Uploads/Threads), of one periodic executor (Timer) and of one consumer of status
-- events (StatusEvents), whose loops take an event and consume it in two steps. A section under a
-- mutex is one step; so is each access to a SingleUpload outside of one, such as a call of
-- progressFunc up to changeProgress.
--
-- Not modelled: the descriptions of flags, the writers of the log, what main.go prints, AddMulti and
-- Stop between the steps of other goroutines, and interleavings inside the other methods.
pub mod Prelude
pub mod RingBuffer
pub mod StatusEvents
pub mod Timer
pub mod Edge
pub mod Times
pub mod Flags
pub mod Logger
pub mod Uploaders
pub mod Uploads
pub mod Mode
pub mod Uploadable
pub mod FileUpload
pub mod Main
