-- ===== src/Lib.antt =====
-- rust-p2p-usb shares USB devices between peers. A server owns the devices; a client attaches to one
-- over a QUIC stream, and shows it to its kernel as a virtual device that speaks USB/IP. The kernel's
-- USB/IP commands become the protocol's requests (crates/client), messages in frames carry them
-- (crates/protocol), and the server decides which of several clients may use a device (crates/server).
--
-- Which file models which part:
--   Protocol/Types, Messages   crates/protocol/src/types.rs, messages.rs and version.rs: the types of
--                              the wire protocol, with the constructors and fields of the source.
--   Protocol/Codec             codec.rs and error.rs: frames with a four byte length, and streams.
--     Codec/Frames, Streams    what holds of one frame, and of a stream of them.
--   Protocol/Version           the two version checks beside each other.
--   Protocol/Integrity         integrity.rs: the checksums of streamed reports.
--   UsbIp                      crates/client/src/virtual_usb/usbip_protocol.rs: the header, the
--                              commands and the replies (Wire, Header, IsoPacket, CmdSubmit, Reply),
--                              and the conversions to requests (Request) and from responses (Response);
--     Directions               what the conversions keep.
--   Sharing                    crates/server/src/usb/sharing.rs: `DeviceSharingState`, the clients of
--                              one device with its locks; Grants has its queue and timeouts, Tracker
--                              the `DeviceAccessTracker` of all devices.
--     Invariant, Reach         the invariant of one device, and its steps as a relation.
--     Fifo, Refine             the abstract lock with a queue of handles, and that the code refines it.
--     Locks, Queue, Sweep, Waiting   lemmas on locks and queues, and the sweep over all devices.
--   Interrupt                  crates/server/src/usb/interrupt_buffer.rs: the server's buffer of one
--                              interrupt endpoint; Order, Balance and Window say what leaves it.
--     Interrupt/Receive        `EndpointReceiveBuffer` of the client,
--                              crates/client/src/virtual_usb/interrupt_receive_buffer.rs; Nack,
--                              Contiguous and Expiry are about its missing and contiguous numbers.
--     Interrupt/Jitter         `AdaptiveJitterBuffer` of the same file.
--   Notify                     crates/server/src/network/notification_aggregator.rs: the batches of
--                              device notifications; Notify/Batch says what a batch holds.
--   Health                     crates/client/src/network/health.rs: the heartbeats and the state of a
--                              connection; Health/States says which states they lead to.
--   Rate                       crates/common/src/rate_limiter.rs: token buckets and `RateLimiter`; Bucket,
--                              Admitted and PerClient are about what it lets through, with what
--                              Rounding says of `f64`; Units reads rates, Metrics counts.
--   Policy                     crates/server/src/policy.rs with `DevicePolicy` of config.rs beside it:
--                              who may use a device at what time of day (Choice, Access, Clock), and
--                              the sessions that the monitor ends (Sessions).
--   Usb/Manager                crates/server/src/usb/manager.rs: `DeviceManager`, the registry of devices
--                              with their handles; Registry has the devices that come and go, Calls
--                              those that reach Sharing, Debounce the hot-plug events.
--     Coherent, Reach          the invariant between registry, handles and Sharing, and the calls as a
--                              relation; Attachment, Detachment and Hotplug are about single calls,
--                              Handles and Settled about what clients see.
--   Usb/Worker                 crates/server/src/usb/worker.rs: the commands of the thread that owns the
--                              devices; Worker/Served puts Manager and Transfers together.
--   Usb/Transfers              crates/server/src/usb/transfers.rs: the transfers on an open device; Retry,
--                              Lengths, Checked and Blocking are about their answers and their time.
--     Usb/Answers              a command of the kernel through UsbIp, Transfers and UsbIp again.
--   Base                       tests, lists, maps, machine words, results and ASCII text (Base/Text)
--                              that all parts use.
--
-- How the code is written: an operation of `&mut self` takes the state and returns it beside its
-- result. `Instant::now()` is an argument, one for each call the code makes (a function, where a loop
-- over a map makes one for each entry); an instant is a number and a difference of instants stops at
-- 0, as `duration_since` does. A `HashMap` is a list of
-- entries in which `insert` replaces the entry of its key; device ids, handles and sequence numbers
-- are numbers. A cast to `u32` is written out, `as_u32`. An `i32` is an integer with its casts. A
-- stream is the list of its bytes: reading takes from the front and the error is the end of the
-- stream.
--
-- Parameters: the serializer `postcard` (with the hypothesis that it reads back what it wrote) and
-- the hasher of `crc32fast` (with the hypothesis that data may be fed in parts); the handle of
-- `rusb` (with the hypotheses that a read leaves its buffer's size as it is, and that a call ends
-- within a timeout that is not 0); a type that stands for `f64` in the messages, and in Health and
-- Rate with the operations on it. The bounds in Rate have as a hypothesis how `f64` rounds (whole
-- numbers below 2 ^ 53 are exact, and a result lies above the exact one by a part in 2 ^ 50 at most,
-- where IEEE 754 promises a part in 2 ^ 53 for each operation). A client's name is a number in Rate,
-- and the text of a client's id in Policy is an argument.
-- No definition uses fuel: loops are recursion on the list that they go through.
--
-- Not modelled: the sockets, QUIC streams and sysfs files (I/O of tokio and iroh), the terminal
-- interfaces, the programs' start-up, logging and configuration files. The quality of service has
-- no model in these files. Of a device's opening there is its outcome, but not the claiming of its
-- interfaces. Text is ASCII: case and white space beyond it are those of the library. Of the
-- interrupt buffers, the managers over several endpoints, the waiting reads and the statistics over
-- `f64` are left out; one thread pushes into a buffer and one task stores, so that their atomic
-- counters are plain numbers.
pub mod Base
pub mod Protocol
pub mod Sharing
pub mod UsbIp
pub mod Interrupt
pub mod Notify
pub mod Health
pub mod Rate
pub mod Policy
pub mod Usb
