-- ===== src/Lib.antt =====
-- Verification of the VirtIO GPU driver for the Windows display driver model, gpu-wddm/.
--
-- The program. A display miniport driver sends commands to a VirtIO GPU device. Senders put requests
-- with a callback into a channel; a handler thread takes them, puts each into a free slot and hands
-- it to the device's virtqueue; when the device has used it, the handler reads the headers of request
-- and response, signals the virtio fence, runs the callback and frees the slot. The callback wakes a
-- sender, gives an identifier back, or reports that a fence of an engine has completed. Fences of an
-- engine may complete in any order, and are reported to the operating system in ascending order.
--
-- The files, and the code that each is about:
--   Base       what the modules share: tests on numbers, lists, the results of fallible functions.
--   Handler    Queue in gpu-wddm/src/queue.rs: push_to_device, pop_from_device, mark_free, request,
--              handle_requests; Handler.Responses has response and handle_responses with the reading
--              of headers, Handler.Data what they change of GpuData, blocking buffers and batches,
--              Handler.Errors the error conversion of gpu-wddm/src/adapter.rs, Handler.Interface the
--              types Callback and Buffer and the code that the handler calls and that is not the
--              driver's, Handler.Started Queue::new. Handler.Slots has the validity of the slots;
--              Handler.Requests, Handler.Loop, Handler.Freed, Handler.Effects, Handler.Respond,
--              Handler.Popped, Handler.Turns, Handler.Kept, Handler.Tokens and Handler.Drained the
--              proofs; Handler.Model is a device for the tests.
--   Channel    ArraySegQueue and AsyncQueue in gpu-wddm/src/queue.rs.
--   Engines    EngineState and the fence notifications of GpuData in gpu-wddm/src/queue.rs.
--   Tracker    FenceTracker in gpu-wddm/src/queue.rs.
--   Ids        SimpleIdAllocator in gpu-wddm/src/queue.rs.
--   Buffers    MaybeInlineBuffer and slice_in_one_page in gpu-wddm/src/queue.rs.
--   Nodes      Engine in gpu-wddm/src/adapter.rs.
--   Submissions  FenceSubmission, GpuData::handle_fence_submissions and GpuChannel::submit_fence and
--              submit_preemption in gpu-wddm/src/queue.rs.
--   Threads    the thread of QueueHandler in gpu-wddm/src/queue.rs, with its interrupts; Threads.Steps
--              the steps of the thread, the senders and the device, Threads.Sound, Threads.Woken and
--              Threads.Forgotten the proofs.
--   Busy       the use counts of Allocation in gpu-wddm/src/allocation.rs.
--   Pages      merge_entries and Allocation::attach_pages in gpu-wddm/src/allocation.rs.
--   Segments   MemorySegment in gpu-wddm/src/process.rs.
--   Wire       the structures that the driver sends, and GpuChannel::new_header in
--              gpu-wddm/src/queue.rs.
--   Commands   the bodies of commands in gpu-wddm/src/uapi.rs and Command in
--              gpu-wddm/src/command.rs; Commands.Parser has the parser of uapi.rs, Commands.Dma and
--              Commands.Backing the builders of commands in DMA memory, Commands.Items,
--              Commands.Slices, Commands.Writes, Commands.Bounds, Commands.ItemBounds and
--              Commands.Backing.Entries the proofs.
--   Requests   QueueChannel and GpuChannel in gpu-wddm/src/queue.rs: Requests.Queues has QueueChannel,
--              Requests.Contexts, Requests.Resources, Requests.Capsets, Requests.Scanouts and
--              Requests.Submits the methods of GpuChannel, Requests.Monad the way in which they
--              return, fail or panic, Requests.Leaving what calls leave behind;
--              Requests.Keeping, Requests.Owned, Requests.Transfers, Requests.Batches,
--              Requests.Singles, Requests.Masks and Requests.Supported the proofs.
--   Topology   VidPnPathInfoIter, VidPnPathInfoGuard and the paths of VidPnTopologyInterface in
--              gpu-wddm/src/vidpn.rs, and the loop over the paths in gpu-wddm/src/adapter.rs;
--              Topology.Released the proofs.
--   Cursors    BGRA and Cursor::write_mono and write_masked_color in gpu-wddm/src/vidpn.rs:
--              Cursors.Pixels, Cursors.Mono and Cursors.Masked the code, Cursors.Images the pictures
--              that the shapes stand for, Cursors.Shown, Cursors.Passes, Cursors.Outlined,
--              Cursors.Resolved, Cursors.Drawn, Cursors.MonoPlain, Cursors.MonoDrawn and
--              Cursors.MaskedDrawn the proofs about the pixels, Cursors.MaskedBytes about their bytes.
--   Outputs    Framebuffer, Cursor and VidPnOutput in gpu-wddm/src/vidpn.rs: Outputs.Framebuffers,
--              Outputs.Pointers and Outputs.Displays the code, Outputs.Calls sequences of calls,
--              Outputs.Asked the requests that they lead to, Outputs.Kept, Outputs.Placed,
--              Outputs.Moves and Outputs.Screen the proofs.
--   Devices    Device and Context3D in gpu-wddm/src/device.rs: the contexts and the requests that go
--              through them; Devices.Blits the proofs.
--   Allocations  Allocation and DeviceSpecificAllocation in gpu-wddm/src/allocation.rs, with
--              Adapter::destroy_allocation_inner in gpu-wddm/src/adapter.rs: how a blob is created,
--              mapped and unmapped; Allocations.Calls has sequences of calls, Allocations.Asked the
--              requests of opening, Allocations.Mapped, Allocations.Opened and Allocations.Known the proofs.
-- Functions have the names of the source. The methods of a struct take its record and return the
-- changed one; a Result is an Outcome, which also has a panic, or a sum beside the state where the
-- state outlives the error. An object that the source shares by a pointer stands in a map under a
-- number.
--
-- Bounds. Counters wrap as the source's do: fences and identifiers at 2^32, virtio fences and use
-- counts at 2^64; the theorems that need one not to wrap say so. The loops that drain the channel and
-- the used ring run on fuel. For the requests one more than the number of waiting requests is enough,
-- since each turn takes one; for the responses one more than the number of tokens that the device has
-- used is, while it uses no more, except where a token stands for no slot: there no amount is. The
-- loop over the paths of a topology takes its number of turns as an argument, and its
-- theorem holds for any number. The loops over a range, in Base.Loops, recurse on its length. The
-- other loops recurse on lists.
--
-- Not modelled. Locks and atomics are taken one operation at a time, so no interleaving of two
-- callers within an operation is covered, but for senders of requests: that they put a request into a
-- channel and that they set its event are two steps, and turns of the thread come between. The
-- virtqueue (virtio-drivers/), the queues of crossbeam,
-- coalesce of itertools, the addresses of buffers and the performance counter are parameters with
-- their documented behaviour. So are what happens while a sender waits for a response, the memory
-- for buffers, the layout of requests and responses in bytes, the physical addresses of pixels, and
-- the calls of the operating system on the paths of a topology. Of an output, what its EDID says is
-- an argument, and the queue of flips with its timer is left out. Logging is left out. The name of
-- a context for blits is an argument. The rest of gpu-wddm/, namely the creation of allocations and
-- the table of the devices that opened one, the command buffers and presents of devices, the checks
-- of modes of video present networks, processes and the entry points, is not covered, nor are the
-- kernel bindings in wdk/ and the libraries in util/.
pub mod Base
pub mod Tracker
pub mod Nodes
pub mod Engines
pub mod Buffers
pub mod Ids
pub mod Channel
pub mod Busy
pub mod Handler
pub mod Segments
pub mod Submissions
pub mod Threads
pub mod Pages
pub mod Wire
pub mod Commands
pub mod Cursors
pub mod Requests
pub mod Topology
pub mod Outputs
pub mod Devices
pub mod Allocations
