-- ===== src/Lib.antt =====
-- The encoder of OBE-RT takes raw frames from a capture card, runs them through filters and encoders in
-- threads that are joined by queues, and multiplexes the coded frames into a transport stream. This
-- library models parts of it that are not calls of other libraries, one module per part.
--
-- Queue (common/queue.c): the locked array between two threads. `Queue` is `obe_queue_t`, a call
--   returns its `int` or blocks on the mutex, and `realloc` is a parameter that grants or refuses
--   each request. Queue.Fifo states each operation on the waiting items, Queue.Script sequences of
--   calls, Queue.Errors the error path.
-- Timeval (obe/obe.c, encoders/video/sei-timestamp.c): differences of times.
-- Scte104 (common/scte104filtering.c): the table that routes SCTE-104 messages to SCTE-35 streams.
-- Sei (encoders/video/sei-timestamp.c): the SEI payload that carries times through a video encoder,
--   on the byte list of its buffer; it uses Timeval for the latency.
-- Ac3 (encoders/audio/ac3bitstream/ac3bitstream.c): the checksum of AC-3 frames and the callback that
--   forwards the payload of a burst; Ac3.Table is the checksum's table.
-- Smpte337 (input/sdi/smpte337_detector2.c): the list of audio buffers and the detector of SMPTE 337
--   bursts. Smpte337.Stream states the list as one stream of bytes, Smpte337.Scan the detector as a
--   scan of that stream, Smpte337.Write the entry point. The loop's fuel is one more than the count
--   of bytes: each round that goes on takes a byte off.
-- Sdi (input/sdi/sdi.c): Sdi.Lines the line numbers of interlaced formats, Sdi.Pixels the conversions of
--   lines of pixels, whose loops run on the rounds that the width gives, Sdi.Services the tables of VBI
--   and VANC services, Sdi.Selected which of them the user asked for.
-- Metadata (common/metadata.c): the items that travel with a frame, and their copies.
-- Obe (obe/obe.c): Obe.Routing hands frames to the queue of a filter or an encoder and drops early
--   frames from the multiplexer's queue, Obe.Streams looks streams up, Obe.Clock keeps the input clock.
-- Video (filters/video/video.c): the dithering of 10-bit rows to 8 bits and the chroma rows.
-- Smoothing (encoders/encoder_smoothing.c): the thread that paces coded frames, as a step relation with
--   the encoder, the clock and obe_close around it. Smoothing.Reach has the interleavings,
--   Smoothing.Order the invariant, Smoothing.Progress where the thread can wait and that it ends,
--   Smoothing.Drain a run in which the input ticks. A frame takes seven turns at most.
-- Output (output/ip/ip.c): what the UDP output does to a buffer. Output.Local takes the loops over the
--   packets of a buffer packet by packet, Output.Drops and Output.Every state what the drops do. Output.Rtp is the
--   RTP output.
-- Cli (obe/obecli.c): the option strings of the commands. Cli.Split splits strings at separators,
--   Cli.Options reads assignments back.
-- Mux (mux/smoothing.c): the thread that cuts the transport stream into buffers for the outputs. Its
--   fifos are libavutil's: Mux.Fifo states what the code relies on. Mux.Payload is the loop that fills
--   buffers, Mux.Copy the copy to the fifos, Mux.Pass a round of the thread. The fuel of the loop is one more than the waiting bytes:
--   each round takes at least a packet.
-- V210 (input/sdi/v210.c): the boxes that carry a 32-bit value in a picture, and their reader at scale
--   one, in V210.Boxes.
-- Ts (mux/ts/ts.c): the loop of the muxer thread, which takes the coded frames that are due from the
--   mux queue and hands the packets that libmpegts makes of them to the smoothing thread. Ts.Frames, Ts.Due and
--   Ts.Round state what a pass takes and leaves, Ts.Sends that it gets on, Ts.Order and Ts.Runs runs of
--   it among arrivals.
-- UserData (filters/video/cc.c, filters/video/video.c): captions, active format and bars as user data
--   for the encoder. UserData.Bits states what the code relies on of the bit writer and the bit reader,
--   which are copies of other projects' code. UserData.Caption has the writers of captions, UserData.Cdp
--   the reader of caption distribution packets, whose loop runs on one more than the bytes of the packet
--   (each round reads one, UserData.Cdp.Ends), UserData.Sar the aspect ratios, UserData.Items the other items and the loop
--   over them.
-- Vanc (input/sdi/ancillary.c): the packets of a vertical ancillary line. Vanc.Line is the loop over the
--   words, which runs on one round more than there are words (Vanc.Bounds). Vanc.Packets describes lines
--   of packets, Vanc.Receive and Vanc.Deliver what becomes of them, Vanc.Once what is never there twice, and
--   Vanc.Captions the way of a caption packet from the line through UserData to the encoder. `stale` is
--   what the memory that realloc adds holds.
-- Vbi (input/sdi/vbi.c): the frames of teletext and VBI data units. Vbi.Reversed is the table of reversed
--   bytes, Vbi.Units the bytes of a teletext frame, Vbi.Stuffing how its last packet is filled.
-- Base holds what the modules share: integers over the native naturals, lists, Boolean tests, `memcpy`.
--
-- Loops are structural recursion on the list that is walked or on the count that is left; where a loop
-- has no such count it runs on fuel, and a theorem says how much is enough. Integers keep their width
-- where the source's values can reach it: the queue's `size` is the bit pattern of an `int`,
-- `size_t` and `uint32_t` wrap with a remainder. Signed times have no width, but the `int` of the carry in
-- Timeval wraps.
--
-- Not modelled: threads other than the two smoothing threads and the muxer's (a queue's calls are atomic, since each
-- holds the mutex for its whole run), system calls, printing and logging, and what other libraries do
-- (libav, x264, x265, libklvanc, libzvbi, libmpegts, libyuv). What is left of the repository are the capture inputs,
-- mostly C++ (input/sdi/decklink and the other cards, input/ndi), which hand the samples of drivers on,
-- the wrappers of the encoders (encoders/video, encoders/audio), of which encoders/video/hevc/hevcencode.c
-- is a sample of Intel's, the set-up of the multiplexer's tables, the commands of the command line that
-- print and fill structures, the painters of text (obe/osd.c, input/sdi/yuv422p10le.c), the decoding of VBI
-- lines in the array of a slicer of libzvbi, and the vector code under x86.
pub mod Base
pub mod Queue
pub mod Timeval
pub mod Scte104
pub mod Sei
pub mod Ac3
pub mod Smpte337
pub mod Sdi
pub mod Metadata
pub mod Obe
pub mod Video
pub mod Smoothing
pub mod Output
pub mod Cli
pub mod Mux
pub mod V210
pub mod Ts
pub mod UserData
pub mod Vanc
pub mod Vbi
