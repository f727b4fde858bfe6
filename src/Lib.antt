-- ===== src/Lib.antt =====
-- nodus-vision serves the frames of a depth camera over HTTP, publishes itself to the Pilot and
-- records the color stream. One capture thread fills a latest-only frame store and offers every
-- frame to the recorder; an encoder thread turns the latest frames into JPEG previews; HTTP sessions
-- read the store, the previews and the recorder's status.
--
-- Camera: the value contracts of include/nodus_vision, the order of frame identities and the texts
-- of the enums in src/core/camera_contracts.cpp and src/core/provider_health.cpp. A captured frame
-- is a record of what its virtual functions answer; a float is the number of its bits.
-- FrameStore: src/core/frame_store.cpp. A method is a function on the store with the clock's reading
-- as an argument; a wait is the list of the stores that the waiting thread sees.
-- PreviewCache: src/provider/http/encoded_preview_cache.cpp, in the same way.
-- Pcd1: the little-endian words of src/provider/http/pcd1.cpp.
-- Recording: src/recording. Contracts has the identities and the serialised requests; Queue the ring
-- of admitted frames; Sidecar the writer of frames.jsonl; Manifest the document of a finalized
-- recording; Manager the owner of the lifecycle.
--
-- Recording.Manager models src/recording/recording_manager.cpp. Manager/State has the members of Impl
-- as a record and what the manager calls elsewhere, which is the record Parts: the recording store,
-- the video writer, the digest and the serialisers are fields of it. An operation is a function from
-- the manager to an outcome and the manager after it; an outcome is a value, an exception, a join
-- that waits for the worker, or a null pointer that is followed. The mutex makes each call one step:
-- startOrReplay, trySubmitFrame, finalizeOrReplay, the two halves of finalize, and the worker's
-- steps, which are cut where it takes the lock. finalizeArtifacts is one step, since the other calls
-- only read or are refused while the state is e_FINALIZING; after a stop request that could not be
-- written the state is e_FAULTED meanwhile, and a call that falls between its parts is not modelled.
-- Lifecycle interleaves the steps as events.
--
-- Geometry models buildCameraMountTransform of src/geometry/camera_mount_transform.cpp: its tests, the
-- product of the rotations and the validation of the matrix, over a record of the operations on
-- doubles and of sine and cosine. How they round is not modelled: that the matrix stays within the
-- tolerance of the validation is a hypothesis where it matters.
--
-- Config models src/config/vision_config.cpp: the structs in Config, the readers of a field in Fields,
-- the URLs and origins in Urls, the objects of the document in Device, Calibration and Sections, the
-- whole in Parse. A document is a value of Prelude/Json; boost::json::parse is a parameter. A call
-- that may throw is a Result, whose exception carries the text. Floating-point numbers are their bits
-- (Prelude/Floating), and std::stoi and the searches of std::string are in Prelude/Strings.
--
-- Pilot models src/pilot. Codec has the requests and Responses the responses of
-- pilot_contract_codec.cpp, up to the text; Identifiers the instance ids and the path segments;
-- Catalog the descriptors of vision_endpoint_catalog.cpp; Transport the base URL and the checks of
-- pilot_http_transport.cpp.
-- Pilot.Client models pilot_integration_client.cpp: the state in Client, the worker thread in Run and
-- Writes, the calls in Interface. The thread is cut where it blocks: in a request, in a wait, and at
-- its start; its place, with the local variables that live there, is part of the state. Events are a
-- result of the transport, a wake-up at a time, and the calls; a run is any list of events. A stop
-- that falls between two places is one that arrives at the second. The retry counts are not bounded.
-- A request whose target does not start with a slash throws; the methods are POST and PUT, which
-- Boost knows. An allocation that fails is not modelled.
--
-- Numbers: std::uint64_t counters wrap at 2^64; sizes and clock readings are not bounded, and times
-- are nanoseconds of the steady clock. No definition needs fuel: a worker's loop is a step that is
-- repeated by the events. The length of an instance id's random part is 16 bytes, those of the source.
--
-- Not modelled: the files themselves (src/recording/recording_store.cpp), the encoder
-- (src/recording/color_video_writer.cpp), the digest of an artifact, the HTTP server, the rest of
-- the PCD1 codec, the sockets of the Pilot transport, the camera adapters beyond their
-- configuration, the transform of points and the application that puts the parts together;
-- app/main.cpp is I/O.
-- What a write to frames.jsonl that fails leaves in the file is not modelled: the sidecar's lines are
-- those of the appends that returned. Memory orders of the atomics are not modelled: m_admitting,
-- m_contention_drop_count and m_stop_requested are members like the others.
mod Prelude
pub mod Camera
pub mod Config
pub mod FrameStore
pub mod Geometry
pub mod PreviewCache
pub mod Recording
pub mod Pilot
pub mod Pcd1
