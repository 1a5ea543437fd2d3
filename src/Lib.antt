-- ===== src/Lib.antt =====
-- A verification library for ECIDS Core, the service that inspects escalator gaps with a stereo camera.
--
-- The program: a camera delivers pairs of frames (data/DataBuffer), the preprocess module sends them to
-- an AI service and keeps a table of requests that wait, results are saved through a writer thread
-- (database/DatabaseWriter, RecordManager) and pushed to web socket clients (api3/WSSServer). Requests of
-- a client over HTTPS (the handler in src/main.cpp) start and stop tasks; the mode controller, the task
-- manager and the status board hold what runs. A house keeper removes old records.
--
-- The files, and the code that they model:
--   Base, Common: shared helpers; include/ecids_core/common (Types.h, Response.h), src/common/Timestamp.cpp.
--     Common.Double is what the code does with double; Common.Json is what it takes from its JSON library.
--   Logic: src/logic (ModeController, TaskManager) and src/data/StatusTracker.cpp.
--   Data: src/data/DataBuffer.cpp; src/data/ImageEncoder.cpp (Encoder); src/data/ConfigManager.cpp
--     (Config); Data.Recent is the queue that drops its oldest entry.
--   Database: RecordManager (Records), DatabaseWriter (Writer) and HouseKeeper (HouseKeep) of src/database.
--   Api1: what subscriber_loop_ of src/api1/DataSubscriber.cpp makes of a message (Subscriber), and the
--     callback in src/main.cpp that takes its bundles (Frames); the commands of src/api1/StereoCameraClient.cpp
--     (CameraClient).
--   Api2: what poll_loop_ of src/api2/DetectionDealer.cpp reads of a message of the AI service (Dealer), its
--     sockets and the requests that it sends (Dealer.Sockets).
--   Api3: the frames (Wss), handshakes (Wss.Handshake), subscriptions (Wss.Topics) and connections
--     (Wss.Clients) of src/api3/WSSServer.cpp, and requests and responses (Http) of
--     src/api3/ClientServer.cpp.
--   Preprocess: src/preprocess/PreprocessModule.cpp, its thread, process_pair_ (Send), on_ai_result_
--     (Pending), inspection_loop_ (Loops) and ai_test_loop_ (AiTest).
--   Postprocess: DetectionExtractor (Extract), GapDistance (Distance), DisparityCalculator (Disparity),
--     SameGapChecker and RegionLocalizer (SameGap), CleatClassifier (Cleats), EdgeFitter (Edges),
--     GapLocalizer (GapLines) and PostprocessModule (Pipeline up to the gap lines, Process with what is
--     saved, Messages) of src/postprocess.
--   App: the requests of src/main.cpp on the state that the parts share (App, App.Requests), what the
--     result callback averages and publishes (App.Publish), the list of records (App.History), and base64_encode
--     (App.Base64), and the thread that watches the camera (App.Health).
--   Examples: runs at concrete inputs.
--
-- How it is modelled: a method that holds its mutex throughout is one step on a record; a queue or an
-- unordered map is a list; a pointer that may be null is an Option or a Boolean; undefined behaviour and a
-- wait that would not end are the result none, but for the shift of an int in base64_encode, which wraps
-- around as compilers have it. Files are lists of disk operations. Texts that are only
-- compared are strings, texts that are put together are lists of character codes. Doubles, the JSON
-- library, the disk of the house keeper, the encoder, what OpenCV does with images, the random draws of
-- a fit and the order of an unordered map are parameters. Loops recurse on lists or on a count that the
-- code gives (10,000 steps across a gap, the iterations of a fit), so no fuel is needed; the writer
-- thread runs for any list of turns.
--
-- Not modelled: sockets, TLS, message queues and threads' scheduling, image decoding, the other views
-- of the client API, and the start of the parts in main.
pub mod Base
pub mod Common
pub mod Logic
pub mod Data
pub mod Database
pub mod Api1
pub mod Api2
pub mod Api3
pub mod Preprocess
pub mod App
pub mod Examples
pub mod Postprocess
