-- ===== src/Database/Writer.antt =====
-- src/database/DatabaseWriter.cpp. A producer's call is one step (it holds the mutex while it
-- changes the queue); the writer thread's loop is a sequence of turns. `none` is undefined behaviour.
pub mod Thread
pub mod Files
use project_viatech_ecids_co.Base.{
  ℕ, Bool, true, false, not, ◌||◌, List, [], ◌∷◌, ◌++◌, Text, Option, none, some, is_empty,
  if◌then◌else◌,
}
use project_viatech_ecids_co.Common.Frames.{
  DbWriteRequest, WriteType, image, ai_result, stereo_result, point_cloud, depth_map, blank_request,
}
use project_viatech_ecids_co.Data.Recent.{push_recent}
use project_viatech_ecids_co.Database.Records.{
  DiskOp, save_image, save_ai_result, save_stereo_result, save_pointcloud, save_depth,
}

pub record DatabaseWriter : Type 0 where
  pub has_manager : Bool  -- `record_mgr_` is not null
  pub running : Bool
  pub queue : List DbWriteRequest
  pub max_queue : ℕ

abbrev pub new_writer : DatabaseWriter
new_writer = record { has_manager = false; running = false; queue = []; max_queue = 200 }

unfoldable pub init : DatabaseWriter → Bool → ℕ → DatabaseWriter
init w manager max_queue = record w { has_manager = manager; max_queue = max_queue }

-- The thread that `start` makes and `stop` joins is the sequence of turns below.
unfoldable pub start : DatabaseWriter → DatabaseWriter
start w = if w.running then w else record w { running = true }

unfoldable pub stop : DatabaseWriter → DatabaseWriter
stop w = if w.running then record w { running = false } else w

abbrev pub with_queue : DatabaseWriter → Option (List DbWriteRequest) → Option DatabaseWriter
with_queue w none = none
with_queue w (some q) = some (record w { queue = q })

abbrev pub push : DatabaseWriter → DbWriteRequest → Option DatabaseWriter
push w req = with_queue w (push_recent w.max_queue w.queue req)

-- `!data || data->empty()`
abbrev pub no_data : Option (List ℕ) → Bool
no_data none = true
no_data (some bytes) = is_empty bytes

unfoldable pub enqueue_image :
    DatabaseWriter → Text → Text → Text → ℕ → Option (List ℕ) → Text → Option DatabaseWriter
enqueue_image w record_path subfolder camera_id pair_index bytes format =
    if not w.running || no_data bytes
    then some w
    else push w (record (blank_request image) {
      record_path = record_path;
      subfolder = subfolder;
      camera_id = camera_id;
      pair_index = pair_index;
      bytes = bytes;
      format = format;
    })

abbrev text_request : WriteType → Text → Text → Text → ℕ → Text → DbWriteRequest
text_request t record_path subfolder camera_id pair_index json_str = record (blank_request t) {
  record_path = record_path;
  subfolder = subfolder;
  camera_id = camera_id;
  pair_index = pair_index;
  text_data = json_str;
}

unfoldable pub enqueue_ai_result :
    DatabaseWriter → Text → Text → Text → ℕ → Text → Option DatabaseWriter
enqueue_ai_result w record_path subfolder camera_id pair_index json_str =
    if not w.running
    then some w
    else push w (text_request ai_result record_path subfolder camera_id pair_index json_str)

unfoldable pub enqueue_stereo_result :
    DatabaseWriter → Text → Text → Text → ℕ → Text → Option DatabaseWriter
enqueue_stereo_result w record_path subfolder camera_id pair_index json_str =
    if not w.running
    then some w
    else push w (text_request stereo_result record_path subfolder camera_id pair_index json_str)

-- A request with null or empty data writes nothing.
abbrev if_data : Option (List ℕ) → (Text → List DiskOp) → List DiskOp
if_data none save = []
if_data (some []) save = []
if_data (some (b ∷ bs)) save = save (b ∷ bs)

abbrev dispatch : WriteType → DbWriteRequest → List DiskOp
dispatch image r =
    if_data r.bytes
      (λ bytes. (save_image r.record_path r.subfolder r.camera_id r.pair_index bytes r.format).1)
dispatch ai_result r = save_ai_result r.record_path r.subfolder r.camera_id r.pair_index r.text_data
dispatch stereo_result r = save_stereo_result r.record_path r.subfolder r.pair_index r.text_data
dispatch point_cloud r = if_data r.bytes (save_pointcloud r.record_path r.subfolder r.pair_index)
dispatch depth_map r = if_data r.bytes (save_depth r.record_path r.subfolder r.pair_index)

unfoldable pub process_request : Bool → DbWriteRequest → List DiskOp
process_request has_manager r = if has_manager then dispatch r.write_type r else []

-- One round of `writer_loop_`: the loop's test, the wait, the two tests after it, one request. The
-- flag may fall while the thread waits: `stopped`. `none` is the end of the loop.
abbrev front_turn :
    DatabaseWriter → List DbWriteRequest → Bool → Option (List DiskOp × DatabaseWriter)
front_turn w [] stopped = if stopped then none else some ([], w)
front_turn w (r ∷ rest) stopped =
    some (process_request w.has_manager r, record w { queue = rest; running = not stopped })

unfoldable pub turn : DatabaseWriter → Bool → Option (List DiskOp × DatabaseWriter)
turn w stopped = if w.running then front_turn w w.queue stopped else none

-- The turns until the loop ends, or the given ones have been taken.
unfoldable pub writer_loop : DatabaseWriter → List Bool → List DiskOp × DatabaseWriter
unfolding turn
writer_loop w [] = ([], w)
writer_loop w (stopped ∷ more) = elim (turn w stopped) [
  | none ↦ ([], w)
  | some (ops, w') ↦ let (rest, w'') = writer_loop w' more in (ops ++ rest, w'')
]
