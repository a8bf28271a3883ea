-- ===== src/Admission.antt =====
-- Admission of inbound frames: the purpose tables, the rate windows and the duplicate detection
-- of `MeshTransport` (src/runtime/mesh.ts). Times are milliseconds; `now` is `Date.now()`.
use jupyter_pair_ext.Base.{
  ℕ, suc, ◌+◌, ◌*◌, String, Bool, true, false, not, ◌&&◌, ◌||◌, Option, none, some, List, [], ◌∷◌,
  str_eq, ltb, leb, if◌then◌else◌, nat_eq, string_eq, ◌>>=◌, ◌>>◌, or_else, length, any, Map, get,
  put, has,
}
pub mod Purpose
pub mod Rate
pub mod Seen

-- `set.has(type)`
abbrev pub is_member : String → List String → Bool
is_member frame_type set = any (λ t. str_eq t frame_type) set

abbrev pub bulk_chunk_types : List String
bulk_chunk_types = "binaryChunk" ∷ "snapshotFileChunk" ∷ []

abbrev pub bootstrap_to_runtime_types : List String
bootstrap_to_runtime_types =
    "helloAck" ∷ "snapshotRequest" ∷ "snapshotCheckpointAck" ∷ "snapshotFileRetry" ∷ "appPing"
    ∷ "appPong" ∷ []

abbrev pub runtime_to_bootstrap_types : List String
runtime_to_bootstrap_types =
    "helloAck" ∷ "peerAdmission" ∷ "snapshotBegin" ∷ "snapshotManifest" ∷ "snapshotManifestEnd"
    ∷ "snapshotDirectory" ∷ "snapshotFileStart" ∷ "snapshotFileChunk" ∷ "snapshotFileEnd"
    ∷ "snapshotCheckpoint" ∷ "snapshotEnd" ∷ "snapshotError" ∷ "appPing" ∷ "appPong" ∷ []

abbrev pub snapshot_protocol_types : List String
snapshot_protocol_types =
    "snapshotRequest" ∷ "snapshotBegin" ∷ "snapshotManifest" ∷ "snapshotManifestEnd"
    ∷ "snapshotDirectory" ∷ "snapshotFileStart" ∷ "snapshotFileChunk" ∷ "snapshotFileEnd"
    ∷ "snapshotCheckpoint" ∷ "snapshotCheckpointAck" ∷ "snapshotFileRetry" ∷ "snapshotEnd"
    ∷ "snapshotError" ∷ []

-- `PeerConnectionPurpose`
pub data ConnectionPurpose : Type 0 where
  runtime bootstrap : ConnectionPurpose

unfoldable pub is_purpose_message_allowed :
    ConnectionPurpose → ConnectionPurpose → String → Bool → Bool
is_purpose_message_allowed runtime runtime frame_type inbound =
    not (is_member frame_type snapshot_protocol_types)
is_purpose_message_allowed bootstrap bootstrap frame_type inbound = false
is_purpose_message_allowed runtime bootstrap frame_type inbound =
    is_member frame_type
      (if inbound then bootstrap_to_runtime_types else runtime_to_bootstrap_types)
is_purpose_message_allowed bootstrap runtime frame_type inbound =
    is_member frame_type
      (if inbound then runtime_to_bootstrap_types else bootstrap_to_runtime_types)

unfoldable pub max_payload_bytes : String → ℕ
max_payload_bytes frame_type =
    if is_member frame_type bulk_chunk_types
    then 1024 * 1024
    else if str_eq frame_type "awareness"
    then 1024 * 1024
    else if is_member frame_type ("executeRequest" ∷ "executionEvent" ∷ "executeResult" ∷ [])
    then 32 * 1024 * 1024
    else if is_member frame_type (
        "projectUpdate" ∷ "stateDocument" ∷ "stateDiff" ∷ "textEditIntent" ∷ "textEditAccepted"
        ∷ "textEditRejected" ∷ "textStateSnapshot" ∷ [])
    then 64 * 1024 * 1024
    else 4 * 1024 * 1024

abbrev pub max_inbound_bytes : ℕ
max_inbound_bytes = 96 * 1024 * 1024

abbrev pub max_inbound_messages : ℕ
max_inbound_messages = 4096

abbrev pub max_total_inbound_bytes : ℕ
max_total_inbound_bytes = 256 * 1024 * 1024

abbrev pub max_total_inbound_messages : ℕ
max_total_inbound_messages = 8192

pub record Window : Type 0 where
  pub started_at : ℕ
  pub bytes : ℕ
  pub messages : ℕ

pub record Inbound : Type 0 where
  pub windows : Map String Window
  pub global_window : Window

abbrev pub fresh_window : ℕ → Window
fresh_window now = record { started_at = now; bytes = 0; messages = 0 }

-- a window of a second ago starts again; the message is counted
unfoldable pub count_message : ℕ → ℕ → Option Window → Window
count_message now bytes none = record { started_at = now; bytes = bytes; messages = 1 }
count_message now bytes (some w) =
    if leb (w.started_at + 1000) now
    then record { started_at = now; bytes = bytes; messages = 1 }
    else record { started_at = w.started_at; bytes = w.bytes + bytes; messages = w.messages + 1 }

unfoldable pub exceeds : ℕ → ℕ → Window → Bool
exceeds max_bytes max_messages w = ltb max_bytes w.bytes || ltb max_messages w.messages

-- The state afterwards, and the error that is thrown; what was counted stays counted.
unfoldable pub accept_inbound_rate : ℕ → String → ℕ → Inbound → Inbound × Option String
accept_inbound_rate now peer bytes s =
    let window = count_message now bytes (get peer s.windows) in
    let global = count_message now bytes (some s.global_window) in
    if exceeds max_inbound_bytes max_inbound_messages window
    then (
      record s { windows = put peer window s.windows },
      some "Peer exceeded the inbound message rate limit.",
    )
    else (
      record { windows = put peer window s.windows; global_window = global },
      if exceeds max_total_inbound_bytes max_total_inbound_messages global
          then some "Session exceeded the aggregate inbound message rate limit."
          else none,
    )

abbrev pub max_seen_ids_per_peer : ℕ
max_seen_ids_per_peer = 2048

-- the loop that deletes the oldest ids
unfoldable pub forget_oldest : Map String ℕ → Map String ℕ
forget_oldest [] = []
forget_oldest ((oldest, at) ∷ ids) =
    let rest = forget_oldest ids in
    if ltb max_seen_ids_per_peer (suc (length ids)) && not (str_eq oldest "")
    then rest
    else (oldest, at) ∷ ids

unfoldable pub was_seen :
    ℕ → String → String → Map String (Map String ℕ) → Bool × Map String (Map String ℕ)
was_seen now source id seen =
    let ids = or_else (get source seen) [] in
    if has id ids
    then (true, put source ids seen)
    else (false, put source (forget_oldest (put id now ids)) seen)
